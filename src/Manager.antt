-- ===== src/Manager.antt =====
-- common/detail/session_manager.{h,cpp}, class blob_session_manager, and `dispose` of class
-- blob_session_impl, which ends in the manager. Each method holds the manager's mutex, so it is
-- one step. A reference to a session is its id; a call through a reference to a session that is
-- no longer there is undefined.
pub mod Registry
pub mod Books
pub mod Lookup
pub mod Lifecycle
pub mod History
pub mod Growth
pub mod Contract
pub mod Views
pub mod Methods
pub mod Refinement
use data_relay_grpc.Base.{ℕ, ◌+◌, ◌%◌, Bool, List, [], ◌∷◌, Option, none, some, ◌==◌, if◌then◌else◌}
use data_relay_grpc.OrderedMap.{find, emplace, erase, assign}
use data_relay_grpc.Text.{text}
use data_relay_grpc.FileSystem.{FilePath, FileSystem}
use data_relay_grpc.TagGenerator
use data_relay_grpc.TagGenerator.{OpenSsl, tag_generator}
use data_relay_grpc.SessionStore.{SessionStore, word, blob_session_store}
use data_relay_grpc.Session.{Blob, SessionImpl, Context, delete_entries}
use data_relay_grpc.Outcome.{
  Outcome, returns, throws, undefined, out_of_range, M, pure, throw, after, ◌>>=◌, ◌>>◌,
}

-- common/api.h: the functions of the datastore
pub record Api : Type 0 where
  pub get_tag : (blob_id transaction_id : ℕ) → ℕ
  pub get_path : (blob_id : ℕ) → FilePath

pub record Manager : Type 0 where
  pub store : SessionStore
  pub dev_accept_mock_tag : Bool
  pub hmac_secret_key : List ℕ
  pub session_id : ℕ
  pub blob_id : ℕ
  pub blob_sessions : List (ℕ × SessionImpl)
  pub blob_session_ids : List (ℕ × ℕ)

-- The manager, with the file system that it works on.
pub record Server : Type 0 where
  pub manager : Manager
  pub open manager use *
  pub file_system : FileSystem

abbrev pub mock_tag : ℕ
mock_tag = 0xffff_ffff_ffff_ffff

-- the constructor: its members in the order of their declaration
unfoldable pub blob_session_manager : OpenSsl → FilePath → ℕ → Bool → M FileSystem Manager
blob_session_manager o directory quota dev_accept_mock_tag =
    blob_session_store directory quota >>= λ store fs. (elim (tag_generator o) [
      | returns key ↦ (
        returns (record {
          store = store;
          dev_accept_mock_tag = dev_accept_mock_tag;
          hmac_secret_key = key;
          session_id = 0;
          blob_id = 0;
          blob_sessions = [];
          blob_session_ids = [];
        }),
        fs,
      )
      | throws x ↦ (throws x, fs)
      | undefined ↦ (undefined, fs)
    ])

-- `blob_session_ids_.emplace`, if there is a transaction
unfoldable pub register : Option ℕ → ℕ → List (ℕ × ℕ) → List (ℕ × ℕ)
register none session_id ids = ids
register (some tid) session_id ids = emplace tid session_id ids

unfoldable pub create_session : Option ℕ → M Server ℕ
create_session transaction_id s =
    let id = (s.session_id + 1) % word in
    (
      returns id,
      record s {
        manager = record (s.manager) {
          session_id = id;
          blob_sessions =
              emplace id (record { session_id = id; transaction_id = transaction_id; blobs = [] })
                s.blob_sessions;
          blob_session_ids = register transaction_id id s.blob_session_ids;
        };
      },
    )

unfoldable pub get_session_impl : ℕ → Manager → Outcome SessionImpl
get_session_impl session_id m = elim (find session_id m.blob_sessions) [
  | some impl ↦ returns impl
  | none ↦ throws (out_of_range (text "can not find the session specified"))
]

-- `get_session`: the reference
unfoldable pub get_session : ℕ → Manager → Outcome ℕ
get_session session_id m = elim (find session_id m.blob_sessions) [
  | some impl ↦ returns session_id
  | none ↦ throws (out_of_range (text "can not find the session specified"))
]

unfoldable pub get_session_id : ℕ → Manager → Outcome ℕ
get_session_id transaction_id m = elim (find transaction_id m.blob_session_ids) [
  | some id ↦ returns id
  | none ↦ throws (out_of_range (text "can not find the session specified by the transaction_id"))
]

-- `blob_session_ids_.erase`, if there is a transaction
unfoldable pub unregister : Option ℕ → List (ℕ × ℕ) → List (ℕ × ℕ)
unregister none ids = ids
unregister (some tid) ids = erase tid ids

-- `dispose`: a session that is not there is left alone
unfoldable pub dispose : ℕ → Manager → Manager
dispose session_id m = elim (find session_id m.blob_sessions) [
  | none ↦ m
  | some impl ↦ record m {
    blob_sessions = erase session_id m.blob_sessions;
    blob_session_ids = unregister impl.transaction_id m.blob_session_ids;
  }
]

unfoldable pub generate_reference_tag : OpenSsl → (blob_id session_id : ℕ) → Manager → Outcome ℕ
generate_reference_tag o blob_id session_id m =
    TagGenerator.generate_reference_tag o m.hmac_secret_key blob_id session_id

unfoldable pub session_store_current_size : Manager → ℕ
session_store_current_size m = m.store.current_size

-- what a session sees of the server, and the server after the session has changed it
abbrev pub context : Server → SessionImpl → Context
context s impl = record {
  impl = impl;
  store = s.store;
  blob_id = s.blob_id;
  file_system = s.file_system;
}

abbrev pub absorb : ℕ → Server → Context → Server
absorb session_id s c = record {
  manager = record (s.manager) {
    store = c.store;
    blob_id = c.blob_id;
    blob_sessions = assign session_id c.impl s.blob_sessions;
  };
  file_system = c.file_system;
}

abbrev pub absorbed : {A : Type 0} → ℕ → Server → Outcome A × Context → Outcome A × Server
absorbed session_id s (o, c) = (o, absorb session_id s c)

-- a method of `blob_session_impl`, called through a reference to the session
unfoldable pub with_session : {A : Type 0} → ℕ → M Context A → M Server A
with_session session_id method s = elim (find session_id s.blob_sessions) [
  | none ↦ (undefined, s)
  | some impl ↦ absorbed session_id s (method (context s impl))
]

-- `blob_session_impl::dispose`
unfoldable pub dispose_session : ℕ → M Server (Unit {0})
dispose_session session_id s =
    after (with_session session_id delete_entries s)
      (λ _ t. (returns tt, record t { manager = dispose session_id t.manager }))

-- `blob_session_impl::compute_tag`
unfoldable pub compute_tag : OpenSsl → (blob_id : ℕ) → SessionImpl → Manager → Outcome ℕ
compute_tag o blob_id impl m = generate_reference_tag o blob_id impl.session_id m

-- `blob_session_impl::get_tag`: a session with no transaction gives its own id
unfoldable pub get_tag : Api → (blob_id : ℕ) → SessionImpl → ℕ
get_tag api blob_id impl = elim impl.transaction_id [
  | some tid ↦ api.get_tag blob_id tid
  | none ↦ api.get_tag blob_id impl.session_id
]
