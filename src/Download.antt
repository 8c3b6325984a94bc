-- ===== src/Download.antt =====
-- blob_relay/streaming_service.{h,cpp}, `Get`: the download of a BLOB. The handler runs here with
-- no other call between its steps.
pub mod Chunks
pub mod Access
pub mod Delivery
use mathlib.Core.Option
use data_relay_grpc.Base.{
  ℕ, zero, suc, ◌+◌, ◌%◌, Bool, true, false, not, ◌&&◌, ◌||◌, List, [], ◌∷◌, ◌++◌, Option, none,
  some, ◌==◌, if◌then◌else◌, map, take, drop, length,
}
use data_relay_grpc.Text.{Text, text}
use data_relay_grpc.FileSystem.{FilePath, FileSystem, node, exists, size_of, content_of, is_empty}
use data_relay_grpc.SessionStore.{word}
use data_relay_grpc.Session.{SessionImpl, find}
use data_relay_grpc.Manager.{
  Api, Manager, Server, mock_tag, get_session_impl, get_session_id, get_tag,
}
use data_relay_grpc.Outcome.{
  Exception, filesystem_error, is_out_of_range, Outcome, returns, throws, undefined,
}
use data_relay_grpc.Relay.{
  StatusCode, ok, unavailable, invalid_argument, permission_denied, not_found, internal, Message,
  says, what, Status, BlobReference, ContextId, session_id, transaction_id, not_set,
  GetStreamingRequest, GetStreamingResponse, check_api_version, api_version_error_message, fails,
}

abbrev pub session_storage_id : ℕ
session_storage_id = 0

abbrev pub limestone_blob_store : ℕ
limestone_blob_store = 1

-- a part of a handler: it goes on, returns from the handler, or throws
pub data Flow {ℓ} (A : Type ℓ) : Type ℓ where
  goes : A → Flow A
  ends : Status → Flow A
  raises : Exception → Flow A
  lost : Flow A

infixl 5 ◌>>=◌ ◌>>◌
abbrev pub ◌>>=◌ {ℓ κ} : {A : Type ℓ} {B : Type κ} → Flow A → (A → Flow B) → Flow B
goes a >>= k = k a
ends s >>= k = ends s
raises x >>= k = raises x
lost >>= k = lost

abbrev pub ◌>>◌ {κ} : {B : Type κ} → Flow (Unit {0}) → Flow B → Flow B
m >> k = m >>= λ _. k

abbrev pub calls {ℓ} : {A : Type ℓ} → Outcome A → Flow A
calls (returns a) = goes a
calls (throws x) = raises x
calls undefined = lost

-- the local variables `session_id`, `transaction_id` and `raw_transaction`
pub record Origin : Type 0 where
  pub session : ℕ
  pub transaction : Option ℕ
  pub raw : Bool

-- `get_session_id` in its own `try`
abbrev pub origin_of : ℕ → Outcome ℕ → Flow Origin
origin_of tid (returns sid) = goes (record { session = sid; transaction = some tid; raw = false })
origin_of tid (throws x) =
    if is_out_of_range x
    then goes (record { session = 0; transaction = some tid; raw = true })
    else raises x
origin_of tid undefined = lost

unfoldable pub find_origin : Manager → ContextId → Flow Origin
find_origin m (session_id sid) = goes (record { session = sid; transaction = none; raw = false })
find_origin m (transaction_id tid) = origin_of tid (get_session_id tid m)
find_origin m not_set =
    ends (fails invalid_argument (text "content_id is neither session_id nor transaction_id"))

-- the session that was found for a transaction must have that transaction
unfoldable pub same_transaction : ℕ → SessionImpl → Flow (Unit {0})
same_transaction tid impl = elim impl.transaction_id [
  | none ↦ ends (fails permission_denied (text "the session has no transaction"))
  | some own ↦
      if own == tid
      then goes tt
      else ends
          (fails permission_denied (text "transaction_id does not match with that of the session"))
]

unfoldable pub check_transaction : Manager → Origin → Flow (Unit {0})
check_transaction m o = elim o.transaction [
  | none ↦ goes tt
  | some tid ↦
      if o.raw then goes tt else (calls (get_session_impl o.session m) >>= same_transaction tid)
]

abbrev pub no_blob : Status
no_blob = fails not_found (text "cannot find the blob data by the blob_id given")

-- the path in the session that is asked for, if it has the BLOB
abbrev pub path_or_end : Option FilePath → Flow FilePath
path_or_end (some path) = goes path
path_or_end none = ends no_blob

unfoldable pub locate : Api → Server → Origin → BlobReference → Flow FilePath
locate api s o blob =
    if blob.storage_id == session_storage_id
    then (if o.raw
        then ends no_blob
        else (calls (get_session_impl o.session s.manager) >>= λ impl.
            path_or_end (find blob.object_id impl)))
    else if blob.storage_id == limestone_blob_store
    then (if exists s.file_system (api.get_path blob.object_id)
        then goes (api.get_path blob.object_id)
        else ends no_blob)
    else ends (
        fails invalid_argument
          (text "storage_id is neither session store nor limestone blob store"))

unfoldable pub expected_tag : Api → Manager → Origin → (blob_id : ℕ) → Flow ℕ
expected_tag api m o blob_id = elim o.transaction [
  | some tid ↦ goes (api.get_tag blob_id tid)
  | none ↦ calls (get_session_impl o.session m) >>= λ impl. goes (get_tag api blob_id impl)
]

unfoldable pub check_tag : Manager → (expected given : ℕ) → Flow (Unit {0})
check_tag m expected given =
    if not (expected == given) && (not m.dev_accept_mock_tag || not (given == mock_tag))
    then ends (fails permission_denied (text "the given tag does not match the desiring value"))
    else goes tt

-- The loop that reads `chunk_size` bytes at a time, until a read gives none; `none` when the fuel
-- has run out.
unfoldable pub read_chunks : ℕ → (chunk_size : ℕ) → List ℕ → Option (List (List ℕ))
read_chunks zero chunk_size bytes = none
read_chunks (suc fuel) chunk_size bytes =
    let rest = read_chunks fuel chunk_size (drop chunk_size bytes) in
    if is_empty (take chunk_size bytes)
    then some []
    else Option.map (λ cs. take chunk_size bytes ∷ cs) rest

pub data GetResult : Type 0 where
  ended : Status → List GetStreamingResponse → GetResult
  endless : GetResult
  crashed : GetResult

abbrev pub all_sent : ℕ → Option (List (List ℕ)) → GetResult
all_sent size none = endless
all_sent size (some cs) =
    ended (fails ok (text ""))
      (GetStreamingResponse.metadata size ∷ map GetStreamingResponse.chunk cs)

-- `file_size` throws on what is no regular file
abbrev pub sent : FilePath → ℕ → List ℕ → Option ℕ → GetResult
sent path chunk_size bytes none =
    ended (record { code = internal; message = what (filesystem_error path) }) []
sent path chunk_size bytes (some size) =
    all_sent size (read_chunks (suc (length bytes)) chunk_size bytes)

-- the part of `Get` that writes to the client
unfoldable pub send_blob : FileSystem → (chunk_size : ℕ) → FilePath → GetResult
send_blob fs chunk_size path =
    if exists fs path
    then sent path chunk_size (content_of (node fs path)) (size_of (node fs path))
    else ended (fails not_found (text "an error occurred while reading the blob file")) []

-- the checks of `Get`, up to the path of the file to send
unfoldable pub authorize : Api → Server → GetStreamingRequest → Flow FilePath
authorize api s request = do
  o ← find_origin s.manager request.context_id
  check_transaction s.manager o
  path ← locate api s o request.blob
  expected ← expected_tag api s.manager o request.blob.object_id
  check_tag s.manager expected request.blob.tag
  goes path

-- `catch (std::exception &)`
abbrev pub handled : FileSystem → ℕ → Flow FilePath → GetResult
handled fs chunk_size (goes path) = send_blob fs chunk_size path
handled fs chunk_size (ends status) = ended status []
handled fs chunk_size (raises x) = ended (record { code = internal; message = what x }) []
handled fs chunk_size lost = crashed

-- `Get`
unfoldable pub get : Api → (chunk_size : ℕ) → Server → GetStreamingRequest → GetResult
get api chunk_size s request =
    if not (check_api_version request.api_version)
    then ended (fails unavailable (api_version_error_message request.api_version)) []
    else handled s.file_system chunk_size (authorize api s request)
