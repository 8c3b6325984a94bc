-- ===== src/Tests/Fixtures.antt =====
-- The state that the tests run on: a storage directory, and a server with one session.
use data_relay_grpc.Base.{ℕ, ◌≡◌, refl, true, false, List, [], ◌∷◌, some, arith, subst}
use data_relay_grpc.OrderedMap.{find, emplace, assign, erase}
use data_relay_grpc.FileSystem.{
  FilePath, FilePath-discrete, Permissions, directory, regular, FileSystem, find_node, node, exists,
  children, entries_of, is_removable, removed, remove as remove_file,
}
use data_relay_grpc.TagGenerator.{OpenSsl, digest, tag_generator}
use data_relay_grpc.SessionStore.{blob_session_store, is_writable, reserve, remove}
use data_relay_grpc.Session.{
  Blob, SessionImpl, add, get_new_blob_id, reserve_session_store, delete_blob_file, delete_found,
  remove_if_exists, delete_entries, entries,
}
use data_relay_grpc.Outcome.{returns, for_each}
use data_relay_grpc.Manager.{
  Api, Manager, Server, blob_session_manager, create_session, register, with_session, dispose,
  dispose_session, unregister,
}
use data_relay_grpc.Manager.History.{
  creates, adds, reserves, IsSound, Step-IsSound, constructor-IsSound,
}
use data_relay_grpc.Service.{ServiceConfiguration}

abbrev pub eight : List ℕ
eight = 1 ∷ 0 ∷ 0 ∷ 0 ∷ 0 ∷ 0 ∷ 0 ∷ 0 ∷ 9 ∷ []

-- an HMAC that gives the tag 1 to all
abbrev pub ossl : OpenSsl
ossl = record {
  rand_bytes = λ n. some (1 ∷ 2 ∷ []);
  hmac_sha256 = λ key message. digest eight;
  error_string = λ e. [];
}

abbrev pub api : Api
api = record { get_tag = λ blob_id transaction_id. 5; get_path = λ blob_id. (1 ∷ []) ∷ [] }

abbrev pub dir : FilePath
dir = (2 ∷ []) ∷ []

abbrev pub open_access : Permissions
open_access = record { owner_write = true; group_write = false; others_write = false }

abbrev pub disk : FileSystem
disk = record {
  nodes = (dir, directory open_access) ∷ ((1 ∷ []) ∷ [], regular (4 ∷ 5 ∷ [])) ∷ [];
  resolve = λ p. p;
  can_open = λ p. true;
  can_remove = λ p. true;
}

abbrev pub conf : ServiceConfiguration
conf = record {
  session_store = dir;
  session_quota_size = 10;
  local_enabled = true;
  local_upload_copy_file = false;
  stream_chunk_size = 2;
  dev_accept_mock_tag = false;
}

abbrev pub empty_manager : Manager
empty_manager = record {
  store = record { directory = dir; quota = 10; current_size = 0 };
  dev_accept_mock_tag = false;
  hmac_secret_key = 1 ∷ 2 ∷ [];
  session_id = 0;
  blob_id = 0;
  blob_sessions = [];
  blob_session_ids = [];
}

abbrev pub empty_server : Server
empty_server = record { manager = empty_manager; file_system = disk }

abbrev pub impl1 : SessionImpl
impl1 = record { session_id = 1; transaction_id = some 7; blobs = [] }

abbrev pub server : Server
server = record {
  manager = record empty_manager {
    session_id = 1;
    blob_sessions = (1, impl1) ∷ [];
    blob_session_ids = (7, 1) ∷ [];
  };
  file_system = disk;
}

pub manager_starts : blob_session_manager ossl dir 10 false disk ≡ (returns empty_manager, disk)
unfolding blob_session_manager blob_session_store tag_generator exists node find_node is_writable
    entries_of children for_each FilePath-discrete
manager_starts = refl

pub empty_server-IsSound : IsSound 0 empty_server
empty_server-IsSound =
    constructor-IsSound ossl dir 10 false disk disk empty_manager (omega arith) (omega arith)
      manager_starts

pub server_created : (create_session (some 7) empty_server).1 ≡ server
unfolding create_session emplace register
server_created = refl

pub server-IsSound : IsSound 0 server
server-IsSound =
    subst (IsSound 0) server_created
      (Step-IsSound (creates (some 7) (omega arith)) empty_server-IsSound)

abbrev pub blob0 : Blob
blob0 = record { path = (1 ∷ []) ∷ []; size = 0 }

abbrev pub blob3 : Blob
blob3 = record { path = (1 ∷ []) ∷ []; size = 3 }

-- the server after the session has added a file and reserved 3 bytes for it
abbrev pub impl2 : SessionImpl
impl2 = record { session_id = 1; transaction_id = some 7; blobs = (1, blob3) ∷ [] }

abbrev pub adding : Server
adding = record {
  manager = record (server.manager) {
    blob_id = 1;
    blob_sessions = (1, record impl2 { blobs = (1, blob0) ∷ [] }) ∷ [];
  };
  file_system = disk;
}

abbrev pub holding : Server
holding = record {
  manager = record (server.manager) {
    store = record { directory = dir; quota = 10; current_size = 3 };
    blob_id = 1;
    blob_sessions = (1, impl2) ∷ [];
  };
  file_system = disk;
}

added : (with_session 1 (add ((1 ∷ []) ∷ [])) server).1 ≡ adding
unfolding with_session add get_new_blob_id find emplace assign exists node find_node
    FilePath-discrete
added = refl

held : (with_session 1 (reserve_session_store 1 3) adding).1 ≡ holding
unfolding with_session reserve_session_store reserve find assign
held = refl

impl1_there : find 1 server.blob_sessions ≡ some impl1
unfolding find
impl1_there = refl

adding_there : find 1 adding.blob_sessions ≡ some (record impl2 { blobs = (1, blob0) ∷ [] })
unfolding find
adding_there = refl

adding_has : find 1 ((1, blob0) ∷ []) ≡ some blob0
unfolding find
adding_has = refl

pub holding-IsSound : IsSound 0 holding
holding-IsSound = subst (IsSound 0) held (
    Step-IsSound (reserves 1 1 3 (omega arith) adding_there adding_has) (
      subst (IsSound 0) added
        (Step-IsSound (adds 1 ((1 ∷ []) ∷ []) (omega arith) impl1_there) server-IsSound)))

-- the server after the session with the BLOB is disposed of
abbrev pub over : Server
over = record {
  manager = record (holding.manager) {
    store = record { directory = dir; quota = 10; current_size = 0 };
    blob_sessions = [];
    blob_session_ids = [];
  };
  file_system = removed disk ((1 ∷ []) ∷ []);
}

pub disposes : dispose_session 1 holding ≡ (returns tt, over)
unfolding dispose_session with_session dispose unregister delete_entries entries for_each
    delete_blob_file delete_found remove_if_exists find erase assign remove remove_file exists
    is_removable node find_node FilePath-discrete
disposes = refl
