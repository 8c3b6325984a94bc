-- ===== src/Tests/BlobSessions.antt =====
-- The theorems on `blob_session`, at concrete inputs.
use data_relay_grpc.Base.{ℕ, ◌≡◌, ◌≢◌, refl, [], ◌∷◌, Option, none, some, arith}
use data_relay_grpc.OrderedMap
use data_relay_grpc.OrderedMap.{emplace, assign, erase}
use data_relay_grpc.FileSystem.{
  FilePath, FilePath-discrete, exists, node, find_node, removed, is_removable,
  remove as remove_file,
}
use data_relay_grpc.SessionStore
use data_relay_grpc.Session
use data_relay_grpc.Session.{
  get_new_blob_id, delete_blob_file, delete_found, remove_if_exists, remove_list,
}
use data_relay_grpc.Session.Contents.{without}
use data_relay_grpc.Manager.{Server, with_session}
use data_relay_grpc.Outcome.{returns, for_each}
use data_relay_grpc.BlobSession.{add, find, remove}
use data_relay_grpc.BlobSession.Contract.{find-add, find-remove}
use data_relay_grpc.BlobSession.Interface.{blob_session, remove-add}
use data_relay_grpc.Tests.Fixtures.{
  ossl, dir, disk, impl2, server, adding, holding, server-IsSound, holding-IsSound,
}

abbrev file : FilePath
file = (1 ∷ []) ∷ []

adds_file : add 1 file server ≡ (returns 1, adding)
unfolding add with_session Session.add get_new_blob_id OrderedMap.find emplace assign exists node
    find_node FilePath-discrete
adds_file = refl

find-add_example :
    ((find 1 1 server).0 ≡ returns none)
    × ((find 1 1 adding).0 ≡ returns (some file))
    × ((other : ℕ) → 1 ≢ other → (find 1 other adding).0 ≡ (find 1 other server).0)
find-add_example = find-add 1 1 file server adding server-IsSound (omega arith) adds_file

abbrev emptied : Server
emptied = record {
  manager = record (holding.manager) {
    store = record { directory = dir; quota = 10; current_size = 0 };
    blob_sessions = (1, record impl2 { blobs = [] }) ∷ [];
  };
  file_system = removed disk file;
}

removes_file : remove 1 (1 ∷ []) holding ≡ (returns tt, emptied)
unfolding remove with_session remove_list for_each delete_blob_file delete_found remove_if_exists
    OrderedMap.find erase assign SessionStore.remove remove_file exists is_removable node find_node
    FilePath-discrete
removes_file = refl

find-remove_example :
    (f : ℕ → Option FilePath) × ((id : ℕ) → (find 1 id holding).0 ≡ returns (f id))
    × ((id : ℕ) → (find 1 id emptied).0 ≡ returns (without (1 ∷ []) f id))
find-remove_example = find-remove 1 (1 ∷ []) holding emptied holding-IsSound removes_file

-- the server after the file is added, and removed again
abbrev unadded : Server
unadded = record {
  manager = record (adding.manager) { blob_sessions = (1, record impl2 { blobs = [] }) ∷ [] };
  file_system = removed disk file;
}

added_file : (blob_session ossl 1).add file server ≡ (returns 1, adding)
unfolding blob_session
added_file = adds_file

removed_file : (blob_session ossl 1).remove (1 ∷ []) adding ≡ (returns tt, unadded)
unfolding blob_session remove with_session remove_list for_each delete_blob_file delete_found
    remove_if_exists OrderedMap.find erase assign SessionStore.remove remove_file exists
    is_removable node find_node FilePath-discrete
removed_file = refl

remove-add_example :
    ((blob_session ossl 1).find 1 unadded).0 ≡ ((blob_session ossl 1).find 1 server).0
remove-add_example =
    remove-add ossl 1 1 file server adding unadded server-IsSound (omega arith) added_file
      removed_file 1
