-- ===== src/Session.antt =====
-- common/detail/session_impl.{h,cpp}, class blob_session_impl, and the methods of class
-- blob_session (common/session.cpp) that pass on to it. A method works on a `Context`: the fields
-- of the session, and what it reaches through its references, that is the session storage, the
-- BLOB id counter of the manager and the file system.
pub mod Accounting
pub mod Deletion
pub mod Disposal
pub mod Leaks
pub mod Contents
pub mod Release
pub mod Evolution
use mathlib.Core.Option
use data_relay_grpc.Base.{
  ℕ, suc, ◌+◌, ◌-◌, ◌%◌, Bool, true, false, List, [], ◌∷◌, ◌++◌, none, some, Option, leb, ◌==◌,
  if◌then◌else◌, map, take, drop,
}
use data_relay_grpc.OrderedMap
use data_relay_grpc.OrderedMap.{emplace, erase, assign, keys}
use data_relay_grpc.Text.{Text, text}
use data_relay_grpc.FileSystem.{FilePath, FileSystem, exists, canonical, remove as remove_file}
use data_relay_grpc.SessionStore.{SessionStore, word, reserve, path_string, remove as release}
use data_relay_grpc.SessionStore
use data_relay_grpc.Outcome.{
  Exception, map_at, runtime_error, filesystem_error, Outcome, returns, throws, M, pure, throw,
  after, ◌>>=◌, ◌>>◌, for_each,
}

-- the value type of `blobs_`: the path, and the usage reserved for it
pub record Blob : Type 0 where
  pub path : FilePath
  pub size : ℕ

pub record SessionImpl : Type 0 where
  pub session_id : ℕ
  pub transaction_id : Option ℕ
  pub blobs : List (ℕ × Blob)

pub record Context : Type 0 where
  pub impl : SessionImpl
  pub open impl use *
  pub store : SessionStore
  pub blob_id : ℕ
  pub file_system : FileSystem

abbrev pub with_blobs : Context → List (ℕ × Blob) → Context
with_blobs c m = record c { impl = record (c.impl) { blobs = m } }

-- `blob_session_manager::get_new_blob_id`: `fetch_add(1) + 1`
unfoldable pub get_new_blob_id : M Context ℕ
get_new_blob_id c =
    (returns ((c.blob_id + 1) % word), record c { blob_id = (c.blob_id + 1) % word })

-- `add`: the file is not subject to quota management
unfoldable pub add : FilePath → M Context ℕ
add path = get_new_blob_id >>= λ new_blob_id c.
    if exists c.file_system path
    then (
      returns new_blob_id,
      with_blobs c
          (emplace new_blob_id (record { path = canonical c.file_system path; size = 0 }) c.blobs),
    )
    else (throws (runtime_error (path_string path ++ text " does not exists")), c)

-- `create_blob_file`: the file itself is not made here
unfoldable pub create_blob_file : Text → M Context (ℕ × FilePath)
create_blob_file prefix = get_new_blob_id >>= λ new_blob_id c.
    let file_path = SessionStore.create_blob_file c.store new_blob_id prefix in
    (
      returns (new_blob_id, file_path),
      with_blobs c (emplace new_blob_id (record { path = file_path; size = 0 }) c.blobs),
    )

-- `find`
unfoldable pub find : ℕ → SessionImpl → Option FilePath
find blob_id impl = Option.map (λ b. b.path) (OrderedMap.find blob_id impl.blobs)

-- `entries`
unfoldable pub entries : SessionImpl → List ℕ
entries impl = keys impl.blobs

-- `if (exists(path)) { remove(path); }`; `none` is the error of `remove`
unfoldable pub remove_if_exists : FileSystem → FilePath → Option FileSystem
remove_if_exists fs path = if exists fs path then remove_file fs path else some fs

-- the branch of `delete_blob_file` on an entry that is there
unfoldable pub delete_found : ℕ → Blob → M Context (Unit {0})
delete_found bid b c = elim (remove_if_exists c.file_system b.path) [
  | none ↦ (throws (filesystem_error b.path), record c { store = release c.store b.size })
  | some fs ↦ (
    returns tt,
    record c {
      impl = record (c.impl) { blobs = erase bid c.blobs };
      store = release c.store b.size;
      file_system = fs;
    },
  )
]

unfoldable pub delete_blob_file : ℕ → M Context (Unit {0})
delete_blob_file bid c = elim (OrderedMap.find bid c.blobs) [
  | none ↦ (returns tt, c)
  | some b ↦ delete_found bid b c
]

-- `reserve_session_store`; `blobs_.at` throws when the BLOB is not there
unfoldable pub reserve_session_store : ℕ → ℕ → M Context Bool
reserve_session_store bid size c =
    let (reserved, s) = reserve c.store size in
    if reserved
    then (elim (OrderedMap.find bid c.blobs) [
      | none ↦ (throws map_at, record c { store = s })
      | some b ↦ (
        returns true,
        record c {
          impl = record (c.impl) {
            blobs = assign bid (record b { size = (b.size + size) % word }) c.blobs;
          };
          store = s;
        },
      )
    ])
    else (returns false, c)

-- the loop of `dispose`, over the entries as they are at its start
unfoldable pub delete_entries : M Context (Unit {0})
delete_entries c = for_each delete_blob_file (entries c.impl) c

-- `blob_session::remove` over the iterators of a vector, given by their positions in it
unfoldable pub remove_vector : List ℕ → (first last : ℕ) → M Context (Unit {0})
remove_vector blob_ids first last =
    if leb first last
    then for_each delete_blob_file (take (last - first) (drop first blob_ids))
    else throw (runtime_error (text "iterator begin is greather than iterator end"))

-- `blob_session::remove` over the iterators of a list, given by what stands between them
unfoldable pub remove_list : List ℕ → M Context (Unit {0})
remove_list blob_ids = for_each delete_blob_file blob_ids

-- `blob_session::remove` over any other iterators
unfoldable pub remove : M Context (Unit {0})
remove = throw (runtime_error (text "not supported"))
