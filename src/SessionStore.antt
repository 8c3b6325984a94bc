-- ===== src/SessionStore.antt =====
-- common/detail/session_store.h, class blob_session_store: the directory of the session storage
-- and the counter of its usage. Each method of this file runs alone; `SessionStore.Concurrent`
-- has the atomic operations one by one.
pub mod Usage
pub mod Startup
pub mod Concurrent
use data_relay_grpc.Base.{
  ℕ, suc, ◌+◌, ◌-◌, ◌%◌, ◌^◌, Bool, true, false, not, ◌||◌, List, [], ◌∷◌, ◌++◌, none, some, ltb,
  ◌==◌, if◌then◌else◌, Option,
}
use data_relay_grpc.Text.{Text, text, to_string}
use data_relay_grpc.FileSystem.{
  FilePath, Permissions, Node, regular, directory, FileSystem, node, exists, is_directory,
  entries_of, remove as remove_file,
}
use data_relay_grpc.Outcome.{
  Outcome, returns, throws, runtime_error, M, pure, throw, after, ◌>>=◌, ◌>>◌, for_each,
}

-- `std::size_t` and `std::uint64_t` wrap here
abbrev pub word : ℕ
word = 2 ^ 64

pub record SessionStore : Type 0 where
  pub directory : FilePath
  pub quota : ℕ
  pub current_size : ℕ

-- `path::string`
unfoldable pub path_string : FilePath → Text
path_string [] = []
path_string (name ∷ parent) = path_string parent ++ b'/' ∷ name

-- `status(p).permissions() & (owner_write | group_write | others_write)` is not `none`
unfoldable pub is_writable : Option Node → Bool
is_writable (some (Node.directory p)) = p.owner_write || p.group_write || p.others_write
is_writable (some (regular _)) = false
is_writable none = false

-- `itr.path()`: an entry's name, below the directory as it is given
abbrev below : FilePath → FilePath → FilePath
below dir [] = dir
below dir (name ∷ parent) = name ∷ dir

-- the body of the loop that empties the directory
unfoldable pub remove_entry : FilePath → FilePath → M FileSystem (Unit {0})
remove_entry dir p fs = elim (remove_file fs p) [
  | none ↦ (
    throws (
        runtime_error (
          path_string (below dir p)
          ++ text "remains in the session store directory ("
          ++ path_string dir
          ++ text ")")),
    fs,
  )
  | some fs' ↦ (returns tt, fs')
]

-- The constructor. `status` follows links, so that its type is never `symlink`.
unfoldable pub blob_session_store : FilePath → ℕ → M FileSystem SessionStore
blob_session_store dir quota fs =
    if not (exists fs dir)
    then (throws (runtime_error (path_string dir ++ text " does not exists")), fs)
    else if not (is_directory (node fs dir))
    then (throws (runtime_error (path_string dir ++ text " is not a directory")), fs)
    else if not (is_writable (node fs dir))
    then (throws (runtime_error (path_string dir ++ text " is not writable")), fs)
    else after (for_each (remove_entry dir) (entries_of fs dir) fs)
        (λ _. pure (record { directory = dir; quota = quota; current_size = 0 }))

unfoldable pub create_blob_file : SessionStore → ℕ → Text → FilePath
create_blob_file s new_blob_id prefix = (prefix ++ text "_" ++ to_string new_blob_id) ∷ s.directory

-- `reserve`, when no other thread runs between its load and its compare-exchange
unfoldable pub reserve : SessionStore → ℕ → Bool × SessionStore
reserve s size =
    if s.quota == 0
    then (true, s)
    else if ltb s.quota ((s.current_size + size) % word)
    then (false, s)
    else (true, record s { current_size = (s.current_size + size) % word })

unfoldable pub remove : SessionStore → ℕ → SessionStore
remove s size =
    if s.quota == 0 then s else record s { current_size = (s.current_size + word - size) % word }
