-- ===== src/Manager/Contract.antt =====
-- What the manager promises its users, whatever maps it is built on: sessions with a transaction and
-- a path for each BLOB id, and what each call may answer and change.
use data_relay_grpc.Base.{ℕ, Bool, true, false, ◌≡◌, List, ◌∷◌, ◌++◌, Option, none, some}
use data_relay_grpc.Text.{Text, text}
use data_relay_grpc.Outcome.{
  Outcome, returns, throws, undefined, map_at, runtime_error, filesystem_error,
}
use data_relay_grpc.SessionStore.{path_string}
use data_relay_grpc.OrderedMap
use data_relay_grpc.OrderedMap.{assign, AscendsFrom}
use data_relay_grpc.FileSystem.{FilePath}
use data_relay_grpc.Session.{SessionImpl}
use data_relay_grpc.Session.Contents.{set, without, contents}
use data_relay_grpc.Manager.{Server}

pub record Entry : Type 0 where
  pub transaction : Option ℕ
  pub files : ℕ → Option FilePath

abbrev pub View : Type 0
View = ℕ → Option Entry

abbrev pub entry_of : SessionImpl → Entry
entry_of impl = record { transaction = impl.transaction_id; files = contents impl }

abbrev pub seen : Option SessionImpl → Option Entry
seen none = none
seen (some impl) = some (entry_of impl)

-- what the users of a server see of its sessions
abbrev pub view_of : Server → View
view_of s sid = seen (OrderedMap.find sid s.blob_sessions)

-- a call of the manager, or of a session through its id
pub data Op : Type 0 where
  open_session : Option ℕ → Op
  add_file : (sid : ℕ) → FilePath → Op
  create_file : (sid : ℕ) → Text → Op
  reserve_size : (sid bid size : ℕ) → Op
  remove_blobs : (sid : ℕ) → List ℕ → Op
  end_session : (sid : ℕ) → Op

pub data Answer : Type 0 where
  session : ℕ → Answer
  blob : ℕ → Answer
  blob_file : ℕ → FilePath → Answer
  reserved : Bool → Answer
  done : Answer

abbrev pub session_of : Op → Option ℕ
session_of (open_session t) = none
session_of (add_file sid path) = some sid
session_of (create_file sid prefix) = some sid
session_of (reserve_size sid bid size) = some sid
session_of (remove_blobs sid ids) = some sid
session_of (end_session sid) = some sid

-- what the contract takes from below: the files, the names of new files, and the room that is left
pub record Storage : Type 0 where
  pub stands : FilePath → Bool
  pub resolve : FilePath → FilePath
  pub new_file : ℕ → Text → FilePath
  pub has_room : ℕ → Bool

-- an id that no BLOB of any session has
abbrev pub IsFresh : ℕ → View → Type 0
IsFresh bid v = (other : ℕ) (f : Entry) → v other ≡ some f → f.files bid ≡ none

-- the view after the BLOBs of one session have changed
abbrev pub with_files : ℕ → Entry → (ℕ → Option FilePath) → View → View
with_files sid e fs v = set sid (some (let x : Entry = record e { files = fs } in x)) v

-- What each call may answer and make of the view. A deletion that fails throws, after the BLOBs
-- before it are gone. A call on a session that is not there is undefined.
pub data Change (w : Storage) (v : View) : Op → Outcome Answer → View → Type 0 where
  opens :
      (t : Option ℕ) (sid : ℕ)
      → v sid ≡ none
      → Change w v
          (open_session t)
          (returns (session sid))
          (set sid (some (record { transaction = t; files = λ bid. none })) v)
  adds :
      (sid bid : ℕ) (path : FilePath) (e : Entry)
      → v sid ≡ some e
      → w.stands path ≡ true
      → IsFresh bid v
      → Change w v
          (add_file sid path)
          (returns (blob bid))
          (with_files sid e (set bid (some (w.resolve path)) e.files) v)
  add_fails :
      (sid : ℕ) (path : FilePath) (e : Entry)
      → v sid ≡ some e
      → w.stands path ≡ false
      → Change w v
          (add_file sid path)
          (throws (runtime_error (path_string path ++ text " does not exists")))
          v
  creates :
      (sid bid : ℕ) (prefix : Text) (e : Entry)
      → v sid ≡ some e
      → IsFresh bid v
      → Change w v
          (create_file sid prefix)
          (returns (blob_file bid (w.new_file bid prefix)))
          (with_files sid e (set bid (some (w.new_file bid prefix)) e.files) v)
  reserves :
      (sid bid size : ℕ) (e : Entry) (path : FilePath)
      → v sid ≡ some e
      → e.files bid ≡ some path
      → w.has_room size ≡ true
      → Change w v (reserve_size sid bid size) (returns (reserved true)) v
  refuses :
      (sid bid size : ℕ) (e : Entry)
      → v sid ≡ some e
      → w.has_room size ≡ false
      → Change w v (reserve_size sid bid size) (returns (reserved false)) v
  misses :
      (sid bid size : ℕ) (e : Entry)
      → v sid ≡ some e
      → e.files bid ≡ none
      → w.has_room size ≡ true
      → Change w v (reserve_size sid bid size) (throws map_at) v
  removes :
      (sid : ℕ) (ids : List ℕ) (e : Entry)
      → v sid ≡ some e
      → Change w v (remove_blobs sid ids) (returns done) (with_files sid e (without ids e.files) v)
  remove_fails :
      (sid : ℕ) (before : List ℕ) (bid : ℕ) (after : List ℕ) (e : Entry) (path : FilePath)
      → v sid ≡ some e
      → without before e.files bid ≡ some path
      → w.stands path ≡ true
      → Change w v
          (remove_blobs sid (before ++ bid ∷ after))
          (throws (filesystem_error path))
          (with_files sid e (without before e.files) v)
  closes :
      (sid : ℕ) (e : Entry)
      → v sid ≡ some e
      → Change w v (end_session sid) (returns done) (set sid none v)
  close_fails :
      (sid : ℕ) (before : List ℕ) (bid : ℕ) (e : Entry) (path : FilePath)
      → v sid ≡ some e
      → without before e.files bid ≡ some path
      → w.stands path ≡ true
      → Change w v
          (end_session sid)
          (throws (filesystem_error path))
          (with_files sid e (without before e.files) v)
  gone : (op : Op) (sid : ℕ) → session_of op ≡ some sid → v sid ≡ none → Change w v op undefined v
