-- ===== src/FileSystem.antt =====
-- The part of `std::filesystem`, `std::ifstream` and `std::ofstream` that the server uses, over an
-- explicit state. A path is the list of its names, the last one first, so `dir / name` is
-- `name ∷ dir` and the parent of a path is its tail. What the operating system decides is part of
-- the state: how a path is resolved (links, relative names), and which files it lets the server
-- open for writing and remove. A write to an open file succeeds.
pub mod Laws
use data_relay_grpc.Base.{
  ℕ, suc, ◌≡◌, Bool, true, false, not, ◌&&◌, ◌||◌, List, [], ◌∷◌, ◌++◌, Option, none, some, ite,
  ℕ_discrete, length, if◌then◌else◌,
}
use data_relay_grpc.Text.{Text}

abbrev pub FilePath : Type 0
FilePath = List Text

unfoldable pub FilePath-discrete : Discrete FilePath
unfolding ℕ_discrete
FilePath-discrete = hlevel ℕ_discrete

-- `std::filesystem::perms`, as far as it is read
pub record Permissions : Type 0 where
  pub owner_write : Bool
  pub group_write : Bool
  pub others_write : Bool

pub data Node : Type 0 where
  regular : (content : List ℕ) → Node
  directory : Permissions → Node

pub record FileSystem : Type 0 where
  pub nodes : List (FilePath × Node)
  pub resolve : FilePath → FilePath
  pub can_open : FilePath → Bool
  pub can_remove : FilePath → Bool

abbrev pub is_some {ℓ} : {A : Type ℓ} → Option A → Bool
is_some none = false
is_some (some a) = true

unfoldable pub find_node : FilePath → List (FilePath × Node) → Option Node
find_node p [] = none
find_node p ((q, n) ∷ ns) = ite (FilePath-discrete q p) (some n) (find_node p ns)

unfoldable pub put_node : FilePath → Node → List (FilePath × Node) → List (FilePath × Node)
put_node p n [] = (p, n) ∷ []
put_node p n ((q, m) ∷ ns) = ite (FilePath-discrete q p) ((q, n) ∷ ns) ((q, m) ∷ put_node p n ns)

unfoldable pub erase_node : FilePath → List (FilePath × Node) → List (FilePath × Node)
erase_node p [] = []
erase_node p ((q, m) ∷ ns) =
    let rest = erase_node p ns in ite (FilePath-discrete q p) rest ((q, m) ∷ rest)

-- the entries of a directory: the nodes whose parent it is
unfoldable pub children : FilePath → List (FilePath × Node) → List FilePath
children d [] = []
children d (([], m) ∷ ns) = children d ns
children d ((name ∷ parent, m) ∷ ns) =
    let rest = children d ns in ite (FilePath-discrete parent d) ((name ∷ parent) ∷ rest) rest

-- `canonical`, of a path that exists
abbrev pub canonical : FileSystem → FilePath → FilePath
canonical fs p = fs.resolve p

unfoldable pub node : FileSystem → FilePath → Option Node
node fs p = find_node (fs.resolve p) fs.nodes

-- `exists`
unfoldable pub exists : FileSystem → FilePath → Bool
unfolding node
exists fs p = is_some (node fs p)

-- `directory_iterator`
unfoldable pub entries_of : FileSystem → FilePath → List FilePath
unfolding children
entries_of fs d = children (fs.resolve d) fs.nodes

-- `file_size`; `none` is its error on what is no regular file
abbrev pub size_of : Option Node → Option ℕ
size_of (some (regular bytes)) = some (length bytes)
size_of (some (directory _)) = none
size_of none = none

-- what an `ifstream` reads from the file, nothing if it cannot be opened
abbrev pub content_of : Option Node → List ℕ
content_of (some (regular bytes)) = bytes
content_of (some (directory _)) = []
content_of none = []

abbrev pub is_directory : Option Node → Bool
is_directory (some (directory _)) = true
is_directory (some (regular _)) = false
is_directory none = false

-- An `ofstream` on a path: the file is there and empty, or the stream is not open.
unfoldable pub open_output : FileSystem → FilePath → Option FileSystem
open_output fs p =
    if fs.can_open (fs.resolve p) && not (is_directory (node fs p))
    then some (record fs { nodes = put_node (fs.resolve p) (regular []) fs.nodes })
    else none

-- `write` on an open `ofstream`
unfoldable pub append_output : FileSystem → FilePath → List ℕ → FileSystem
append_output fs p bytes = record fs {
  nodes = put_node (fs.resolve p) (regular (content_of (node fs p) ++ bytes)) fs.nodes;
}

abbrev pub is_empty {ℓ} : {A : Type ℓ} → List A → Bool
is_empty [] = true
is_empty (x ∷ xs) = false

-- what `remove` may take away: a file, or a directory with no entries, if the system lets it
unfoldable pub is_removable : FileSystem → FilePath → Bool
is_removable fs p =
    fs.can_remove (fs.resolve p) && (not (is_directory (node fs p)) || is_empty (entries_of fs p))

-- `remove`, where it does not fail
unfoldable pub removed : FileSystem → FilePath → FileSystem
removed fs p = record fs { nodes = erase_node (fs.resolve p) fs.nodes }

-- `remove`: nothing happens to a path that does not exist; `none` is its error
unfoldable pub remove : FileSystem → FilePath → Option FileSystem
remove fs p =
    if exists fs p then (if is_removable fs p then some (removed fs p) else none) else some fs
