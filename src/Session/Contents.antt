-- ===== src/Session/Contents.antt =====
-- What a session holds, as its users see it: a path for each BLOB id, with no order and no sizes.
use data_relay_grpc.Base.{
  ℕ, true, ◌≡◌, refl, sym, ap, ◌∙◌, inl, inr, List, [], ◌∷◌, ◌++◌, Option, none, some, arith, ◌==◌,
  if◌then◌else◌, subst,
}
use data_relay_grpc.OrderedMap
use data_relay_grpc.OrderedMap.{emplace, erase, assign, AscendsFrom}
use data_relay_grpc.OrderedMap.Lookup.{find-emplace, find-erase, find-assign, erase-AscendsFrom}
use data_relay_grpc.FileSystem.{
  FilePath, FileSystem, is_some, find_node, exists, node, remove as remove_file,
}
use data_relay_grpc.FileSystem.Laws.{find_node-remove, remove-SameSystem}
use data_relay_grpc.Session.Disposal.{remove_if_exists-eq}
use data_relay_grpc.Session.{Blob, SessionImpl, Context, find, delete_blob_file, remove_if_exists}
use data_relay_grpc.Session.Deletion.{deleted, delete_blob_file_cases, delete_blob_file_returns}
use data_relay_grpc.Session.Evolution.{delete_blob_file-Evolves}
use data_relay_grpc.Outcome.{filesystem_error, Outcome, returns, throws, for_each, after_returns}

-- a function with one value replaced
abbrev pub set {ℓ} : {A : Type ℓ} → ℕ → A → (ℕ → A) → ℕ → A
set k a f j = if k == j then a else f j

-- a map without some of its keys
abbrev pub without {ℓ} : {A : Type ℓ} → List ℕ → (ℕ → Option A) → ℕ → Option A
without [] f = f
without (k ∷ ks) f = without ks (set k none f)

abbrev pub contents : SessionImpl → ℕ → Option FilePath
contents impl bid = find bid impl

pub emplace-contents :
    (impl : SessionImpl) (k : ℕ) (b : Blob)
    → AscendsFrom 0 impl.blobs
    → OrderedMap.find k impl.blobs ≡ none
    → contents (record impl { blobs = emplace k b impl.blobs })
      ≡ set k (some b.path) (contents impl)
unfolding find
emplace-contents impl k b a fresh = λ i j. at j i
  where
    at :
        (j : ℕ)
        → contents (record impl { blobs = emplace k b impl.blobs }) j
          ≡ set k (some b.path) (contents impl) j
    at j = ground (arith, find-emplace j k 0 b impl.blobs a)

pub erase-contents :
    (impl : SessionImpl) (k : ℕ)
    → AscendsFrom 0 impl.blobs
    → contents (record impl { blobs = erase k impl.blobs }) ≡ set k none (contents impl)
unfolding find
erase-contents impl k a = λ i j. at j i
  where
    at :
        (j : ℕ)
        → contents (record impl { blobs = erase k impl.blobs }) j ≡ set k none (contents impl) j
    at j = ground (arith, find-erase j k 0 impl.blobs a)

pub assign-contents :
    (impl : SessionImpl) (k : ℕ) (b b' : Blob)
    → OrderedMap.find k impl.blobs ≡ some b
    → b'.path ≡ b.path
    → contents (record impl { blobs = assign k b' impl.blobs }) ≡ contents impl
unfolding find
assign-contents impl k b b' there same = λ i j. at j i
  where
    at : (j : ℕ) → contents (record impl { blobs = assign k b' impl.blobs }) j ≡ contents impl j
    at j = ground (arith, find-assign j k b' impl.blobs)

absent-contents :
    (impl : SessionImpl) (k : ℕ)
    → OrderedMap.find k impl.blobs ≡ none
    → contents impl ≡ set k none (contents impl)
unfolding find
absent-contents impl k absent = λ i j. at j i
  where
    at : (j : ℕ) → contents impl j ≡ set k none (contents impl) j
    at j = ground arith

-- A deletion that returns leaves all but the BLOB.
delete-contents :
    (bid : ℕ) (c c' : Context)
    → AscendsFrom 0 c.blobs
    → delete_blob_file bid c ≡ (returns tt, c')
    → contents c'.impl ≡ set bid none (contents c.impl)
delete-contents bid c c' a e = elim (delete_blob_file_returns bid c c' e) [
  | inl (absent, at) ↦ ap (λ (d : Context). contents d.impl) at ∙ absent-contents c.impl bid absent
  | inr (b, fs, there, done, at) ↦
      ap (λ (d : Context). contents d.impl) at ∙ erase-contents c.impl bid a
]

-- A loop of deletions that returns leaves all but the BLOBs that it was given.
pub for_each-contents :
    (ids : List ℕ) (c c' : Context)
    → AscendsFrom 0 c.blobs
    → for_each delete_blob_file ids c ≡ (returns tt, c')
    → contents c'.impl ≡ without ids (contents c.impl)
unfolding for_each
for_each-contents [] c c' a e = ap (λ (r : Outcome (Unit {0}) × Context). contents r.1.impl) (sym e)
for_each-contents (k ∷ ks) c c' a e =
    let (u, d, first, rest) =
      after_returns (delete_blob_file k c) (λ _. for_each delete_blob_file ks) e in
    let order : AscendsFrom 0 d.blobs =
      subst (λ (r : Outcome (Unit {0}) × Context). AscendsFrom 0 r.1.blobs) first
        (delete_blob_file-Evolves c k a).ordered in
    for_each-contents ks d c' order rest ∙ ap (without ks) (delete-contents k c d a first)

stands_yet : (fs : FileSystem) (p : FilePath) → remove_if_exists fs p ≡ none → exists fs p ≡ true
unfolding remove_if_exists
stands_yet fs p failed = ground arith

-- What stands after a removal stood before it.
remove_if_exists-exists :
    (fs fs' : FileSystem) (p q : FilePath)
    → remove_if_exists fs p ≡ some fs'
    → exists fs' q ≡ true
    → exists fs q ≡ true
unfolding exists node
remove_if_exists-exists fs fs' p q e h =
    let gone : remove_file fs p ≡ some fs' = sym (remove_if_exists-eq fs p) ∙ e in
    let same : fs'.resolve q ≡ fs.resolve q =
      ap (λ f. f q) (remove-SameSystem fs fs' p gone).resolve in
    let stood : is_some (find_node (fs.resolve q) fs'.nodes) ≡ true =
      subst (λ x. is_some (find_node x fs'.nodes) ≡ true) same h in
    ground (arith, stood, find_node-remove fs fs' p (fs.resolve q) gone)

-- How a loop of deletions ends: it returns, or the removal of a file fails, and then it throws and
-- the BLOBs before that one are gone.
pub data Ends (ids : List ℕ) (c : Context) (r : Outcome (Unit {0}) × Context) : Type 0 where
  all_gone : r.0 ≡ returns tt → contents r.1.impl ≡ without ids (contents c.impl) → Ends ids c r
  stops_at :
      (before : List ℕ) (bid : ℕ) (after : List ℕ) (path : FilePath)
      → ids ≡ before ++ bid ∷ after
      → without before (contents c.impl) bid ≡ some path
      → exists c.file_system path ≡ true
      → r.0 ≡ throws (filesystem_error path)
      → contents r.1.impl ≡ without before (contents c.impl)
      → Ends ids c r

Ends-cons :
    (k : ℕ) (ks : List ℕ) (c d : Context)
    → contents d.impl ≡ set k none (contents c.impl)
    → ((q : FilePath) → exists d.file_system q ≡ true → exists c.file_system q ≡ true)
    → delete_blob_file k c ≡ (returns tt, d)
    → Ends ks d (for_each delete_blob_file ks d)
    → Ends (k ∷ ks) c (for_each delete_blob_file (k ∷ ks) c)
unfolding for_each
Ends-cons k ks c d is stood first (all_gone e at) = rw first (all_gone e (at ∙ ap (without ks) is))
Ends-cons k ks c d is stood first (stops_at before bid after path split there stands e at) =
    rw first (
      stops_at (k ∷ before) bid after path (ap (λ xs. k ∷ xs) split)
        (ap (λ f. without before f bid) (sym is) ∙ there) (stood path stands) e
        (at ∙ ap (without before) is))

pub for_each-Ends :
    (ids : List ℕ) (c : Context)
    → AscendsFrom 0 c.blobs
    → Ends ids c (for_each delete_blob_file ids c)
unfolding for_each find
for_each-Ends [] c a = all_gone refl refl
for_each-Ends (k ∷ ks) c a = elim (delete_blob_file_cases k c) [
  | inl (absent, first) ↦
      Ends-cons k ks c c (absent-contents c.impl k absent) (λ q h. h) first (for_each-Ends ks c a)
  | inr (inl (b, fs, there, done, first)) ↦
      Ends-cons k ks c (deleted k b fs c) (erase-contents c.impl k a)
        (λ q. remove_if_exists-exists c.file_system fs b.path q done) first
        (for_each-Ends ks (deleted k b fs c) (erase-AscendsFrom k 0 c.blobs a))
  | inr (inr (b, there, failed, first)) ↦
      let has : contents c.impl k ≡ some b.path = ground (arith, there) in
      rw first (stops_at [] k ks b.path refl has (stands_yet c.file_system b.path failed) refl refl)
]
