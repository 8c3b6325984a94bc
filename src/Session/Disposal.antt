-- ===== src/Session/Disposal.antt =====
-- What a loop over `delete_blob_file` leaves, in `dispose` and in `blob_session::remove`.
use data_relay_grpc.Base.{
  ℕ, ◌≡◌, ◌≢◌, refl, sym, ap, ◌∙◌, ◌⊎◌, inl, inr, List, [], ◌∷◌, Option, none, some, arith,
  ℕ_discrete, All, All-map, Option-cases, subst,
}
use data_relay_grpc.OrderedMap.{find, AscendsFrom}
use data_relay_grpc.OrderedMap.Lookup.{find-erase, erase-AscendsFrom}
use data_relay_grpc.FileSystem.{FilePath, Node, FileSystem, find_node, remove as remove_file}
use data_relay_grpc.FileSystem.Laws.{find_node-remove, SameSystem, remove-SameSystem}
use data_relay_grpc.SessionStore.{remove as release}
use data_relay_grpc.Outcome.{Outcome, returns, for_each, for_each_cons}
use data_relay_grpc.Session.{Blob, Context, delete_blob_file, remove_if_exists}
use data_relay_grpc.Session.Deletion.{deleted, delete_blob_file_returns}

pub remove_if_exists-eq :
    (fs : FileSystem) (p : FilePath) → remove_if_exists fs p ≡ remove_file fs p
unfolding remove_if_exists remove_file
remove_if_exists-eq fs p = ground arith

-- The file of a BLOB, where the context resolves its path.
abbrev pub place : Context → Blob → FilePath
place c b = c.file_system.resolve b.path

abbrev pub file : Context → FilePath → Option Node
file c q = find_node q c.file_system.nodes

-- What the deletion of the BLOBs `ids` of `c` has done, seen from `c'`.
pub record Deleted (ids : List ℕ) (c c' : Context) : Type 0 where
  pub ordered : AscendsFrom 0 c'.blobs
  pub old : (j : ℕ) (b : Blob) → find j c'.blobs ≡ some b → find j c.blobs ≡ some b
  pub kept : (j : ℕ) → All (λ k. k ≢ j) ids → find j c'.blobs ≡ find j c.blobs
  pub gone : All (λ k. find k c'.blobs ≡ none) ids
  pub cleared : All (λ k. (b : Blob) → find k c.blobs ≡ some b → file c' (place c b) ≡ none) ids
  pub shrunk : (q : FilePath) → file c q ≡ none → file c' q ≡ none
  pub fades : (q : FilePath) → (file c' q ≡ none) ⊎ (file c' q ≡ file c q)
  pub untouched :
      (q : FilePath)
      → All (λ k. (b : Blob) → find k c.blobs ≡ some b → place c b ≢ q) ids
      → file c' q ≡ file c q
  pub system : SameSystem c.file_system c'.file_system
  pub same_quota : c'.store.quota ≡ c.store.quota
  pub same_directory : c'.store.directory ≡ c.store.directory
  pub same_blob_id : c'.blob_id ≡ c.blob_id
  pub same_session : c'.session_id ≡ c.session_id
  pub same_transaction : c'.transaction_id ≡ c.transaction_id

SameSystem-refl : (fs : FileSystem) → SameSystem fs fs
SameSystem-refl fs = record { resolve = refl; can_open = refl; can_remove = refl }

SameSystem-trans : {fs gs hs : FileSystem} → SameSystem fs gs → SameSystem gs hs → SameSystem fs hs
SameSystem-trans s t = record {
  resolve = t.resolve ∙ s.resolve;
  can_open = t.can_open ∙ s.can_open;
  can_remove = t.can_remove ∙ s.can_remove;
}

Deleted-absent :
    (k : ℕ) (c : Context) → AscendsFrom 0 c.blobs → find k c.blobs ≡ none → Deleted (k ∷ []) c c
Deleted-absent k c a e = record {
  ordered = a;
  old = λ j b h. h;
  kept = λ j h. refl;
  gone = (e, tt);
  cleared = ((λ b h. cc), tt);
  shrunk = λ q h. h;
  fades = λ q. inr refl;
  untouched = λ q h. refl;
  system = SameSystem-refl c.file_system;
  same_quota = refl;
  same_directory = refl;
  same_blob_id = refl;
  same_session = refl;
  same_transaction = refl;
}

Deleted-found :
    (k : ℕ) (c : Context) (b : Blob) (fs : FileSystem)
    → AscendsFrom 0 c.blobs
    → find k c.blobs ≡ some b
    → remove_file c.file_system b.path ≡ some fs
    → Deleted (k ∷ []) c (deleted k b fs c)
unfolding release
Deleted-found k c b fs a e r = record {
  ordered = erase-AscendsFrom k 0 c.blobs a;
  old = λ j x h. ground (arith, find-erase j k 0 c.blobs a);
  kept = λ j h. ground (arith, find-erase j k 0 c.blobs a);
  gone = (ground (arith, find-erase k k 0 c.blobs a), tt);
  cleared = ((λ x h. ground (arith, find_node-remove c.file_system fs b.path (place c x) r)), tt);
  shrunk = λ q h. ground (arith, find_node-remove c.file_system fs b.path q r);
  fades = λ q. ground (arith, find_node-remove c.file_system fs b.path q r);
  untouched = λ q h. ground (arith, find_node-remove c.file_system fs b.path q r, h.0 b e);
  system = remove-SameSystem c.file_system fs b.path r;
  same_quota = ground arith;
  same_directory = ground arith;
  same_blob_id = refl;
  same_session = refl;
  same_transaction = refl;
}

Deleted-cons :
    (k : ℕ) (ks : List ℕ) (c g c' : Context)
    → Deleted (k ∷ []) c g
    → Deleted ks g c'
    → Deleted (k ∷ ks) c c'
Deleted-cons k ks c g c' one rest = record {
  ordered = rest.ordered;
  old = λ j b h. one.old j b (rest.old j b h);
  kept = λ j h. rest.kept j h.1 ∙ one.kept j (h.0, tt);
  gone = (gone_first, rest.gone);
  cleared = (
    (λ b h. rest.shrunk (place c b) (one.cleared.0 b h)),
    All-map _ _ cleared_later ks rest.cleared,
  );
  shrunk = λ q h. rest.shrunk q (one.shrunk q h);
  fades = λ q. ground (arith, one.fades q, rest.fades q);
  untouched = λ q h.
      rest.untouched q (All-map _ _ (λ j f b e. untouched_later q j f b e) ks h.1)
      ∙ one.untouched q (h.0, tt);
  system = SameSystem-trans one.system rest.system;
  same_quota = rest.same_quota ∙ one.same_quota;
  same_directory = rest.same_directory ∙ one.same_directory;
  same_blob_id = rest.same_blob_id ∙ one.same_blob_id;
  same_session = rest.same_session ∙ one.same_session;
  same_transaction = rest.same_transaction ∙ one.same_transaction;
}
  where
    gone_first : find k c'.blobs ≡ none
    gone_first = elim (Option-cases (find k c'.blobs)) [
      | inl absent ↦ absent
      | inr (b, h) ↦ cc (rest.old k b h, one.gone.0)
    ]

    same_place : (b : Blob) → place g b ≡ place c b
    same_place b = ap (λ (f : FilePath → FilePath). f b.path) one.system.resolve

    untouched_later :
        (q : FilePath) (j : ℕ)
        → ((b : Blob) → find j c.blobs ≡ some b → place c b ≢ q)
        → (b : Blob) → find j g.blobs ≡ some b
        → place g b ≢ q
    untouched_later q j f b e = rw (same_place b) (f b (one.old j b e))

    cleared_later :
        (j : ℕ)
        → ((b : Blob) → find j g.blobs ≡ some b → file c' (place g b) ≡ none)
        → (b : Blob) → find j c.blobs ≡ some b
        → file c' (place c b) ≡ none
    cleared_later j f b e = elim (ℕ_discrete k j) [
      | yes same ↦ rest.shrunk (place c b) (one.cleared.0 b (rw same e))
      | no other ↦ rw (← same_place b) (f b (one.kept j (other, tt) ∙ e))
    ]

pub delete-Deleted :
    (k : ℕ) (c c' : Context)
    → AscendsFrom 0 c.blobs
    → delete_blob_file k c ≡ (returns tt, c')
    → Deleted (k ∷ []) c c'
delete-Deleted k c c' a h = elim (delete_blob_file_returns k c c' h) [
  | inl (absent, e) ↦ rw e (Deleted-absent k c a absent)
  | inr (b, fs, there, done, e) ↦
      rw e (Deleted-found k c b fs a there (sym (remove_if_exists-eq c.file_system b.path) ∙ done))
]

-- A loop over `delete_blob_file` that returns has deleted its BLOBs and their files, no others.
pub for_each-Deleted :
    (ids : List ℕ) (c c' : Context)
    → AscendsFrom 0 c.blobs
    → for_each delete_blob_file ids c ≡ (returns tt, c')
    → Deleted ids c c'
unfolding for_each
for_each-Deleted [] c c' a h =
    subst (Deleted [] c) (ap (λ (r : Outcome (Unit {0}) × Context). r.1) h) (record {
      ordered = a;
      old = λ j b e. e;
      kept = λ j e. refl;
      gone = tt;
      cleared = tt;
      shrunk = λ q e. e;
      fades = λ q. inr refl;
      untouched = λ q e. refl;
      system = SameSystem-refl c.file_system;
      same_quota = refl;
      same_directory = refl;
      same_blob_id = refl;
      same_session = refl;
      same_transaction = refl;
    })
for_each-Deleted (k ∷ ks) c c' a h =
    let (g, first, rest) = for_each_cons delete_blob_file k ks c c' h in
    let one = delete-Deleted k c g a first in
    Deleted-cons k ks c g c' one (for_each-Deleted ks g c' one.ordered rest)
