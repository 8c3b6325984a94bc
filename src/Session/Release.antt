-- ===== src/Session/Release.antt =====
-- The whole of what `dispose` and `blob_session::remove` release: entries, usage and files.
use data_relay_grpc.Base.{
  ℕ, ◌≡◌, ◌≢◌, refl, ap, inl, inr, true, false, List, [], ◌∷◌, none, some, arith, All-of,
  Option-cases, subst,
}
use data_relay_grpc.OrderedMap.{find, keys, AscendsFrom}
use data_relay_grpc.OrderedMap.Holds.{Holds, All-keys_find, eq-nil_of_find}
use data_relay_grpc.OrderedMap.Total.{total}
use data_relay_grpc.FileSystem.{
  FilePath, FileSystem, is_directory, remove as remove_file, is_removable, node,
}
use data_relay_grpc.Outcome.{Outcome, returns, for_each, for_each_cons}
use data_relay_grpc.Session.{Blob, Context, delete_blob_file, delete_entries, entries}
use data_relay_grpc.Session.Deletion.{delete_blob_file_cases}
use data_relay_grpc.Session.Accounting.{IsAccounted, delete_blob_file-IsAccounted}
use data_relay_grpc.Session.Disposal.{
  Deleted, delete-Deleted, for_each-Deleted, place, file, remove_if_exists-eq,
}

pub for_each-IsAccounted :
    (others : ℕ) (ids : List ℕ) (c c' : Context)
    → IsAccounted others c
    → for_each delete_blob_file ids c ≡ (returns tt, c')
    → IsAccounted others c'
unfolding for_each
for_each-IsAccounted others [] c c' a h =
    subst (IsAccounted others) (ap (λ (r : Outcome (Unit {0}) × Context). r.1) h) a
for_each-IsAccounted others (k ∷ ks) c c' a h =
    let (g, first, rest) = for_each_cons delete_blob_file k ks c c' h in
    for_each-IsAccounted others ks g c' (delete_blob_file-IsAccounted others c g k a first) rest

-- The loop of `dispose`, where it returns and the books were in order, has removed every entry and
-- every file of the session, has given back all that the session had reserved, and has touched no
-- other file.
pub delete_entries_releases :
    (others : ℕ) (c c' : Context)
    → IsAccounted others c
    → delete_entries c ≡ (returns tt, c')
    → (c'.blobs ≡ [])
      × (c'.store.current_size ≡ others)
      × ((j : ℕ) (b : Blob) → find j c.blobs ≡ some b → file c' (place c b) ≡ none)
      × ((q : FilePath)
          → ((j : ℕ) (b : Blob) → find j c.blobs ≡ some b → place c b ≢ q)
          → file c' q ≡ file c q)
unfolding delete_entries entries total
delete_entries_releases others c c' a h =
    let d = for_each-Deleted (keys c.blobs) c c' a.ordered h in
    let a' = for_each-IsAccounted others (keys c.blobs) c c' a h in
    let empty : c'.blobs ≡ [] = eq-nil_of_find c'.blobs λ j. elim (Option-cases (find j c'.blobs)) [
      | inl absent ↦ absent
      | inr (b, e) ↦ All-keys_find (λ k. find k c'.blobs ≡ none) c.blobs j b d.gone (d.old j b e)
    ] in
    (
      empty,
      omega (arith, a'.exact, ap (total (λ (b : Blob). b.size)) empty),
      (λ j b e.
          All-keys_find (λ k. (x : Blob) → find k c.blobs ≡ some x → file c' (place c x) ≡ none)
            c.blobs j b d.cleared e b e),
      (λ q h. d.untouched q (All-of _ (λ k. h k) (keys c.blobs))),
    )

-- The system lets the file of a BLOB go.
abbrev pub IsPlain : Context → Blob → Type 0
IsPlain c b =
    (c.file_system.can_remove (place c b) ≡ true) × (is_directory (file c (place c b)) ≡ false)

remove_plain :
    (fs : FileSystem) (p : FilePath)
    → fs.can_remove (fs.resolve p) ≡ true
    → is_directory (node fs p) ≡ false
    → (fs' : FileSystem) × (remove_file fs p ≡ some fs')
unfolding remove_file is_removable
remove_plain fs p may plain = elim (Option-cases (remove_file fs p)) [
  | inr (fs', e) ↦ (fs', e)
  | inl e ↦ absurd (ground arith)
]

IsPlain-Deleted :
    (ids : List ℕ) (c g : Context) (j : ℕ) (b : Blob) → Deleted ids c g → IsPlain c b → IsPlain g b
IsPlain-Deleted ids c g j b d h =
    let same : place g b ≡ place c b =
      ap (λ (f : FilePath → FilePath). f b.path) d.system.resolve in
    rw (same, d.system.can_remove) (h.0, plain)
  where
    plain : is_directory (file g (place c b)) ≡ false
    plain = elim (d.fades (place c b)) [ inl e ↦ rw e | inr e ↦ rw e h.1 ]

delete_total :
    (k : ℕ) (c : Context)
    → Holds (λ _ b. IsPlain c b) c.blobs
    → (c' : Context) × (delete_blob_file k c ≡ (returns tt, c'))
unfolding node
delete_total k c h = elim (delete_blob_file_cases k c) [
  | inl (_, e) ↦ (c, e)
  | inr (inl (b, fs, _, _, e)) ↦ (_, e)
  | inr (inr (b, there, failed, _)) ↦
      let (fs, done) = remove_plain c.file_system b.path (h k b there).0 (h k b there).1 in
      absurd (cc (remove_if_exists-eq c.file_system b.path, done, failed))
]

for_each_total :
    (ids : List ℕ) (c : Context)
    → AscendsFrom 0 c.blobs
    → Holds (λ _ b. IsPlain c b) c.blobs
    → (c' : Context) × (for_each delete_blob_file ids c ≡ (returns tt, c'))
unfolding for_each
for_each_total [] c a h = (c, refl)
for_each_total (k ∷ ks) c a h =
    let (g, e) = delete_total k c h in
    let d = delete-Deleted k c g a e in
    let (c', rest) =
      for_each_total ks g d.ordered
        (λ j b f. IsPlain-Deleted (k ∷ []) c g j b d (h j b (d.old j b f))) in
    (c', rw (e, for_each) rest)

-- The loop of `dispose` does return, if the system lets every file of the session go and no path
-- of it is a directory.
pub delete_entries_total :
    (c : Context)
    → AscendsFrom 0 c.blobs
    → Holds (λ _ b. IsPlain c b) c.blobs
    → (c' : Context) × (delete_entries c ≡ (returns tt, c'))
unfolding delete_entries
delete_entries_total c a h = for_each_total (entries c.impl) c a h
