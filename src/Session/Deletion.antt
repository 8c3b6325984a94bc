-- ===== src/Session/Deletion.antt =====
-- The outcomes of `delete_blob_file`, each with the state that it leaves.
use data_relay_grpc.Base.{ℕ, ◌≡◌, sym, ap, ◌∙◌, ◌⊎◌, inl, inr, none, some, Option-cases}
use data_relay_grpc.OrderedMap.{find, erase}
use data_relay_grpc.FileSystem.{FileSystem}
use data_relay_grpc.SessionStore.{remove as release}
use data_relay_grpc.Outcome.{Exception, Outcome, returns, throws, filesystem_error}
use data_relay_grpc.Session.{Blob, Context, delete_found, delete_blob_file, remove_if_exists}

-- the state after the entry and its file are gone
abbrev pub deleted : ℕ → Blob → FileSystem → Context → Context
deleted bid b fs c = record c {
  impl = record (c.impl) { blobs = erase bid c.blobs };
  store = release c.store b.size;
  file_system = fs;
}

-- the state after the removal of the file has failed
abbrev pub half_deleted : Blob → Context → Context
half_deleted b c = record c { store = release c.store b.size }

pub delete_blob_file_cases :
    (bid : ℕ) (c : Context)
    → ((find bid c.blobs ≡ none) × (delete_blob_file bid c ≡ (returns tt, c)))
      ⊎ (((b : Blob) × (fs : FileSystem) × (find bid c.blobs ≡ some b)
            × (remove_if_exists c.file_system b.path ≡ some fs)
            × (delete_blob_file bid c ≡ (returns tt, deleted bid b fs c)))
          ⊎ ((b : Blob) × (find bid c.blobs ≡ some b)
              × (remove_if_exists c.file_system b.path ≡ none)
              × (delete_blob_file bid c ≡ (throws (filesystem_error b.path), half_deleted b c))))
unfolding delete_blob_file
delete_blob_file_cases bid c = elim (Option-cases (find bid c.blobs)) [
  | inl absent ↦ inl (absent, rw (absent, delete_blob_file))
  | inr (b, e) ↦ elim (Option-cases (remove_if_exists c.file_system b.path)) [
    | inl failed ↦ inr (
        inr (
          b,
          e,
          failed,
          rw (e, delete_blob_file) (unfold delete_found in rw (failed, delete_found)),
        ))
    | inr (fs, done) ↦ inr (
        inl (
          b,
          fs,
          e,
          done,
          rw (e, delete_blob_file) (unfold delete_found in rw (done, delete_found)),
        ))
  ]
]

-- An induction rule for what a deletion that returns has done.
pub delete_blob_file_returns :
    (bid : ℕ) (c c' : Context)
    → delete_blob_file bid c ≡ (returns tt, c')
    → ((find bid c.blobs ≡ none) × (c' ≡ c))
      ⊎ ((b : Blob) × (fs : FileSystem) × (find bid c.blobs ≡ some b)
          × (remove_if_exists c.file_system b.path ≡ some fs)
          × (c' ≡ deleted bid b fs c))
delete_blob_file_returns bid c c' h = elim (delete_blob_file_cases bid c) [
  | inl (absent, e) ↦ inl (absent, ap state (sym h ∙ e))
  | inr (inl (b, fs, e, done, r)) ↦ inr (b, fs, e, done, ap state (sym h ∙ r))
  | inr (inr (b, e, failed, r)) ↦ cc
]
  where
    state : Outcome (Unit {0}) × Context → Context
    state r = r.1

pub delete_blob_file_throws :
    (bid : ℕ) (c c' : Context) {x : Exception}
    → delete_blob_file bid c ≡ (throws x, c')
    → (b : Blob) × (find bid c.blobs ≡ some b)
      × (remove_if_exists c.file_system b.path ≡ none)
      × (x ≡ filesystem_error b.path)
      × (c' ≡ half_deleted b c)
delete_blob_file_throws bid c c' {x} h = elim (delete_blob_file_cases bid c) [
  | inl (absent, e) ↦ cc
  | inr (inl (b, fs, e, done, r)) ↦ cc
  | inr (inr (b, e, failed, r)) ↦ (b, e, failed, cc, ap state (sym h ∙ r))
]
  where
    state : Outcome (Unit {0}) × Context → Context
    state r = r.1
