-- ===== src/Session/Evolution.antt =====
-- What every method of a session leaves alone, however it ends.
use data_relay_grpc.Base.{
  ℕ, ◌+◌, ◌%◌, ◌≤◌, ◌<◌, ◌≡◌, refl, ◌∙◌, ◌⊎◌, inl, inr, List, [], ◌∷◌, some, arith, ℕ_discrete,
  Option-cases, Bool-cases,
}
use data_relay_grpc.OrderedMap.{find, emplace, AscendsFrom}
use data_relay_grpc.OrderedMap.Lookup.{
  find-emplace, emplace-AscendsFrom, erase-AscendsFrom, assign-AscendsFrom,
}
use data_relay_grpc.OrderedMap.Holds.{find-erase_cases, find-assign_cases}
use data_relay_grpc.Text.{Text}
use data_relay_grpc.FileSystem.{FilePath, exists}
use data_relay_grpc.SessionStore.{SessionStore, word, reserve, remove as release}
use data_relay_grpc.Outcome.{for_each, after_keeps}
use data_relay_grpc.Session.{
  Blob, Context, get_new_blob_id, add, create_blob_file, delete_blob_file, reserve_session_store,
}
use data_relay_grpc.Session.Deletion.{delete_blob_file_cases}

pub record Evolves (c c' : Context) : Type 0 where
  pub ordered : AscendsFrom 0 c'.blobs
  pub same_session : c'.session_id ≡ c.session_id
  pub same_transaction : c'.transaction_id ≡ c.transaction_id
  pub same_quota : c'.store.quota ≡ c.store.quota
  pub same_directory : c'.store.directory ≡ c.store.directory
  pub grown : c.blob_id ≤ c'.blob_id
  pub fresh :
      (j : ℕ) (b : Blob)
      → find j c'.blobs ≡ some b
      → ((a : Blob) × (find j c.blobs ≡ some a)) ⊎ (c.blob_id < j)

pub Evolves-refl : (c : Context) → AscendsFrom 0 c.blobs → Evolves c c
Evolves-refl c a = record {
  ordered = a;
  same_session = refl;
  same_transaction = refl;
  same_quota = refl;
  same_directory = refl;
  grown = omega arith;
  fresh = λ j b e. inl (b, e);
}

pub Evolves-trans : {c d e : Context} → Evolves c d → Evolves d e → Evolves c e
Evolves-trans {c} {d} {e} x y = record {
  ordered = y.ordered;
  same_session = y.same_session ∙ x.same_session;
  same_transaction = y.same_transaction ∙ x.same_transaction;
  same_quota = y.same_quota ∙ x.same_quota;
  same_directory = y.same_directory ∙ x.same_directory;
  grown = omega (arith, x.grown, y.grown);
  fresh = fresh;
}
  where
    fresh :
        (j : ℕ) (b : Blob)
        → find j e.blobs ≡ some b
        → ((a : Blob) × (find j c.blobs ≡ some a)) ⊎ (c.blob_id < j)
    fresh j b h = elim (y.fresh j b h) [
      | inl (a, g) ↦ x.fresh j a g
      | inr lt ↦ inr (omega (arith, x.grown))
    ]

new_blob-Evolves :
    (c : Context) (path : FilePath)
    → c.blob_id + 1 < word
    → AscendsFrom 0 c.blobs
    → Evolves c (record c {
      impl = record (c.impl) {
        blobs = emplace ((c.blob_id + 1) % word) (record { path = path; size = 0 }) c.blobs;
      };
      blob_id = (c.blob_id + 1) % word;
    })
new_blob-Evolves c path fits a =
    let id : ℕ = (c.blob_id + 1) % word in
    let above : c.blob_id < id = omega arith in
    record {
      ordered = emplace-AscendsFrom id 0 _ c.blobs (omega arith) a;
      same_session = refl;
      same_transaction = refl;
      same_quota = refl;
      same_directory = refl;
      grown = omega arith;
      fresh = λ j b e. elim (ℕ_discrete id j) [
        | yes it ↦ inr (omega arith)
        | no other ↦
            inl
              (b, ground (arith, find-emplace j id 0 (record { path = path; size = 0 }) c.blobs a))
      ];
    }

pub delete_blob_file-Evolves :
    (c : Context) (bid : ℕ) → AscendsFrom 0 c.blobs → Evolves c (delete_blob_file bid c).1
unfolding release
delete_blob_file-Evolves c bid a = elim (delete_blob_file_cases bid c) [
  | inl (_, e) ↦ rw e (Evolves-refl c a)
  | inr (inl (b, fs, there, _, e)) ↦ rw e (record {
    ordered = erase-AscendsFrom bid 0 c.blobs a;
    same_session = refl;
    same_transaction = refl;
    same_quota = ground arith;
    same_directory = ground arith;
    grown = omega arith;
    fresh = λ j x h. inl (x, (find-erase_cases bid j 0 x c.blobs a h).1);
  })
  | inr (inr (b, there, _, e)) ↦ rw e (record {
    ordered = a;
    same_session = refl;
    same_transaction = refl;
    same_quota = ground arith;
    same_directory = ground arith;
    grown = omega arith;
    fresh = λ j x h. inl (x, h);
  })
]

next_id-Evolves :
    (c : Context)
    → c.blob_id + 1 < word
    → AscendsFrom 0 c.blobs
    → Evolves c (record c { blob_id = (c.blob_id + 1) % word })
next_id-Evolves c fits a = record {
  ordered = a;
  same_session = refl;
  same_transaction = refl;
  same_quota = refl;
  same_directory = refl;
  grown = omega arith;
  fresh = λ j b e. inl (b, e);
}

pub add-Evolves :
    (c : Context) (path : FilePath)
    → c.blob_id + 1 < word
    → AscendsFrom 0 c.blobs
    → Evolves c (add path c).1
unfolding add get_new_blob_id
add-Evolves c path fits a = elim (Bool-cases (exists c.file_system path)) [
  | inl there ↦ rw there (new_blob-Evolves c _ fits a)
  | inr absent ↦ rw absent (next_id-Evolves c fits a)
]

pub create_blob_file-Evolves :
    (c : Context) (prefix : Text)
    → c.blob_id + 1 < word
    → AscendsFrom 0 c.blobs
    → Evolves c (create_blob_file prefix c).1
unfolding create_blob_file get_new_blob_id
create_blob_file-Evolves c prefix fits a = new_blob-Evolves c _ fits a

reserve-same :
    (s : SessionStore) (size : ℕ)
    → ((reserve s size).1.quota ≡ s.quota) × ((reserve s size).1.directory ≡ s.directory)
unfolding reserve
reserve-same s size = ground arith

pub reserve_session_store-Evolves :
    (c : Context) (bid size : ℕ)
    → AscendsFrom 0 c.blobs
    → Evolves c (reserve_session_store bid size c).1
unfolding reserve_session_store
reserve_session_store-Evolves c bid size a = elim (Bool-cases (reserve c.store size).0) [
  | inr refused ↦ rw refused (Evolves-refl c a)
  | inl taken ↦ rw taken (elim (Option-cases (find bid c.blobs)) [
    | inl absent ↦ rw absent (record {
      ordered = a;
      same_session = refl;
      same_transaction = refl;
      same_quota = (reserve-same c.store size).0;
      same_directory = (reserve-same c.store size).1;
      grown = omega arith;
      fresh = λ j x h. inl (x, h);
    })
    | inr (b, there) ↦ rw there (record {
      ordered = assign-AscendsFrom bid 0 _ c.blobs a;
      same_session = refl;
      same_transaction = refl;
      same_quota = (reserve-same c.store size).0;
      same_directory = (reserve-same c.store size).1;
      grown = omega arith;
      fresh = λ j x h. elim (find-assign_cases bid j _ x c.blobs h) [
        | inl (it, _) ↦ inl (b, rw (← it) there)
        | inr (_, old) ↦ inl (x, old)
      ];
    })
  ])
]

pub for_each-Evolves :
    (ids : List ℕ) (c : Context)
    → AscendsFrom 0 c.blobs
    → Evolves c (for_each delete_blob_file ids c).1
unfolding for_each
for_each-Evolves [] c a = Evolves-refl c a
for_each-Evolves (k ∷ ks) c a =
    after_keeps (Evolves c) (delete_blob_file k c) (λ _. for_each delete_blob_file ks)
      (delete_blob_file-Evolves c k a)
      (λ _ g _ e. Evolves-trans e (for_each-Evolves ks g e.ordered))
