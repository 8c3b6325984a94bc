-- ===== src/Session/Accounting.antt =====
-- The usage counter of the session storage against what a session has reserved for its BLOBs.
use data_relay_grpc.Base.{
  ℕ, ◌+◌, ◌%◌, ◌≤◌, ◌<◌, ◌≡◌, ◌≢◌, inl, inr, Bool, none, some, arith, Option-cases, Bool-cases, ap,
}
use data_relay_grpc.OrderedMap.{emplace, erase, assign, AscendsFrom, find}
use data_relay_grpc.OrderedMap.Lookup.{emplace-AscendsFrom, erase-AscendsFrom, assign-AscendsFrom}
use data_relay_grpc.OrderedMap.Total.{total, total-emplace, total-erase, total-assign, le-total}
use data_relay_grpc.OrderedMap.Holds.{Holds, emplace-Holds, erase-Holds, assign-Holds}
use data_relay_grpc.Text.{Text}
use data_relay_grpc.FileSystem.{FilePath, FileSystem, exists}
use data_relay_grpc.SessionStore.{SessionStore, word, remove as release}
use data_relay_grpc.SessionStore.Usage.{reserve_lem, remove_lem}
use data_relay_grpc.Outcome.{returns}
use data_relay_grpc.Session.{
  Blob, Context, get_new_blob_id, add, create_blob_file, delete_blob_file, reserve_session_store,
}
use data_relay_grpc.Session.Deletion.{delete_blob_file_returns}

-- what the session has reserved
abbrev pub reserved : Context → ℕ
reserved c = total (λ (b : Blob). b.size) c.blobs

-- The counter, under a quota that is set, is what this session has reserved and what others have;
-- it is within the quota. BLOB ids are in order, and none is above the counter of ids.
pub record IsAccounted (others : ℕ) (c : Context) : Type 0 where
  pub set : c.store.quota ≢ 0
  pub small : c.store.quota < word
  pub exact : c.store.current_size ≡ others + reserved c
  pub within : c.store.current_size ≤ c.store.quota
  pub ordered : AscendsFrom 0 c.blobs
  pub numbered : Holds (λ id (_ : Blob). id ≤ c.blob_id) c.blobs

pub numbered_fresh :
    (c : Context) (k : ℕ)
    → Holds (λ id (_ : Blob). id ≤ c.blob_id) c.blobs
    → c.blob_id < k
    → find k c.blobs ≡ none
numbered_fresh c k h lt = elim (Option-cases (find k c.blobs)) [
  | inl absent ↦ absent
  | inr (b, there) ↦ absurd (omega (arith, h k b there))
]

-- An entry under a new id, with nothing reserved for it, keeps the books.
new_blob-IsAccounted :
    (others : ℕ) (c : Context) (path : FilePath)
    → c.blob_id + 1 < word
    → IsAccounted others c
    → IsAccounted others (record c {
      impl = record (c.impl) {
        blobs = emplace ((c.blob_id + 1) % word) (record { path = path; size = 0 }) c.blobs;
      };
      blob_id = (c.blob_id + 1) % word;
    })
new_blob-IsAccounted others c path fits a =
    let id : ℕ = (c.blob_id + 1) % word in
    let e : id ≡ c.blob_id + 1 = omega arith in
    let fresh = numbered_fresh c id a.numbered (omega arith) in
    record {
      set = a.set;
      small = a.small;
      exact = omega (
        arith,
        a.exact,
        total-emplace (λ (b : Blob). b.size) id (record { path = path; size = 0 }) c.blobs fresh,
      );
      within = a.within;
      ordered = emplace-AscendsFrom id 0 _ c.blobs (omega arith) a.ordered;
      numbered =
          emplace-Holds (λ i (_ : Blob). i ≤ id) id 0 _ c.blobs a.ordered fresh
            (λ j u f. omega (arith, a.numbered j u f)) (omega arith);
    }

-- So does a counter of ids that has moved on.
next_id-IsAccounted :
    (others : ℕ) (c : Context)
    → c.blob_id + 1 < word
    → IsAccounted others c
    → IsAccounted others (record c { blob_id = (c.blob_id + 1) % word })
next_id-IsAccounted others c fits a = record {
  set = a.set;
  small = a.small;
  exact = a.exact;
  within = a.within;
  ordered = a.ordered;
  numbered = λ j u f. omega (arith, a.numbered j u f);
}

-- So does an entry that goes with what is reserved for it.
erased-IsAccounted :
    (others : ℕ) (c : Context) (bid : ℕ) (b : Blob) (fs : FileSystem)
    → find bid c.blobs ≡ some b
    → IsAccounted others c
    → IsAccounted others (record c {
      impl = record (c.impl) { blobs = erase bid c.blobs };
      store = release c.store b.size;
      file_system = fs;
    })
erased-IsAccounted others c bid b fs e a =
    let size_of = λ (x : Blob). x.size in
    let gone = total-erase size_of bid b c.blobs e in
    let le : b.size ≤ c.store.current_size =
      omega (arith, le-total size_of bid b c.blobs e, a.exact) in
    rw (remove_lem c.store b.size a.set le (omega (arith, a.within, a.small))) (record {
      set = a.set;
      small = a.small;
      exact = omega (arith, gone, a.exact, le);
      within = omega (arith, a.within);
      ordered = erase-AscendsFrom bid 0 c.blobs a.ordered;
      numbered = erase-Holds (λ i (_ : Blob). i ≤ c.blob_id) bid 0 c.blobs a.ordered a.numbered;
    })

-- So does a reservation that is granted.
granted-IsAccounted :
    (others : ℕ) (c : Context) (bid size : ℕ) (b : Blob)
    → c.store.quota + size < word
    → c.store.current_size + size ≤ c.store.quota
    → find bid c.blobs ≡ some b
    → IsAccounted others c
    → IsAccounted others (record c {
      impl = record (c.impl) {
        blobs = assign bid (record b { size = (b.size + size) % word }) c.blobs;
      };
      store = record (c.store) { current_size = c.store.current_size + size };
    })
granted-IsAccounted others c bid size b fits room e a =
    let size_of = λ (x : Blob). x.size in
    let le : b.size ≤ c.store.current_size =
      omega (arith, le-total size_of bid b c.blobs e, a.exact) in
    let b' : Blob = record b { size = (b.size + size) % word } in
    record {
      set = a.set;
      small = a.small;
      exact = omega (arith, total-assign size_of bid b b' c.blobs e, a.exact, le, a.within);
      within = room;
      ordered = assign-AscendsFrom bid 0 b' c.blobs a.ordered;
      numbered =
          assign-Holds (λ i (_ : Blob). i ≤ c.blob_id) bid b' c.blobs a.numbered
            (a.numbered bid b e);
    }

-- An added file keeps the books of a session, whether its path exists or not, if the counter of
-- BLOB ids does not wrap.
pub add-IsAccounted :
    (others : ℕ) (c : Context) (path : FilePath)
    → c.blob_id + 1 < word
    → IsAccounted others c
    → IsAccounted others (add path c).1
unfolding add get_new_blob_id
add-IsAccounted others c path fits a = elim (Bool-cases (exists c.file_system path)) [
  | inl there ↦ rw there (new_blob-IsAccounted others c _ fits a)
  | inr absent ↦ rw absent (next_id-IsAccounted others c fits a)
]

-- A new BLOB file keeps the books of a session, if the counter of BLOB ids does not wrap.
pub create_blob_file-IsAccounted :
    (others : ℕ) (c : Context) (prefix : Text)
    → c.blob_id + 1 < word
    → IsAccounted others c
    → IsAccounted others (create_blob_file prefix c).1
unfolding create_blob_file get_new_blob_id
create_blob_file-IsAccounted others c prefix fits a = new_blob-IsAccounted others c _ fits a

-- The deletion of a BLOB keeps the books of a session, if it returns.
pub delete_blob_file-IsAccounted :
    (others : ℕ) (c c' : Context) (bid : ℕ)
    → IsAccounted others c
    → delete_blob_file bid c ≡ (returns tt, c')
    → IsAccounted others c'
delete_blob_file-IsAccounted others c c' bid a h = elim (delete_blob_file_returns bid c c' h) [
  | inl (absent, e) ↦ rw e a
  | inr (b, fs, there, done, e) ↦ rw e (erased-IsAccounted others c bid b fs there a)
]

-- `reserve_session_store` for a BLOB of the session, of a size that does not wrap the sum with the
-- quota, keeps the books, whatever it answers.
pub reserve_session_store-IsAccounted :
    (others : ℕ) (c : Context) (bid size : ℕ) (b : Blob)
    → c.store.quota + size < word
    → find bid c.blobs ≡ some b
    → IsAccounted others c
    → IsAccounted others (reserve_session_store bid size c).1
unfolding reserve_session_store
reserve_session_store-IsAccounted others c bid size b fits e a =
    elim (reserve_lem c.store size a.set fits a.within) [
      | inr (over, refused) ↦ rw (refused, reserve_session_store) a
      | inl (room, taken) ↦
          rw
            (
              e,
              ap (λ (r : Bool × SessionStore). r.0) taken,
              ap (λ (r : Bool × SessionStore). r.1) taken,
            )
            (granted-IsAccounted others c bid size b fits room e a)
    ]
