-- ===== src/Session/Leaks.antt =====
-- Two paths on which the usage counter of the session storage and what is reserved part for good.
use data_relay_grpc.Base.{ℕ, ◌+◌, ◌≤◌, ◌<◌, ◌≡◌, refl, inl, inr, Bool, none, some, arith, ap}
use data_relay_grpc.OrderedMap.{find}
use data_relay_grpc.OrderedMap.Total.{le-total}
use data_relay_grpc.SessionStore.{SessionStore, word}
use data_relay_grpc.SessionStore.Usage.{reserve_lem, remove_lem}
use data_relay_grpc.Outcome.{Exception, map_at, throws}
use data_relay_grpc.Session.{Blob, Context, delete_blob_file, reserve_session_store}
use data_relay_grpc.Session.Deletion.{delete_blob_file_throws}
use data_relay_grpc.Session.Accounting.{IsAccounted, reserved}

-- Where the BLOB is gone when its next chunk comes, and the chunk is not empty and fits in the
-- quota, `reserve_session_store` throws after it has taken the size: the counter then says more,
-- by that size, than is reserved.
pub reserve_session_store_leaks :
    (others : ℕ) (c : Context) (bid size : ℕ)
    → c.store.quota + size < word
    → c.store.current_size + size ≤ c.store.quota
    → 0 < size
    → find bid c.blobs ≡ none
    → IsAccounted others c
    → ((reserve_session_store bid size c).0 ≡ throws map_at)
      × ((reserve_session_store bid size c).1.store.current_size
          ≡ others + reserved (reserve_session_store bid size c).1 + size)
unfolding reserve_session_store
reserve_session_store_leaks others c bid size fits room pos absent a =
    elim (reserve_lem c.store size a.set fits a.within) [
      | inr (over, refused) ↦ absurd (omega arith)
      | inl (_, taken) ↦
          rw
            (
              absent,
              ap (λ (r : Bool × SessionStore). r.0) taken,
              ap (λ (r : Bool × SessionStore). r.1) taken,
            )
            (refl, omega (arith, a.exact))
    ]

-- A reservation that is granted, for a BLOB that is gone, keeps the books but for its size.
pub granted_gone-IsAccounted :
    (others lost : ℕ) (c : Context) (bid size : ℕ)
    → c.store.quota + size < word
    → c.store.current_size + size ≤ c.store.quota
    → find bid c.blobs ≡ none
    → IsAccounted (others + lost) c
    → IsAccounted (others + (lost + size)) (reserve_session_store bid size c).1
unfolding reserve_session_store
granted_gone-IsAccounted others lost c bid size fits room absent a =
    elim (reserve_lem c.store size a.set fits a.within) [
      | inr (over, refused) ↦ absurd (omega arith)
      | inl (_, taken) ↦
          rw
            (
              absent,
              ap (λ (r : Bool × SessionStore). r.0) taken,
              ap (λ (r : Bool × SessionStore). r.1) taken,
            )
            (record {
              set = a.set;
              small = a.small;
              exact = omega (arith, a.exact);
              within = room;
              ordered = a.ordered;
              numbered = a.numbered;
            })
    ]

-- Where `delete_blob_file` throws for a BLOB of a session whose books are in order, it has given
-- the size back before: the entry stays, with its size, and the counter says less, by that size,
-- than is reserved.
pub delete_blob_file_drifts :
    (others : ℕ) (c c' : Context) (bid : ℕ) (b : Blob) (x : Exception)
    → find bid c.blobs ≡ some b
    → IsAccounted others c
    → delete_blob_file bid c ≡ (throws x, c')
    → (find bid c'.blobs ≡ some b) × (c'.store.current_size + b.size ≡ others + reserved c')
delete_blob_file_drifts others c c' bid b x e a h =
    let (b', there, _, _, after) = delete_blob_file_throws bid c c' h in
    let same : b ≡ b' = cc in
    let size_of = λ (y : Blob). y.size in
    let le : b.size ≤ c.store.current_size =
      omega (arith, le-total size_of bid b c.blobs e, a.exact) in
    rw (after, ← same, remove_lem c.store b.size a.set le (omega (arith, a.within, a.small)))
      (e, omega (arith, a.exact))
