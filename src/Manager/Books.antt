-- ===== src/Manager/Books.antt =====
-- The usage counter against what all sessions together have reserved, and BLOB ids that no two
-- sessions share.
use data_relay_grpc.Base.{ℕ, ◌+◌, ◌≤◌, ◌<◌, ◌≡◌, ◌≢◌, sym, ◌∙◌, inl, inr, some, arith}
use data_relay_grpc.OrderedMap.{find, erase, AscendsFrom}
use data_relay_grpc.OrderedMap.Total.{total, total-erase, total-assign}
use data_relay_grpc.OrderedMap.Holds.{Holds, assign-Holds, find-assign_cases}
use data_relay_grpc.SessionStore.{word}
use data_relay_grpc.Session.{Blob, SessionImpl, Context}
use data_relay_grpc.Session.Accounting.{IsAccounted}
use data_relay_grpc.Session.Evolution.{Evolves}
use data_relay_grpc.Manager.{Manager, Server, context, absorb}

-- what a session has reserved
abbrev pub weight : SessionImpl → ℕ
weight impl = total (λ (b : Blob). b.size) impl.blobs

-- Entries of a session are in order of their ids, and none is above the counter of BLOB ids.
abbrev pub IsNumbered : ℕ → SessionImpl → Type 0
IsNumbered blob_id impl =
    AscendsFrom 0 impl.blobs × Holds (λ id (_ : Blob). id ≤ blob_id) impl.blobs

-- The usage counter is the sum of all that is reserved, and `lost` more that no BLOB stands for.
pub record IsBooked (lost : ℕ) (m : Manager) : Type 0 where
  pub set : m.store.quota ≢ 0
  pub small : m.store.quota < word
  pub exact : m.store.current_size ≡ total weight m.blob_sessions + lost
  pub within : m.store.current_size ≤ m.store.quota
  pub numbered : Holds (λ _ impl. IsNumbered m.blob_id impl) m.blob_sessions
  pub disjoint :
      (id sid other : ℕ) (impl impl' : SessionImpl) (b b' : Blob)
      → find sid m.blob_sessions ≡ some impl
      → find other m.blob_sessions ≡ some impl'
      → find id impl.blobs ≡ some b
      → find id impl'.blobs ≡ some b'
      → sid ≡ other

-- what the other sessions have reserved
abbrev pub others : ℕ → Manager → ℕ
others sid m = total weight (erase sid m.blob_sessions)

-- The books of the manager are books of each session.
pub IsBooked-IsAccounted :
    {lost : ℕ} (s : Server) (sid : ℕ) (impl : SessionImpl)
    → find sid s.blob_sessions ≡ some impl
    → IsBooked lost s.manager
    → IsAccounted (others sid s.manager + lost) (context s impl)
IsBooked-IsAccounted s sid impl there k = record {
  set = k.set;
  small = k.small;
  exact = omega (arith, k.exact, total-erase weight sid impl s.blob_sessions there);
  within = k.within;
  ordered = (k.numbered sid impl there).0;
  numbered = (k.numbered sid impl there).1;
}

module _ {lost : ℕ} (s : Server) (sid : ℕ) (impl : SessionImpl) (c : Context) where
  absorb-disjoint :
      find sid s.blob_sessions ≡ some impl
      → IsBooked lost s.manager
      → Evolves (context s impl) c
      → (id other : ℕ) (i : SessionImpl) (b b' : Blob) → find other s.blob_sessions ≡ some i
      → find id c.blobs ≡ some b
      → find id i.blobs ≡ some b'
      → sid ≡ other
  absorb-disjoint there k v id other i b b' at e f = elim (v.fresh id b e) [
    | inl (a, g) ↦ k.disjoint id sid other impl i a b' there at g f
    | inr lt ↦ absurd (omega (arith, (k.numbered other i at).1 id b' f))
  ]

  -- A session that has kept its own books has kept the books of the manager.
  pub absorb-IsBooked :
      {lost' : ℕ}
      → find sid s.blob_sessions ≡ some impl
      → IsBooked lost s.manager
      → Evolves (context s impl) c
      → IsAccounted (others sid s.manager + lost') c
      → IsBooked lost' (absorb sid s c).manager
  absorb-IsBooked there k v a = record {
    set = a.set;
    small = a.small;
    exact = omega (
      arith,
      a.exact,
      total-erase weight sid impl s.blob_sessions there,
      total-assign weight sid impl c.impl s.blob_sessions there,
    );
    within = a.within;
    numbered =
        assign-Holds (λ _ i. IsNumbered c.blob_id i) sid c.impl s.blob_sessions
          (λ j u f.
            ((k.numbered j u f).0, (λ id b e. omega (arith, (k.numbered j u f).1 id b e, v.grown))))
          (a.ordered, a.numbered);
    disjoint = λ id p q i i' b b' f g e h.
        elim (find-assign_cases sid p c.impl i s.blob_sessions f) [
          | inl (pe, ie) ↦ elim (find-assign_cases sid q c.impl i' s.blob_sessions g) [
            | inl (qe, ie') ↦ sym pe ∙ qe
            | inr (_, old') ↦ sym pe ∙ absorb-disjoint there k v id q i' b b' old' (rw ie e) h
          ]
          | inr (_, old) ↦ elim (find-assign_cases sid q c.impl i' s.blob_sessions g) [
            | inl (qe, ie') ↦ sym (absorb-disjoint there k v id p i b' b old (rw ie' h) e) ∙ qe
            | inr (_, old') ↦ k.disjoint id p q i i' b b' old old' e h
          ]
        ];
  }
