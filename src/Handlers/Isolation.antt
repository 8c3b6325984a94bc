-- ===== src/Handlers/Isolation.antt =====
-- No two handlers work on the same BLOB or the same file.
use data_relay_grpc.Base.{
  ℕ, ◌≡◌, ◌≢◌, refl, sym, ◌∙◌, ◌⊎◌, inl, inr, List, [], ◌∷◌, Option, none, some, arith, Bool-cases,
  subst,
}
use data_relay_grpc.OrderedMap.{find}
use data_relay_grpc.OrderedMap.Holds.{find-assign_cases}
use data_relay_grpc.Text.{text}
use data_relay_grpc.FileSystem.{FilePath}
use data_relay_grpc.TagGenerator.{OpenSsl}
use data_relay_grpc.SessionStore.{SessionStore}
use data_relay_grpc.SessionStore.Usage.{create_blob_file-injective}
use data_relay_grpc.Manager.{Server}
use data_relay_grpc.Manager.History.{IsSound}
use data_relay_grpc.Manager.Growth.{Grows, Step-Grows}
use data_relay_grpc.Relay.{PutStreamingRequest, metadata, chunk, not_set, check_api_version}
use data_relay_grpc.Handlers.{
  Phase, starting, creating, opening, reading, writing, exhausting, discarding, tagging, ended,
  thrown, crashed, accept, step,
}
use data_relay_grpc.Handlers.System.{
  System, IsFitting, advanced, arrives, advances, calls, Reach, here, next,
}
use data_relay_grpc.Handlers.Sharing.{Reach-IsKept}
use data_relay_grpc.Handlers.Apart.{
  upload_file, Owns, IsNamed, IsNamed-Owns, IsNamed-moves, Owns-moves,
}
use data_relay_grpc.Handlers.Passing.{step-Grows, step-Passes}

-- the BLOB that a handler works on
abbrev pub blob_of : Phase → Option ℕ
blob_of (opening m rs bid path) = some bid
blob_of (reading m rs bid path total) = some bid
blob_of (writing m rs bid path total bytes) = some bid
blob_of (exhausting m bid) = some bid
blob_of (tagging m bid) = some bid
blob_of _ = none

-- the file that a handler opens, writes or removes by its path
abbrev pub file_of : Phase → Option FilePath
file_of (opening m rs bid path) = some path
file_of (reading m rs bid path total) = some path
file_of (writing m rs bid path total bytes) = some path
file_of (discarding path) = some path
file_of _ = none

accept_free :
    (rs : List PutStreamingRequest) (st : SessionStore) (n : ℕ)
    → IsNamed st n (accept rs) × ((b : ℕ) → Owns st b (accept rs) → ⊥)
unfolding accept
accept_free [] st n = (tt, (λ b w. w))
accept_free (chunk bytes ∷ rs) st n = (tt, (λ b w. w))
accept_free (not_set ∷ rs) st n = (tt, (λ b w. w))
accept_free (metadata m ∷ rs) st n = elim (Bool-cases (check_api_version m.api_version)) [
  | inl old ↦ rw old (tt, (λ b w. w))
  | inr new ↦ rw new (tt, (λ b w. w))
]

pub find-cons_cases :
    (i j : ℕ) (p q : Phase) (m : List (ℕ × Phase))
    → find j ((i, p) ∷ m) ≡ some q
    → ((i ≡ j) × (p ≡ q)) ⊎ ((i ≢ j) × (find j m ≡ some q))
unfolding find
find-cons_cases i j p q m e = ground arith

pub record IsApart (y : System) : Type 0 where
  pub named :
      (i : ℕ) (p : Phase) → find i y.handlers ≡ some p → IsNamed y.server.store y.server.blob_id p
  pub apart :
      (i j : ℕ) (p q : Phase) (b : ℕ)
      → find i y.handlers ≡ some p
      → find j y.handlers ≡ some q
      → Owns y.server.store b p
      → Owns y.server.store b q
      → i ≡ j

arrives-IsApart :
    (y : System) (i : ℕ) (rs : List PutStreamingRequest)
    → IsApart y
    → IsApart (record { server = y.server; handlers = (i, accept rs) ∷ y.handlers })
arrives-IsApart y i rs h =
    let (named, free) = accept_free rs y.server.store y.server.blob_id in
    let none_free = λ (b : ℕ) (p : Phase) (e : accept rs ≡ p) (w : Owns y.server.store b p).
      free b (subst (Owns y.server.store b) (sym e) w) in
    record {
      named = λ j p at. elim (find-cons_cases i j (accept rs) p y.handlers at) [
        | inl (_, e) ↦ subst (IsNamed y.server.store y.server.blob_id) e named
        | inr (_, old) ↦ h.named j p old
      ];
      apart = λ j k p q b at to w x. elim (find-cons_cases i j (accept rs) p y.handlers at) [
        | inl (_, e) ↦ absurd (none_free b p e w)
        | inr (_, old) ↦ elim (find-cons_cases i k (accept rs) q y.handlers to) [
          | inl (_, e) ↦ absurd (none_free b q e x)
          | inr (_, old') ↦ h.apart j k p q b old old' w x
        ]
      ];
    }

moves-IsApart :
    (y : System) (t : Server)
    → Grows y.server t
    → IsApart y
    → IsApart (record { server = t; handlers = y.handlers })
moves-IsApart y t g h = record {
  named = λ i p at. IsNamed-moves _ _ _ _ p g.settled g.counted (h.named i p at);
  apart = λ i j p q b at to w x.
      h.apart i j p q b at to (Owns-moves _ _ b p g.settled w) (Owns-moves _ _ b q g.settled x);
}

advances-IsApart :
    {lost : ℕ} (o : OpenSsl) (y : System) (i : ℕ) (p : Phase)
    → find i y.handlers ≡ some p
    → IsFitting o p y.server
    → IsSound lost y.server
    → IsApart y
    → IsApart (advanced o i p y)
advances-IsApart o y i p at fits v h =
    let s = y.server in
    let g : Grows s (step o p s).1 = step-Grows o p s fits v in
    let (named, owned) = step-Passes o p s fits v (h.named i p at) in
    let alone : (j : ℕ) (q : Phase) (b : ℕ)
        → find j y.handlers ≡ some q
        → Owns s.store b (step o p s).0
        → Owns s.store b q
        → i ≡ j =
      λ j q b there w x. elim (owned b w) [
        | inl mine ↦ h.apart i j p q b at there mine x
        | inr (new, _) ↦
            absurd (omega (arith, IsNamed-Owns s.store s.blob_id b q (h.named j q there) x))
      ] in
    record {
      named = λ j q to. elim (find-assign_cases i j (step o p s).0 q y.handlers to) [
        | inl (_, e) ↦ subst (IsNamed (step o p s).1.store (step o p s).1.blob_id) e (
            IsNamed-moves _ _ (step o p s).1.blob_id (step o p s).1.blob_id (step o p s).0 g.settled
              (omega arith) named)
        | inr (_, old) ↦ IsNamed-moves _ _ _ _ q g.settled g.counted (h.named j q old)
      ];
      apart = λ j k q r b to from w x.
          let w' = Owns-moves _ _ b q g.settled w in
          let x' = Owns-moves _ _ b r g.settled x in
          elim (find-assign_cases i j (step o p s).0 q y.handlers to) [
            | inl (je, e) ↦ elim (find-assign_cases i k (step o p s).0 r y.handlers from) [
              | inl (ke, _) ↦ sym je ∙ ke
              | inr (_, old) ↦ sym je ∙ alone k r b old (subst (Owns s.store b) (sym e) w') x'
            ]
            | inr (_, old) ↦ elim (find-assign_cases i k (step o p s).0 r y.handlers from) [
              | inl (ke, e) ↦ sym (alone j q b old (subst (Owns s.store b) (sym e) x') w') ∙ ke
              | inr (_, old') ↦ h.apart j k q r b old old' w' x'
            ]
          ];
    }

pub Reach-IsApart :
    {lost : ℕ} (o : OpenSsl) {y z : System}
    → Reach o y z
    → IsSound lost y.server
    → IsApart y
    → IsApart z
Reach-IsApart o here v h = h
Reach-IsApart o (next {z} r (arrives i rs fresh)) v h =
    arrives-IsApart z i rs (Reach-IsApart o r v h)
Reach-IsApart o (next {z} r (advances i {p} at fits)) v h =
    advances-IsApart o z i p at fits (Reach-IsKept o r v).2 (Reach-IsApart o r v h)
Reach-IsApart o (next {z} r (calls {t} st)) v h =
    moves-IsApart z t (Step-Grows st (Reach-IsKept o r v).2) (Reach-IsApart o r v h)

blob_of-Owns : (st : SessionStore) (b : ℕ) (p : Phase) → blob_of p ≡ some b → Owns st b p
blob_of-Owns st b (opening m rs bid path) e = ground arith
blob_of-Owns st b (reading m rs bid path total) e = ground arith
blob_of-Owns st b (writing m rs bid path total bytes) e = ground arith
blob_of-Owns st b (exhausting m bid) e = ground arith
blob_of-Owns st b (tagging m bid) e = ground arith
blob_of-Owns st b (starting m rs) e = cc
blob_of-Owns st b (creating m rs) e = cc
blob_of-Owns st b (discarding path) e = cc
blob_of-Owns st b (ended r) e = cc
blob_of-Owns st b (thrown x) e = cc
blob_of-Owns st b crashed e = cc

file_of-Owns :
    (st : SessionStore) (n : ℕ) (f : FilePath) (p : Phase)
    → IsNamed st n p
    → file_of p ≡ some f
    → (b : ℕ) × (Owns st b p) × (f ≡ upload_file st b)
file_of-Owns st n f (opening m rs bid path) (le, at) e = (bid, refl, cc)
file_of-Owns st n f (reading m rs bid path total) (le, at) e = (bid, refl, cc)
file_of-Owns st n f (writing m rs bid path total bytes) (le, at) e = (bid, refl, cc)
file_of-Owns st n f (discarding path) (b, le, at) e = (b, at, cc)
file_of-Owns st n f (starting m rs) k e = cc
file_of-Owns st n f (creating m rs) k e = cc
file_of-Owns st n f (exhausting m bid) k e = cc
file_of-Owns st n f (tagging m bid) k e = cc
file_of-Owns st n f (ended r) k e = cc
file_of-Owns st n f (thrown x) k e = cc
file_of-Owns st n f crashed k e = cc

-- From a server in order with no handler at work, in every interleaving of the steps of any number
-- of uploads and of calls of the library, in which no id counter wraps, no chunk wraps the sum,
-- the file of an upload that is given up can be removed and calls that remove BLOBs or sessions
-- return, two handlers never work on the same BLOB id, and never open, write or remove by its path
-- the same file.
pub uploads_apart :
    (o : OpenSsl) (s : Server) {z : System} {lost : ℕ}
    → IsSound lost s
    → Reach o (record { server = s; handlers = [] }) z
    → (i j : ℕ) (p q : Phase) → find i z.handlers ≡ some p
    → find j z.handlers ≡ some q
    → i ≢ j
    → ((b : ℕ) → blob_of p ≡ some b → blob_of q ≢ some b)
      × ((f : FilePath) → file_of p ≡ some f → file_of q ≢ some f)
unfolding find
uploads_apart o s {z} v r i j p q at to differ =
    let st = z.server.store in
    let h : IsApart z =
      Reach-IsApart o r v (record { named = λ i p e. cc; apart = λ i j p q b e f w x. cc }) in
    (
      (λ b mine his.
          differ (h.apart i j p q b at to (blob_of-Owns st b p mine) (blob_of-Owns st b q his))),
      (λ f mine his.
          let (b, w, e) = file_of-Owns st z.server.blob_id f p (h.named i p at) mine in
          let (c, x, e') = file_of-Owns st z.server.blob_id f q (h.named j q to) his in
          let same : b ≡ c = create_blob_file-injective st (text "upload") b c (sym e ∙ e') in
          differ (h.apart i j p q b at to w (subst (λ d. Owns st d q) (sym same) x))),
    )
