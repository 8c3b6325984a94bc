-- ===== src/Handlers/Quiet.antt =====
-- Handlers at work while no call removes a BLOB or a session.
use data_relay_grpc.Base.{ℕ, ◌≡◌, inl, inr, List, [], ◌∷◌, none, some, arith, Bool-cases, subst}
use data_relay_grpc.OrderedMap.{find}
use data_relay_grpc.OrderedMap.Holds.{find-assign_cases}
use data_relay_grpc.TagGenerator.{OpenSsl}
use data_relay_grpc.SessionStore.{SessionStore}
use data_relay_grpc.Manager.{Server}
use data_relay_grpc.Manager.History.{IsSound, Step-IsSound}
use data_relay_grpc.Relay.{PutStreamingRequest, metadata, chunk, not_set, check_api_version}
use data_relay_grpc.Handlers.{
  Phase, starting, creating, opening, reading, writing, exhausting, discarding, tagging, ended,
  thrown, crashed, accept, step,
}
use data_relay_grpc.Handlers.System.{
  System, IsFitting, advanced, arrives, advances, calls, Reach, here, next,
}
use data_relay_grpc.Handlers.Sharing.{IsCounted, step-IsSound}
use data_relay_grpc.Handlers.Apart.{Owns}
use data_relay_grpc.Handlers.Isolation.{IsApart, Reach-IsApart, find-cons_cases}
use data_relay_grpc.Handlers.Sparing.{removed_by, step-Spares, IsQuiet, Step-Spares}
use data_relay_grpc.Handlers.Settling.{IsPlaced, IsPlaced-moves, step-Settled}

IsPlaced-IsCounted : (p : Phase) (s : Server) → IsPlaced s p → IsCounted p s
IsPlaced-IsCounted (reading m (chunk bytes ∷ rs) bid path total) s h = h
IsPlaced-IsCounted p s h = tt

accept-IsPlaced : (rs : List PutStreamingRequest) (s : Server) → IsPlaced s (accept rs)
unfolding accept
accept-IsPlaced [] s = tt
accept-IsPlaced (chunk bytes ∷ rs) s = tt
accept-IsPlaced (not_set ∷ rs) s = tt
accept-IsPlaced (metadata m ∷ rs) s = elim (Bool-cases (check_api_version m.api_version)) [
  | inl old ↦ rw old tt
  | inr new ↦ rw new tt
]

-- No call of the history removes a BLOB or ends a session.
abbrev pub AreQuiet : {o : OpenSsl} {y z : System} → Reach o y z → Type 0
AreQuiet here = Unit
AreQuiet (next r (arrives i rs fresh)) = AreQuiet r
AreQuiet (next r (advances i at fits)) = AreQuiet r
AreQuiet (next r (calls st)) = AreQuiet r × IsQuiet st

record IsCalm (z : System) : Type 0 where
  sound : IsSound 0 z.server
  placed : (i : ℕ) (p : Phase) → find i z.handlers ≡ some p → IsPlaced z.server p

removed_by-Owns : (p : Phase) (st : SessionStore) (b : ℕ) → some b ≡ removed_by p → Owns st b p
removed_by-Owns (exhausting m bid) st b e = ground arith
removed_by-Owns (starting m rs) st b e = cc
removed_by-Owns (creating m rs) st b e = cc
removed_by-Owns (opening m rs bid path) st b e = cc
removed_by-Owns (reading m rs bid path total) st b e = cc
removed_by-Owns (writing m rs bid path total bytes) st b e = cc
removed_by-Owns (discarding path) st b e = cc
removed_by-Owns (tagging m bid) st b e = cc
removed_by-Owns (ended r) st b e = cc
removed_by-Owns (thrown x) st b e = cc
removed_by-Owns crashed st b e = cc

advances-IsCalm :
    (o : OpenSsl) (y : System) (i : ℕ) (p : Phase)
    → find i y.handlers ≡ some p
    → IsFitting o p y.server
    → IsApart y
    → IsCalm y
    → IsCalm (advanced o i p y)
advances-IsCalm o y i p at fits apart h =
    let s = y.server in
    let mine = h.placed i p at in
    record {
      sound = step-IsSound o p s fits (IsPlaced-IsCounted p s mine) h.sound;
      placed = λ j q to. elim (find-assign_cases i j (step o p s).0 q y.handlers to) [
        | inl (_, e) ↦ subst (IsPlaced (step o p s).1) e (step-Settled o p s fits h.sound mine)
        | inr (differs, old) ↦
            IsPlaced-moves (removed_by p) s.store s (step o p s).1 q (step-Spares o p s h.sound)
              (λ b w e. differs (apart.apart i j p q b at old (removed_by-Owns p s.store b e) w))
              (h.placed j q old)
      ];
    }

quiet-IsCalm :
    (o : OpenSsl) {y z : System} (r : Reach o y z) → AreQuiet r → IsApart y → IsCalm y → IsCalm z
quiet-IsCalm o here q a h = h
quiet-IsCalm o (next {z} r (arrives i rs fresh)) q a h =
    let k = quiet-IsCalm o r q a h in
    record {
      sound = k.sound;
      placed = λ j p at. elim (find-cons_cases i j (accept rs) p z.handlers at) [
        | inl (_, e) ↦ subst (IsPlaced z.server) e (accept-IsPlaced rs z.server)
        | inr (_, old) ↦ k.placed j p old
      ];
    }
quiet-IsCalm o (next {z} r (advances i {p} at fits)) q a h =
    advances-IsCalm o z i p at fits (Reach-IsApart o r h.sound a) (quiet-IsCalm o r q a h)
quiet-IsCalm o (next {z} r (calls {t} st)) (q, quiet) a h =
    let k = quiet-IsCalm o r q a h in
    record {
      sound = Step-IsSound st k.sound;
      placed = λ j p at.
          IsPlaced-moves none z.server.store z.server t p (Step-Spares st quiet k.sound)
            (λ b w e. cc) (k.placed j p at);
    }

-- From a server in order, on which the usage counter is what all BLOBs have reserved, and with no
-- handler at work, in every interleaving of the steps of any number of uploads and of calls of the
-- library that remove no BLOB and end no session, in which no id counter wraps, no chunk wraps the
-- sum and the file of an upload that is given up can be removed: the registry and the books are in
-- order, with nothing lost; no handler has used what is gone; and every handler between the lookup
-- of its session and its end, but one that removes a file of the wrong size, has its session
-- there, and its BLOB from the moment that it has an id.
pub uploads_undisturbed :
    (o : OpenSsl) (s : Server) {z : System}
    → IsSound 0 s
    → (r : Reach o (record { server = s; handlers = [] }) z) → AreQuiet r
    → IsSound 0 z.server × ((i : ℕ) (p : Phase) → find i z.handlers ≡ some p → IsPlaced z.server p)
unfolding find
uploads_undisturbed o s {z} v r q =
    let k : IsCalm z =
      quiet-IsCalm o r q (record { named = λ i p e. cc; apart = λ i j p q b e f w x. cc })
        (record { sound = v; placed = λ i p e. cc }) in
    (k.sound, k.placed)
