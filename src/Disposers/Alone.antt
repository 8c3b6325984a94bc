-- ===== src/Disposers/Alone.antt =====
-- The state machine of the end of a session, with no other call between its steps, against
-- `dispose_session`.
use data_relay_grpc.Base.{
  ℕ, zero, suc, ◌≡◌, refl, sym, ap, ◌∙◌, subst, inl, inr, List, [], ◌∷◌, some, arith, Option-cases,
}
use data_relay_grpc.OrderedMap.{find, assign}
use data_relay_grpc.OrderedMap.Lookup.{find-assign}
use data_relay_grpc.Session.{SessionImpl, Context, entries, delete_blob_file, delete_entries}
use data_relay_grpc.Manager.{
  Server, with_session, context, absorb, absorbed, dispose, dispose_session,
}
use data_relay_grpc.Outcome.{Outcome, returns, throws, undefined, M, after, for_each}
use data_relay_grpc.Upload.Stream.{with_session_found}
use data_relay_grpc.Handlers.Dangling.{gone_session}
use data_relay_grpc.Disposers.{
  Phase, starting, deleting, ended, thrown, crashed, next_phase, erased, step,
}
use data_relay_grpc.Disposers.Books.{with_session-reads}

abbrev pub run : ℕ → ℕ → Phase → Server → Phase × Server
run sid zero p s = (p, s)
run sid (suc n) p s = run sid n (step sid p s).0 (step sid p s).1

-- where a call of `dispose_session` ends
abbrev pub final : Outcome (Unit {0}) × Server → Phase × Server
final (returns u, s) = (ended, s)
final (throws x, s) = (thrown x, s)
final (undefined, s) = (crashed, s)

assign-assign {ℓ} :
    {V : Type ℓ} (k : ℕ) (v w : V) (m : List (ℕ × V)) → assign k v (assign k w m) ≡ assign k v m
unfolding assign
assign-assign k v w [] = refl
assign-assign k v w ((j, u) ∷ m) = ground (arith, assign-assign k v w m)

absorbed_twice :
    {A : Type 0} (sid : ℕ) (s : Server) (c : Context) (r : Outcome A × Context)
    → absorbed sid (absorb sid s c) r ≡ absorbed sid s r
absorbed_twice {A} sid s c (x, d) =
    ap
      (λ m.
        let t : Outcome A × Server = (
          x,
          record {
            manager = record (s.manager) {
              store = d.store;
              blob_id = d.blob_id;
              blob_sessions = m;
            };
            file_system = d.file_system;
          },
        ) in
        t)
      (assign-assign sid d.impl c.impl s.blob_sessions)

-- Two methods called one after the other, and both in one call.
with_session-after :
    {A B : Type 0} (sid : ℕ) (m : M Context A) (k : A → M Context B) (s : Server)
    (impl : SessionImpl)
    → find sid s.blob_sessions ≡ some impl
    → with_session sid (λ c. after (m c) k) s
      ≡ after (with_session sid m s) (λ a. with_session sid (k a))
unfolding with_session
with_session-after {A} {B} sid m k s impl there =
    rw (there, with_session) (composed (m (context s impl)))
  where
    composed :
        (r : Outcome A × Context)
        → absorbed sid s (after r k) ≡ after (absorbed sid s r) (λ a. with_session sid (k a))
    composed (returns a, c) =
        let now : find sid (assign sid c.impl s.blob_sessions) ≡ some c.impl =
          ground (arith, there, find-assign sid sid c.impl s.blob_sessions) in
        sym (
          with_session_found sid (k a) (absorb sid s c) c.impl now ∙ absorbed_twice sid s c (k a c))
    composed (throws x, c) = refl
    composed (undefined, c) = refl

-- the call of the manager that ends `dispose_session`
last_call : ℕ → Outcome (Unit {0}) × Server → Outcome (Unit {0}) × Server
last_call sid r = after r (λ _ t. (returns tt, record t { manager = dispose sid t.manager }))

-- The handler comes to where the call ends.
abbrev Runs : ℕ → Phase → Server → Outcome (Unit {0}) × Server → Type 0
Runs sid p s r = (n : ℕ) × (run sid n p s ≡ final r)

Runs-step :
    (sid : ℕ) (p q : Phase) (s t : Server) (r : Outcome (Unit {0}) × Server)
    → step sid p s ≡ (q, t)
    → Runs sid q t r
    → Runs sid p s r
Runs-step sid p q s t r e (n, at) = (suc n, ap (λ (x : Phase × Server). run sid n x.0 x.1) e ∙ at)

-- A deletion, and then the rest of the loop.
delete_blob_file-Runs :
    (sid bid : ℕ) (ids : List ℕ) (s : Server) (impl : SessionImpl)
    → find sid s.blob_sessions ≡ some impl
    → ((t : Server) (i : SessionImpl)
        → find sid t.blob_sessions ≡ some i
        → Runs sid
            (deleting ids)
            t
            (last_call sid (with_session sid (for_each delete_blob_file ids) t)))
    → (r : Outcome (Unit {0}) × Context)
    → with_session sid (delete_blob_file bid) s ≡ absorbed sid s r
    → Runs sid (deleting (bid ∷ ids)) s (
        last_call sid (
          after
            (with_session sid (delete_blob_file bid) s)
            (λ _. with_session sid (for_each delete_blob_file ids))))
unfolding last_call step
delete_blob_file-Runs sid bid ids s impl there rest (returns u, c) e =
    let now : find sid (assign sid c.impl s.blob_sessions) ≡ some c.impl =
      ground (arith, there, find-assign sid sid c.impl s.blob_sessions) in
    subst
      (λ r.
        Runs sid (deleting (bid ∷ ids)) s
          (last_call sid (after r (λ _. with_session sid (for_each delete_blob_file ids)))))
      (sym e)
      (Runs-step sid (deleting (bid ∷ ids)) (deleting ids) s (absorb sid s c) _
        (ap (next_phase (λ (_ : Unit {0}). deleting ids)) e) (rest (absorb sid s c) c.impl now))
delete_blob_file-Runs sid bid ids s impl there rest (throws x, c) e =
    subst
      (λ r.
        Runs sid (deleting (bid ∷ ids)) s
          (last_call sid (after r (λ _. with_session sid (for_each delete_blob_file ids)))))
      (sym e) (1, ap (next_phase (λ (_ : Unit {0}). deleting ids)) e)
delete_blob_file-Runs sid bid ids s impl there rest (undefined, c) e =
    subst
      (λ r.
        Runs sid (deleting (bid ∷ ids)) s
          (last_call sid (after r (λ _. with_session sid (for_each delete_blob_file ids)))))
      (sym e) (1, ap (next_phase (λ (_ : Unit {0}). deleting ids)) e)

for_each-Runs :
    (sid : ℕ) (ids : List ℕ) (s : Server) (impl : SessionImpl)
    → find sid s.blob_sessions ≡ some impl
    → Runs sid (deleting ids) s (last_call sid (with_session sid (for_each delete_blob_file ids) s))
unfolding for_each last_call step
for_each-Runs sid [] s impl there =
    let e = with_session-reads sid (λ _. tt) s impl there in
    (
      1,
      ap (λ r. erased sid (next_phase (λ (_ : Unit {0}). ended) r)) e
          ∙ sym (ap (λ r. final (last_call sid r)) e),
    )
for_each-Runs sid (bid ∷ ids) s impl there =
    let e =
      with_session-after sid (delete_blob_file bid) (λ _. for_each delete_blob_file ids) s impl
        there in
    subst (λ r. Runs sid (deleting (bid ∷ ids)) s (last_call sid r)) (sym e)
      (delete_blob_file-Runs sid bid ids s impl there (for_each-Runs sid ids)
        (delete_blob_file bid (context s impl))
        (with_session_found sid (delete_blob_file bid) s impl there))

-- Where no other call runs between its steps, the state machine of the end of a session comes,
-- after some number of steps, to where `dispose_session` ends: with the same exception, if any, or
-- the same use of a session that is gone, and with the server that it leaves.
pub run-dispose_session :
    (sid : ℕ) (s : Server) → (n : ℕ) × (run sid n starting s ≡ final (dispose_session sid s))
unfolding dispose_session last_call step delete_entries
run-dispose_session sid s = elim (Option-cases (find sid s.blob_sessions)) [
  | inl gone ↦
      let e = gone_session sid delete_entries s gone in
      let e' = gone_session sid (λ c. (returns (entries c.impl), c)) s gone in
      (1, ap (next_phase deleting) e' ∙ sym (ap (λ r. final (last_call sid r)) e))
  | inr (impl, there) ↦
      let ids = entries impl in
      let e = with_session-reads sid (λ c. entries c.impl) s impl there in
      let same : with_session sid delete_entries s
          ≡ with_session sid (for_each delete_blob_file ids) s =
        with_session_found sid delete_entries s impl there
        ∙ sym (with_session_found sid (for_each delete_blob_file ids) s impl there) in
      subst (λ r. Runs sid starting s (last_call sid r)) (sym same)
        (Runs-step sid starting (deleting ids) s s _ (ap (next_phase deleting) e)
          (for_each-Runs sid ids s impl there))
]
