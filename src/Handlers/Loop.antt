-- ===== src/Handlers/Loop.antt =====
-- The state machine from the loop over the chunks on, where nothing runs between its steps.
use data_relay_grpc.Base.{
  ℕ, suc, ◌+◌, ◌*◌, ◌%◌, ◌≤◌, ◌≡◌, refl, sym, ap, ◌∙◌, ◌⊎◌, inl, inr, Bool, true, false, List, [],
  ◌∷◌, ◌++◌, some, length, arith, Bool-cases, Option-cases, subst,
}
use data_relay_grpc.OrderedMap.{find}
use data_relay_grpc.OrderedMap.Lookup.{find-assign}
use data_relay_grpc.FileSystem.{FilePath, node, exists, append_output, remove, content_of, regular}
use data_relay_grpc.FileSystem.Laws.{find_node-put_node}
use data_relay_grpc.TagGenerator.{OpenSsl}
use data_relay_grpc.SessionStore.{word}
use data_relay_grpc.Session.{SessionImpl, Context, reserve_session_store, delete_blob_file}
use data_relay_grpc.Manager.{
  Manager, Server, compute_tag, generate_reference_tag, with_session, context, absorb,
}
use data_relay_grpc.Outcome.{Exception, is_out_of_range, Outcome, returns, throws, undefined, after}
use data_relay_grpc.Relay.{PutMetadata, PutStreamingRequest, metadata, chunk, not_set}
use data_relay_grpc.Upload.{
  PutResult, refused, stopped, write, exhausted, size_matches, receive, give_up, respond, discard,
  conclude, caught,
}
use data_relay_grpc.Upload.Stream.{with_session_found}
use data_relay_grpc.Upload.Soundness.{tag_ends}
use data_relay_grpc.Handlers.{
  Phase, reading, ended, thrown, crashed, raised, next_phase, write_stream, tag_step, discard_step,
  step, run,
}

-- the phase and the server that a call of `put` leaves
abbrev pub final : Outcome PutResult × Server → Phase × Server
final (returns r, s) = (ended r, s)
final (throws x, s) = (thrown x, s)
final (undefined, s) = (crashed, s)

-- The handler's session is there, and the file that it has opened.
pub record IsUsing (m : PutMetadata) (own : SessionImpl) (path : FilePath) (s : Server)
    : Type 0 where
  pub impl : SessionImpl
  pub there : find m.session_id s.blob_sessions ≡ some impl
  pub same : impl.session_id ≡ own.session_id
  pub file : exists s.file_system path ≡ true

Call-cases :
    {A : Type 0} (r : Outcome A × Server)
    → ((a : A) × (t : Server) × (r ≡ (returns a, t)))
      ⊎ (((x : Exception) × (t : Server) × (r ≡ (throws x, t)))
          ⊎ ((t : Server) × (r ≡ (undefined, t))))
Call-cases (returns a, t) = inl (a, t, refl)
Call-cases (throws x, t) = inr (inl (x, t, refl))
Call-cases (undefined, t) = inr (inr (t, refl))

pub raised-final : (x : Exception) (t : Server) → (raised x, t) ≡ final (caught (throws x, t))
raised-final x t = elim (Bool-cases (is_out_of_range x)) [ inl e ↦ rw e refl | inr e ↦ rw e refl ]

reserve_same :
    (bid n : ℕ) (c : Context)
    → ((reserve_session_store bid n c).1.session_id ≡ c.session_id)
      × ((reserve_session_store bid n c).1.file_system ≡ c.file_system)
unfolding reserve_session_store
reserve_same bid n c = ground arith

reserved-IsUsing :
    (m : PutMetadata) (own : SessionImpl) (path : FilePath) (bid n : ℕ) (s t : Server) {b : Bool}
    → IsUsing m own path s
    → with_session m.session_id (reserve_session_store bid n) s ≡ (returns b, t)
    → IsUsing m own path t
reserved-IsUsing m own path bid n s t {b} u e =
    let c : Context = (reserve_session_store bid n (context s u.impl)).1 in
    let (same_id, same_files) = reserve_same bid n (context s u.impl) in
    let at : absorb m.session_id s c ≡ t =
      ap (λ (r : Outcome Bool × Server). r.1)
        (sym (with_session_found m.session_id (reserve_session_store bid n) s u.impl u.there)
          ∙ e) in
    subst (IsUsing m own path) at (record {
      impl = c.impl;
      there = ground (arith, u.there, find-assign m.session_id m.session_id c.impl s.blob_sessions);
      same = same_id ∙ u.same;
      file = ap (λ fs. exists fs path) same_files ∙ u.file;
    })

write-IsUsing :
    (m : PutMetadata) (own : SessionImpl) (path : FilePath) (bytes : List ℕ) (s : Server)
    → IsUsing m own path s
    → IsUsing m own path (write path bytes s)
unfolding exists node append_output
write-IsUsing m own path bytes s u =
    let p = s.file_system.resolve path in
    record {
      impl = u.impl;
      there = u.there;
      same = u.same;
      file = ground (
        arith,
        find_node-put_node p p (regular (content_of (node s.file_system path) ++ bytes))
            s.file_system.nodes,
      );
    }

compute_tag-same :
    (o : OpenSsl) (bid : ℕ) (own impl : SessionImpl) (m : Manager)
    → impl.session_id ≡ own.session_id
    → compute_tag o bid impl m ≡ compute_tag o bid own m
unfolding compute_tag
compute_tag-same o bid own impl m e = ap (λ sid. generate_reference_tag o bid sid m) e

tag_alone :
    (o : OpenSsl) (m : PutMetadata) (own : SessionImpl) (bid : ℕ) (path : FilePath) (s : Server)
    → IsUsing m own path s
    → tag_step o m bid s ≡ final (caught (respond o own bid s))
unfolding tag_step respond
tag_alone o m own bid path s u =
    let agree = compute_tag-same o bid own u.impl s.manager u.same in
    elim (tag_ends o own bid s.manager) [
      | inl (tag, e) ↦ rw (u.there, agree, e, tag_step, respond) refl
      | inr (x, e, f) ↦ rw (u.there, agree, e, tag_step, respond) (raised-final x s)
    ]

discard_alone :
    (path : FilePath) (s : Server) → discard_step path s ≡ final (caught (discard path s))
unfolding discard_step discard
discard_alone path s = elim (Option-cases (remove s.file_system path)) [
  | inl stuck ↦ rw (stuck, discard_step, discard) refl
  | inr (fs, done) ↦ rw (done, discard_step, discard) refl
]

exhausted_alone :
    (o : OpenSsl) (m : PutMetadata) (own : SessionImpl) (bid : ℕ) (path : FilePath)
    (r : Outcome (Unit {0}) × Server)
    → next_phase (λ (_ : Unit {0}). ended (refused exhausted)) r
      ≡ final (
          caught (
            after
              (after r (λ _ t. (returns (stopped exhausted), t)))
              (conclude o m.blob_size own bid path)))
unfolding conclude
exhausted_alone o m own bid path (returns a, t) = refl
exhausted_alone o m own bid path (throws x, t) = raised-final x t
exhausted_alone o m own bid path (undefined, t) = refl

-- the loop over the chunks, and what comes after it
pub receive_alone :
    (o : OpenSsl) (m : PutMetadata) (own : SessionImpl) (rs : List PutStreamingRequest) (bid : ℕ)
    (path : FilePath) (total : ℕ) (s : Server)
    → IsUsing m own path s
    → (n : ℕ) × (n ≤ 2 * length rs + 2)
      × (run o n (reading m rs bid path total) s
          ≡ final (
              caught (
                after
                  (receive m.session_id bid path rs total s)
                  (conclude o m.blob_size own bid path))))
unfolding run step receive conclude give_up write_stream
receive_alone o m own [] bid path total s u = elim (Bool-cases (size_matches m.blob_size total)) [
  | inl fits ↦ (2, omega arith, rw fits (tag_alone o m own bid path s u))
  | inr differs ↦ (2, omega arith, rw differs (discard_alone path s))
]
receive_alone o m own (metadata x ∷ rs) bid path total s u = (1, omega arith, refl)
receive_alone o m own (not_set ∷ rs) bid path total s u = (1, omega arith, refl)
receive_alone o m own (chunk bytes ∷ rs) bid path total s u =
    elim (Call-cases (with_session m.session_id (reserve_session_store bid (length bytes)) s)) [
      | inl (true, t, e) ↦
          let v = reserved-IsUsing m own path bid (length bytes) s t u e in
          let (n, le, r) =
            receive_alone o m own rs bid path ((total + length bytes) % word) (write path bytes t)
              (write-IsUsing m own path bytes t v) in
          (suc (suc n), omega arith, rw (e, v.file) r)
      | inl (false, t, e) ↦ (
        2,
        omega arith,
        rw e
            (exhausted_alone o m own bid path (with_session m.session_id (delete_blob_file bid) t)),
      )
      | inr (inl (x, t, e)) ↦ (1, omega arith, rw e (raised-final x t))
      | inr (inr (t, e)) ↦ (1, omega arith, rw e refl)
    ]
