-- ===== src/Handlers/Passing.antt =====
-- What one step of a handler does to the counter of BLOB ids, and to the BLOB that it works on.
use data_relay_grpc.Base.{
  ℕ, ◌≡◌, refl, sym, ap, inl, inr, List, [], ◌∷◌, arith, Option-cases, length, subst,
}
use data_relay_grpc.OrderedMap.{find, AscendsFrom}
use data_relay_grpc.Text.{text}
use data_relay_grpc.FileSystem.{FilePath, open_output, remove}
use data_relay_grpc.TagGenerator.{OpenSsl}
use data_relay_grpc.SessionStore.{SessionStore}
use data_relay_grpc.Session.{
  SessionImpl, create_blob_file, reserve_session_store, delete_blob_file, Context,
}
use data_relay_grpc.Session.Evolution.{
  Evolves, create_blob_file-Evolves, reserve_session_store-Evolves, delete_blob_file-Evolves,
}
use data_relay_grpc.Upload.{refused, exhausted}
use data_relay_grpc.Manager.{Manager, Server, with_session, context, compute_tag}
use data_relay_grpc.Manager.History.{IsSound}
use data_relay_grpc.Manager.Growth.{Grows, method-Grows}
use data_relay_grpc.Outcome.{Outcome, M}
use data_relay_grpc.Relay.{PutMetadata, PutStreamingRequest, metadata, chunk, not_set}
use data_relay_grpc.Handlers.{
  Phase, starting, creating, opening, reading, writing, exhausting, discarding, tagging, ended,
  thrown, crashed, next_phase, opened_phase, reserved_phase, answered, tag_step, open_step,
  discard_step, step,
}
use data_relay_grpc.Handlers.System.{IsFitting}
use data_relay_grpc.Handlers.Sharing.{
  next_phase_server, open_step_manager, discard_step_manager, write_stream_manager,
  tag_step_manager,
}
use data_relay_grpc.Handlers.Apart.{
  IsNamed, Passes, IsNamed-moves, next_phase-Passes, creating-Passes, reserved-Passes, end-Passes,
}

same-Grows : (s t : Server) → t.manager ≡ s.manager → Grows s t
same-Grows s t e = record {
  counted = omega (arith, ap (λ (m : Manager). m.blob_id) e);
  settled = ap (λ (m : Manager). m.store.directory) e;
}

call-Grows :
    {A : Type 0} (s : Server) (k : A → Phase) (r : Outcome A × Server)
    → Grows s r.1
    → Grows s (next_phase k r).1
call-Grows s k r = subst (Grows s) (sym (next_phase_server k r))

method_Grows :
    {lost : ℕ} {A : Type 0} (sid : ℕ) (method : M Context A) (s : Server)
    → IsSound lost s
    → ((impl : SessionImpl)
        → AscendsFrom 0 impl.blobs
        → Evolves (context s impl) (method (context s impl)).1)
    → Grows s (with_session sid method s).1
unfolding with_session
method_Grows sid method s v evolves = elim (Option-cases (find sid s.blob_sessions)) [
  | inl gone ↦ rw (gone, with_session) (same-Grows s s refl)
  | inr (impl, there) ↦
      method-Grows sid method s impl there (evolves impl ((v.booked.numbered sid impl there).0))
]

pub step-Grows :
    {lost : ℕ} (o : OpenSsl) (p : Phase) (s : Server)
    → IsFitting o p s
    → IsSound lost s
    → Grows s (step o p s).1
unfolding step
step-Grows o (starting m rs) s fits v = call-Grows s _ _ (same-Grows s s refl)
step-Grows o (creating m rs) s fits v = call-Grows s _ _ (
    method_Grows m.session_id (create_blob_file (text "upload")) s v
      (λ impl a. create_blob_file-Evolves (context s impl) (text "upload") fits a))
step-Grows o (opening m rs bid path) s fits v = same-Grows s _ (open_step_manager m rs bid path s)
step-Grows o (reading m [] bid path total) s fits v = same-Grows s s refl
step-Grows o (reading m (chunk bytes ∷ rs) bid path total) s fits v = call-Grows s _ _ (
    method_Grows m.session_id (reserve_session_store bid (length bytes)) s v
      (λ impl a. reserve_session_store-Evolves (context s impl) bid (length bytes) a))
step-Grows o (reading m (metadata _ ∷ rs) bid path total) s fits v = same-Grows s s refl
step-Grows o (reading m (not_set ∷ rs) bid path total) s fits v = same-Grows s s refl
step-Grows o (writing m rs bid path total bytes) s fits v =
    same-Grows s _ (write_stream_manager path bytes s)
step-Grows o (exhausting m bid) s fits v = call-Grows s _ _ (
    method_Grows m.session_id (delete_blob_file bid) s v
      (λ impl a. delete_blob_file-Evolves (context s impl) bid a))
step-Grows o (discarding path) s fits v = same-Grows s _ (discard_step_manager path s)
step-Grows o (tagging m bid) s fits v = same-Grows s _ (tag_step_manager o m bid s)
step-Grows o (ended r) s fits v = same-Grows s s refl
step-Grows o (thrown x) s fits v = same-Grows s s refl
step-Grows o crashed s fits v = same-Grows s s refl

open_step-Passes :
    (n : ℕ) (m : PutMetadata) (rs : List PutStreamingRequest) (bid : ℕ) (path : FilePath)
    (s : Server)
    → IsNamed s.store n (opening m rs bid path)
    → Passes s.store n n (opening m rs bid path) (open_step m rs bid path s).0
unfolding open_step
open_step-Passes n m rs bid path s k = elim (Option-cases (open_output s.file_system path)) [
  | inl shut ↦ rw (shut, open_step) (tt, (λ b w. absurd w))
  | inr (fs, opens) ↦ rw (opens, open_step) (k, (λ b w. inl w))
]

discard_step-Passes :
    (st : SessionStore) (n : ℕ) (path : FilePath) (s : Server)
    → Passes st n n (discarding path) (discard_step path s).0
unfolding discard_step
discard_step-Passes st n path s = elim (Option-cases (remove s.file_system path)) [
  | inl stuck ↦ rw (stuck, discard_step) (tt, (λ b w. absurd w))
  | inr (fs, done) ↦ rw (done, discard_step) (tt, (λ b w. absurd w))
]

tag_step-Passes :
    (st : SessionStore) (n : ℕ) (o : OpenSsl) (m : PutMetadata) (bid : ℕ) (s : Server)
    → Passes st n n (tagging m bid) (tag_step o m bid s).0
unfolding tag_step
tag_step-Passes st n o m bid s = elim (Option-cases (find m.session_id s.blob_sessions)) [
  | inl gone ↦ rw (gone, tag_step) (tt, (λ b w. absurd w))
  | inr (impl, there) ↦
      rw (there, tag_step)
        (next_phase-Passes st n n (tagging m bid) (answered bid)
          (compute_tag o bid impl s.manager, s) (λ tag. (tt, (λ b w. absurd w))))
]

later-Passes :
    {lost : ℕ} (o : OpenSsl) (p : Phase) (s : Server)
    → IsFitting o p s
    → IsSound lost s
    → Passes s.store s.blob_id s.blob_id p (step o p s).0
    → Passes s.store s.blob_id (step o p s).1.blob_id p (step o p s).0
later-Passes o p s fits v (k, h) =
    let g : Grows s (step o p s).1 = step-Grows o p s fits v in
    (
      IsNamed-moves s.store s.store s.blob_id _ (step o p s).0 refl g.counted k,
      (λ b w. elim (h b w) [ inl old ↦ inl old | inr (lt, under) ↦ absurd (omega arith) ]),
    )

-- A step of a handler goes on with the BLOB that it has, or takes one with a new id.
pub step-Passes :
    {lost : ℕ} (o : OpenSsl) (p : Phase) (s : Server)
    → IsFitting o p s
    → IsSound lost s
    → IsNamed s.store s.blob_id p
    → Passes s.store s.blob_id (step o p s).1.blob_id p (step o p s).0
unfolding step
step-Passes o (starting m rs) s fits v k =
    next_phase-Passes _ _ _ (starting m rs) (λ (_ : SessionImpl). creating m rs) _
      (λ a. (tt, (λ b w. absurd w)))
step-Passes o (creating m rs) s fits v k =
    rw
      (next_phase_server (opened_phase m rs)
        (with_session m.session_id (create_blob_file (text "upload")) s))
      (creating-Passes m rs s fits)
step-Passes o (opening m rs bid path) s fits v k =
    later-Passes o (opening m rs bid path) s fits v (open_step-Passes s.blob_id m rs bid path s k)
step-Passes o (reading m [] bid path total) s fits v k =
    end-Passes s.store s.blob_id m bid path total k
step-Passes o (reading m (chunk bytes ∷ rs) bid path total) s fits v k =
    later-Passes o (reading m (chunk bytes ∷ rs) bid path total) s fits v (
      next_phase-Passes _ _ _ (reading m (chunk bytes ∷ rs) bid path total)
        (reserved_phase m rs bid path total bytes) _
        (λ granted. reserved-Passes s.store s.blob_id m rs bid path total bytes granted k))
step-Passes o (reading m (metadata _ ∷ rs) bid path total) s fits v k = (tt, (λ b w. absurd w))
step-Passes o (reading m (not_set ∷ rs) bid path total) s fits v k = (tt, (λ b w. absurd w))
step-Passes o (writing m rs bid path total bytes) s fits v k =
    later-Passes o (writing m rs bid path total bytes) s fits v (k, (λ b w. inl w))
step-Passes o (exhausting m bid) s fits v k =
    next_phase-Passes _ _ _ (exhausting m bid) (λ (_ : Unit {0}). ended (refused exhausted)) _
      (λ a. (tt, (λ b w. absurd w)))
step-Passes o (discarding path) s fits v k =
    later-Passes o (discarding path) s fits v (discard_step-Passes s.store s.blob_id path s)
step-Passes o (tagging m bid) s fits v k =
    later-Passes o (tagging m bid) s fits v (tag_step-Passes s.store s.blob_id o m bid s)
step-Passes o (ended r) s fits v k = (tt, (λ b w. absurd w))
step-Passes o (thrown x) s fits v k = (tt, (λ b w. absurd w))
step-Passes o crashed s fits v k = (tt, (λ b w. absurd w))
