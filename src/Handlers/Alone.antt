-- ===== src/Handlers/Alone.antt =====
-- The state machine, where nothing runs between its steps, against `put`.
use data_relay_grpc.Base.{
  ℕ, suc, ◌+◌, ◌*◌, ◌≤◌, ◌≡◌, refl, sym, ap, ◌∙◌, inl, inr, List, [], ◌∷◌, none, some, length,
  arith, Bool-cases, Option-cases,
}
use data_relay_grpc.OrderedMap.{find, emplace}
use data_relay_grpc.OrderedMap.Lookup.{find-assign}
use data_relay_grpc.Text.{text}
use data_relay_grpc.FileSystem.{FilePath, FileSystem, exists, is_some, open_output}
use data_relay_grpc.TagGenerator.{OpenSsl}
use data_relay_grpc.Session.{SessionImpl, create_blob_file}
use data_relay_grpc.Manager.{Server, with_session}
use data_relay_grpc.Manager.Lookup.{get_session_impl_cases}
use data_relay_grpc.Outcome.{after}
use data_relay_grpc.Relay.{
  PutMetadata, PutStreamingRequest, metadata, chunk, not_set, check_api_version,
}
use data_relay_grpc.Upload.{upload, try_put, caught, put}
use data_relay_grpc.Upload.Storage.{
  next_id, upload_path, created, opened, created_call, open_output_lem,
}
use data_relay_grpc.Upload.Soundness.{upload-open_output}
use data_relay_grpc.Handlers.{
  Phase, starting, creating, opening, reading, next_phase, opened_phase, accept, open_step, step,
  run,
}
use data_relay_grpc.Handlers.Loop.{final, IsUsing, receive_alone}

opened-IsUsing :
    (m : PutMetadata) (own : SessionImpl) (s : Server) (fs : FileSystem)
    → find m.session_id s.blob_sessions ≡ some own
    → open_output s.file_system (upload_path s) ≡ some fs
    → IsUsing m own (upload_path s) (opened m.session_id own fs s)
unfolding exists
opened-IsUsing m own s fs there opens =
    let new : SessionImpl = record own {
      blobs = emplace (next_id s) (record { path = upload_path s; size = 0 }) own.blobs;
    } in
    record {
      impl = new;
      there = ground (arith, there, find-assign m.session_id m.session_id new s.blob_sessions);
      same = refl;
      file = ap is_some (open_output_lem s.file_system fs (upload_path s) opens).0;
    }

run-step :
    (o : OpenSsl) (n : ℕ) (p : Phase) (s : Server) {q : Phase} {t : Server}
    → step o p s ≡ (q, t)
    → run o (suc n) p s ≡ run o n q t
unfolding run
run-step o n p s e = ap (λ (r : Phase × Server). run o n r.0 r.1) e

open_step-open_output :
    (m : PutMetadata) (rs : List PutStreamingRequest) (bid : ℕ) (path : FilePath) (s : Server)
    (fs : FileSystem)
    → open_output s.file_system path ≡ some fs
    → open_step m rs bid path s
      ≡ (reading m rs bid path 0, (let t : Server = record s { file_system = fs } in t))
unfolding open_step
open_step-open_output m rs bid path s fs opens = rw (opens, open_step) refl

open_shut :
    (o : OpenSsl) (m : PutMetadata) (rs : List PutStreamingRequest) (bid : ℕ) (path : FilePath)
    (s : Server) (own : SessionImpl)
    → open_output s.file_system path ≡ none
    → run o 1 (opening m rs bid path) s ≡ final (caught (upload o m own rs (bid, path) s))
unfolding run step open_step upload
open_shut o m rs bid path s own shut = rw (shut, open_step, upload) refl

-- from the call of `create_blob_file` on
created_alone :
    (o : OpenSsl) (m : PutMetadata) (own : SessionImpl) (rs : List PutStreamingRequest) (s : Server)
    → find m.session_id s.blob_sessions ≡ some own
    → (n : ℕ) × (n ≤ 2 * length rs + 4)
      × (run o n (creating m rs) s
          ≡ final (
              caught (
                after
                  (with_session m.session_id (create_blob_file (text "upload")) s)
                  (upload o m own rs))))
unfolding step
created_alone o m own rs s there =
    let call = created_call m.session_id own s there in
    elim (Option-cases (open_output s.file_system (upload_path s))) [
      | inl shut ↦ (
        2,
        omega arith,
        run-step o 1 (creating m rs) s (ap (next_phase (opened_phase m rs)) call)
            ∙ open_shut o m rs (next_id s) (upload_path s) (created m.session_id own s) own shut
            ∙ sym (ap (λ r. final (caught (after r (upload o m own rs)))) call),
      )
      | inr (fs, opens) ↦
          let (n, le, r) =
            receive_alone o m own rs (next_id s) (upload_path s) 0 (opened m.session_id own fs s)
              (opened-IsUsing m own s fs there opens) in
          (
            suc (suc n),
            omega arith,
            run-step o (suc n) (creating m rs) s (ap (next_phase (opened_phase m rs)) call)
                ∙ run-step o n _ _ (
                    open_step-open_output m rs (next_id s) (upload_path s)
                      (created m.session_id own s) fs opens)
                ∙ r
                ∙ sym (ap (λ x. final (caught x)) (upload-open_output o m own rs s fs opens))
                ∙ sym (ap (λ x. final (caught (after x (upload o m own rs)))) call),
          )
    ]

try_alone :
    (o : OpenSsl) (m : PutMetadata) (rs : List PutStreamingRequest) (s : Server)
    → (n : ℕ) × (n ≤ 2 * length rs + 5)
      × (run o n (starting m rs) s ≡ final (caught (try_put o m rs s)))
unfolding run step try_put
try_alone o m rs s = elim (get_session_impl_cases m.session_id s.manager) [
  | inl (own, there, found) ↦
      let (n, le, r) = created_alone o m own rs s there in
      (suc n, omega arith, rw (found, run, step, try_put) r)
  | inr missing ↦ (1, omega arith, rw (missing, run, step, try_put) refl)
]

-- Where no other call runs between its steps, the state machine of an upload comes, after at most
-- two steps for a request and five more, to where `put` ends: with the same answer, the same
-- exception or the same use of a session that is gone, and with the server that `put` leaves.
pub run-put :
    (o : OpenSsl) (rs : List PutStreamingRequest) (s : Server)
    → (n : ℕ) × (n ≤ 2 * length rs + 5) × (run o n (accept rs) s ≡ final (put o rs s))
unfolding run accept put
run-put o [] s = (0, omega arith, refl)
run-put o (chunk bytes ∷ rs) s = (0, omega arith, refl)
run-put o (not_set ∷ rs) s = (0, omega arith, refl)
run-put o (metadata m ∷ rs) s = elim (Bool-cases (check_api_version m.api_version)) [
  | inl old ↦ let (n, le, r) = try_alone o m rs s in (n, omega arith, rw old r)
  | inr new ↦ (0, omega arith, rw new refl)
]
