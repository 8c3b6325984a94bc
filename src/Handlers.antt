-- ===== src/Handlers.antt =====
-- blob_relay/streaming_service.cpp, `Put`, as a state machine: each step is one operation on what
-- handlers and other calls share (a method that holds a mutex, an operation on a file), with what
-- the handler then does by itself. Between two steps of a handler other calls may run. A write
-- goes to the file that was opened: where that file has been removed, it shows nowhere.
pub mod Loop
pub mod Alone
pub mod System
pub mod Sharing
pub mod Apart
pub mod Passing
pub mod Dangling
pub mod Ending
pub mod Sparing
pub mod Settling
pub mod Quiet
pub mod Isolation
use data_relay_grpc.Base.{
  ℕ, zero, suc, ◌+◌, ◌%◌, Bool, true, false, List, [], ◌∷◌, Option, none, some, if◌then◌else◌,
  length,
}
use data_relay_grpc.OrderedMap.{find}
use data_relay_grpc.Text.{text}
use data_relay_grpc.FileSystem.{FilePath, exists, open_output, remove}
use data_relay_grpc.TagGenerator.{OpenSsl}
use data_relay_grpc.SessionStore.{word}
use data_relay_grpc.Session.{SessionImpl, create_blob_file, reserve_session_store, delete_blob_file}
use data_relay_grpc.Manager.{Server, get_session_impl, compute_tag, with_session}
use data_relay_grpc.Outcome.{
  Exception, filesystem_error, is_out_of_range, Outcome, returns, throws, undefined,
}
use data_relay_grpc.Relay.{
  ok, unavailable, invalid_argument, not_found, failed_precondition, what, PutMetadata,
  PutStreamingRequest, metadata, chunk, not_set, check_api_version, api_version_error_message,
  fails,
}
use data_relay_grpc.Download.{session_storage_id}
use data_relay_grpc.Upload.{PutResult, refused, write, exhausted, size_matches}

-- where a handler stands, with its local variables; its reference to the session is the id in the
-- metadata
pub data Phase : Type 0 where
  starting : PutMetadata → List PutStreamingRequest → Phase
  creating : PutMetadata → List PutStreamingRequest → Phase
  opening : PutMetadata → List PutStreamingRequest → (blob_id : ℕ) → FilePath → Phase
  reading :
      PutMetadata → List PutStreamingRequest → (blob_id : ℕ) → FilePath → (total_size : ℕ) → Phase
  writing :
      PutMetadata
      → List PutStreamingRequest
      → (blob_id : ℕ) → FilePath
      → (total_size : ℕ) → (bytes : List ℕ) → Phase
  exhausting : PutMetadata → (blob_id : ℕ) → Phase
  discarding : FilePath → Phase
  tagging : PutMetadata → (blob_id : ℕ) → Phase
  ended : PutResult → Phase
  thrown : Exception → Phase
  crashed : Phase

-- `catch (std::out_of_range &)`
abbrev pub raised : Exception → Phase
raised x =
    if is_out_of_range x
    then ended (refused (record { code = not_found; message = what x }))
    else thrown x

-- the phase after a call
abbrev pub next_phase : {A : Type 0} → (A → Phase) → Outcome A × Server → Phase × Server
next_phase k (returns a, s) = (k a, s)
next_phase k (throws x, s) = (raised x, s)
next_phase k (undefined, s) = (crashed, s)

abbrev pub opened_phase : PutMetadata → List PutStreamingRequest → ℕ × FilePath → Phase
opened_phase m rs (bid, path) = opening m rs bid path

abbrev pub reserved_phase :
    PutMetadata → List PutStreamingRequest → ℕ → FilePath → ℕ → List ℕ → Bool → Phase
reserved_phase m rs bid path total bytes true = writing m rs bid path total bytes
reserved_phase m rs bid path total bytes false = exhausting m bid

-- the first request, up to the `try`
unfoldable pub accept : List PutStreamingRequest → Phase
accept [] = ended (refused (fails invalid_argument (text "no request")))
accept (chunk bytes ∷ rs) =
    ended (refused (fails invalid_argument (text "the first request is not metadata")))
accept (not_set ∷ rs) =
    ended (refused (fails invalid_argument (text "the first request is not metadata")))
accept (metadata m ∷ rs) =
    if check_api_version m.api_version
    then starting m rs
    else ended (refused (fails unavailable (api_version_error_message m.api_version)))

-- a write to the open stream
unfoldable pub write_stream : FilePath → List ℕ → Server → Server
write_stream path bytes s = if exists s.file_system path then write path bytes s else s

abbrev pub answered : ℕ → ℕ → Phase
answered bid tag = ended (record {
  status = fails ok (text "");
  blob = some (record { storage_id = session_storage_id; object_id = bid; tag = tag });
})

-- `compute_tag` through the reference to the session
unfoldable pub tag_step : OpenSsl → PutMetadata → (blob_id : ℕ) → Server → Phase × Server
tag_step o m bid s = elim (find m.session_id s.blob_sessions) [
  | none ↦ (crashed, s)
  | some impl ↦ next_phase (answered bid) (compute_tag o bid impl s.manager, s)
]

unfoldable pub open_step :
    PutMetadata → List PutStreamingRequest → (blob_id : ℕ) → FilePath → Server → Phase × Server
open_step m rs bid path s = elim (open_output s.file_system path) [
  | none ↦ (
    ended (refused (fails failed_precondition (text "cannot open the file to write the blob to"))),
    s,
  )
  | some fs ↦ (reading m rs bid path 0, record s { file_system = fs })
]

unfoldable pub discard_step : FilePath → Server → Phase × Server
discard_step path s = elim (remove s.file_system path) [
  | none ↦ (thrown (filesystem_error path), s)
  | some fs ↦ (
    ended (
        refused (
          fails invalid_argument
            (text "the size in the metadata does not match the size of the sent blob"))),
    record s { file_system = fs },
  )
]

unfoldable pub step : OpenSsl → Phase → Server → Phase × Server
step o (starting m rs) s =
    next_phase (λ (_ : SessionImpl). creating m rs) (get_session_impl m.session_id s.manager, s)
step o (creating m rs) s =
    next_phase (opened_phase m rs) (with_session m.session_id (create_blob_file (text "upload")) s)
step o (opening m rs bid path) s = open_step m rs bid path s
step o (reading m [] bid path total) s =
    (if size_matches m.blob_size total then tagging m bid else discarding path, s)
step o (reading m (chunk bytes ∷ rs) bid path total) s =
    next_phase (reserved_phase m rs bid path total bytes)
      (with_session m.session_id (reserve_session_store bid (length bytes)) s)
step o (reading m (metadata _ ∷ rs) bid path total) s =
    (ended (refused (fails invalid_argument (text "A subsequent requests is not chunk"))), s)
step o (reading m (not_set ∷ rs) bid path total) s =
    (ended (refused (fails invalid_argument (text "A subsequent requests is not chunk"))), s)
step o (writing m rs bid path total bytes) s =
    (reading m rs bid path ((total + length bytes) % word), write_stream path bytes s)
step o (exhausting m bid) s =
    next_phase (λ (_ : Unit {0}). ended (refused exhausted))
      (with_session m.session_id (delete_blob_file bid) s)
step o (discarding path) s = discard_step path s
step o (tagging m bid) s = tag_step o m bid s
step o (ended r) s = (ended r, s)
step o (thrown x) s = (thrown x, s)
step o crashed s = (crashed, s)

-- `n` steps with nothing between them
unfoldable pub run : OpenSsl → ℕ → Phase → Server → Phase × Server
run o zero p s = (p, s)
run o (suc n) p s = run o n (step o p s).0 (step o p s).1
