-- ===== src/Upload.antt =====
-- blob_relay/streaming_service.{h,cpp}, `Put`: the upload of a BLOB. The handler runs here with no
-- other call between its steps; a request list that ends is a `Read` that gives false.
pub mod Stream
pub mod Chunks
pub mod Storage
pub mod RoundTrip
pub mod Refusal
pub mod Rejection
pub mod Steps
pub mod Soundness
pub mod Unlimited
use mathlib.Core.Option
use data_relay_grpc.Base.{
  ℕ, ◌+◌, ◌%◌, Bool, true, false, not, List, [], ◌∷◌, Option, none, some, ◌==◌, if◌then◌else◌,
  length,
}
use data_relay_grpc.Text.{Text, text}
use data_relay_grpc.FileSystem.{FilePath, FileSystem, open_output, append_output, remove}
use data_relay_grpc.TagGenerator.{OpenSsl}
use data_relay_grpc.SessionStore.{word}
use data_relay_grpc.Session.{SessionImpl, create_blob_file, reserve_session_store, delete_blob_file}
use data_relay_grpc.Manager.{Server, get_session_impl, compute_tag, with_session}
use data_relay_grpc.Outcome.{
  Exception, filesystem_error, is_out_of_range, Outcome, returns, throws, undefined, M, after,
}
use data_relay_grpc.Relay.{
  ok, unavailable, invalid_argument, not_found, failed_precondition, resource_exhausted, what,
  Status, BlobReference, PutMetadata, PutStreamingRequest, metadata, chunk, not_set,
  check_api_version, api_version_error_message, fails,
}
use data_relay_grpc.Download.{session_storage_id}

-- the status, and the reference where the response is filled
pub record PutResult : Type 0 where
  pub status : Status
  pub blob : Option BlobReference

abbrev pub refused : Status → PutResult
refused s = record { status = s; blob = none }

-- how the loop over the chunks ends: with the total size, or with a return from the handler
pub data Received : Type 0 where
  complete : (total_size : ℕ) → Received
  stopped : Status → Received

abbrev pub write : FilePath → List ℕ → Server → Server
write path bytes s = record s { file_system = append_output s.file_system path bytes }

abbrev pub exhausted : Status
exhausted = fails resource_exhausted (text "session storage usage has reached its limit")

-- the branch of the loop where the quota is exhausted
unfoldable pub give_up : (session_id blob_id : ℕ) → M Server Received
give_up session_id blob_id s =
    after (with_session session_id (delete_blob_file blob_id) s)
      (λ _ t. (returns (stopped exhausted), t))

-- `while (reader->Read(&request))`
unfoldable pub receive :
    (session_id blob_id : ℕ)
    → FilePath
    → List PutStreamingRequest
    → (total_size : ℕ) → M Server Received
receive sid bid path [] total s = (returns (complete total), s)
receive sid bid path (chunk bytes ∷ rest) total s =
    after (with_session sid (reserve_session_store bid (length bytes)) s) (λ reserved t.
      if reserved
      then receive sid bid path rest ((total + length bytes) % word) (write path bytes t)
      else give_up sid bid t)
receive sid bid path (metadata m ∷ rest) total s =
    (returns (stopped (fails invalid_argument (text "A subsequent requests is not chunk"))), s)
receive sid bid path (not_set ∷ rest) total s =
    (returns (stopped (fails invalid_argument (text "A subsequent requests is not chunk"))), s)

-- the announced size, if any, is the size that has come
unfoldable pub size_matches : Option ℕ → ℕ → Bool
size_matches none total = true
size_matches (some size) total = size == total

-- the part of the handler that fills the response
unfoldable pub respond : OpenSsl → SessionImpl → (blob_id : ℕ) → M Server PutResult
respond o impl bid s = elim (compute_tag o bid impl s.manager) [
  | throws x ↦ (throws x, s)
  | undefined ↦ (undefined, s)
  | returns tag ↦ (
    returns (record {
      status = fails ok (text "");
      blob = some (record { storage_id = session_storage_id; object_id = bid; tag = tag });
    }),
    s,
  )
]

-- the removal of the file where the sizes differ
unfoldable pub discard : FilePath → M Server PutResult
discard path s = elim (remove s.file_system path) [
  | none ↦ (throws (filesystem_error path), s)
  | some fs ↦ (
    returns (
        refused (
          fails invalid_argument
            (text "the size in the metadata does not match the size of the sent blob"))),
    record s { file_system = fs },
  )
]

unfoldable pub conclude :
    OpenSsl → Option ℕ → SessionImpl → (blob_id : ℕ) → FilePath → Received → M Server PutResult
conclude o blob_size impl bid path (stopped status) s = (returns (refused status), s)
conclude o blob_size impl bid path (complete total) s =
    if size_matches blob_size total then respond o impl bid s else discard path s

-- from the open file on
unfoldable pub upload :
    OpenSsl
    → PutMetadata
    → SessionImpl
    → List PutStreamingRequest
    → ℕ × FilePath
    → M Server PutResult
upload o meta impl chunks (bid, path) s = elim (open_output s.file_system path) [
  | none ↦ (
    returns
        (refused (fails failed_precondition (text "cannot open the file to write the blob to"))),
    s,
  )
  | some fs ↦
      after (receive meta.session_id bid path chunks 0 (record s { file_system = fs }))
        (conclude o meta.blob_size impl bid path)
]

-- the `try` block; `get_session_impl` throws where there is no session
unfoldable pub try_put : OpenSsl → PutMetadata → List PutStreamingRequest → M Server PutResult
try_put o meta chunks s = elim (get_session_impl meta.session_id s.manager) [
  | throws x ↦ (throws x, s)
  | undefined ↦ (undefined, s)
  | returns impl ↦
      after (with_session meta.session_id (create_blob_file (text "upload")) s)
        (upload o meta impl chunks)
]

-- `catch (std::out_of_range &)`; any other exception leaves the handler
abbrev pub caught : Outcome PutResult × Server → Outcome PutResult × Server
caught (returns r, s) = (returns r, s)
caught (undefined, s) = (undefined, s)
caught (throws x, s) =
    if is_out_of_range x
    then (returns (refused (record { code = not_found; message = what x })), s)
    else (throws x, s)

-- `Put`
unfoldable pub put : OpenSsl → List PutStreamingRequest → M Server PutResult
put o [] s = (returns (refused (fails invalid_argument (text "no request"))), s)
put o (chunk bytes ∷ rest) s =
    (returns (refused (fails invalid_argument (text "the first request is not metadata"))), s)
put o (not_set ∷ rest) s =
    (returns (refused (fails invalid_argument (text "the first request is not metadata"))), s)
put o (metadata m ∷ rest) s =
    if check_api_version m.api_version
    then caught (try_put o m rest s)
    else (returns (refused (fails unavailable (api_version_error_message m.api_version))), s)
