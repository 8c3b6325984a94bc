-- ===== src/Readers.antt =====
-- blob_relay/streaming_service.cpp, `Get`, as a state machine: each step is one operation on what
-- handlers and other calls share (a method that holds a mutex, a use of a reference to a session,
-- an operation on a file), with what the handler then does by itself. Between two steps other calls
-- may run, so that each step finds a server of its own.
pub mod Stream
pub mod Reaching
pub mod Alone
pub mod Refusals
pub mod Protocol
pub mod Seen
pub mod Fitting
pub mod Checked
pub mod Steady
pub mod Completion
pub mod Removal
use data_relay_grpc.Base.{
  ℕ, zero, suc, ◌<◌, Bool, true, false, not, ◌||◌, List, [], ◌∷◌, ◌++◌, Option, none, some, ◌==◌,
  ltb, if◌then◌else◌, map, take, drop, length, flatten,
}
use data_relay_grpc.OrderedMap
use data_relay_grpc.Text.{text}
use data_relay_grpc.FileSystem.{FilePath, node, exists, size_of, content_of, is_empty}
use data_relay_grpc.Session.{SessionImpl, find}
use data_relay_grpc.Manager.{Api, Manager, Server, get_session_impl, get_tag}
use data_relay_grpc.Outcome.{filesystem_error}
use data_relay_grpc.Relay.{
  ok, unavailable, invalid_argument, not_found, internal, what, Status, GetStreamingRequest,
  GetStreamingResponse, check_api_version, api_version_error_message, fails,
}
use data_relay_grpc.Download.{
  session_storage_id, limestone_blob_store, Flow, goes, ends, raises, lost, calls, Origin,
  find_origin, same_transaction, no_blob, path_or_end, check_tag,
}

-- What a step finds: the server, and what a stream still reads of a file that has been removed
-- since it was opened.
pub record Sight : Type 0 where
  pub server : Server
  pub unlinked : FilePath → List ℕ

-- where a handler stands, with its local variables; a reference to a session is the id that it was
-- looked up by
pub data Phase : Type 0 where
  looking : Phase
  checking : Origin → (transaction_id : ℕ) → Phase
  comparing : Origin → (transaction_id : ℕ) → Phase
  locating : Origin → Phase
  finding : Origin → Phase
  expecting : Origin → FilePath → Phase
  tagging : Origin → FilePath → Phase
  probing : FilePath → Phase
  sizing : FilePath → Phase
  opening : FilePath → (blob_size : ℕ) → Phase
  reading : FilePath → (blob_size : ℕ) → (chunks : List (List ℕ)) → (eof : Bool) → Phase
  ended : Status → List GetStreamingResponse → Phase
  crashed : Phase

-- the phase after a part of the handler, within its `try`
abbrev pub go : {A : Type 0} → Flow A → (A → Phase) → Phase
go (goes a) k = k a
go (ends status) k = ended status []
go (raises x) k = ended (record { code = internal; message = what x }) []
go lost k = crashed

-- up to the `try`
unfoldable pub accept : GetStreamingRequest → Phase
accept r =
    if not (check_api_version r.api_version)
    then ended (fails unavailable (api_version_error_message r.api_version)) []
    else looking

-- a use of the reference to a session
abbrev pub through : {A : Type 0} → ℕ → Server → (SessionImpl → Flow A) → Flow A
through sid s use_of = elim (OrderedMap.find sid s.blob_sessions) [
  | none ↦ lost
  | some impl ↦ use_of impl
]

-- the session that is found for a transaction is looked at first
abbrev pub after_origin : Origin → Phase
after_origin o = elim o.transaction [
  | none ↦ locating o
  | some tid ↦ if o.raw then locating o else checking o tid
]

unfoldable pub locate_step : Api → GetStreamingRequest → Origin → Server → Phase
locate_step api r o s =
    if r.blob.storage_id == session_storage_id
    then (if o.raw
        then ended no_blob []
        else go (calls (get_session_impl o.session s.manager)) (λ (_ : SessionImpl). finding o))
    else if r.blob.storage_id == limestone_blob_store
    then (if exists s.file_system (api.get_path r.blob.object_id)
        then expecting o (api.get_path r.blob.object_id)
        else ended no_blob [])
    else ended
        (fails invalid_argument
          (text "storage_id is neither session store nor limestone blob store"))
        []

unfoldable pub expect_step : Api → GetStreamingRequest → Origin → FilePath → Server → Phase
expect_step api r o path s = elim o.transaction [
  | some tid ↦
      go (check_tag s.manager (api.get_tag r.blob.object_id tid) r.blob.tag)
        (λ (_ : Unit {0}). probing path)
  | none ↦ go (calls (get_session_impl o.session s.manager)) (λ (_ : SessionImpl). tagging o path)
]

-- `file_size`, and the metadata
unfoldable pub size_step : FilePath → Server → Phase
size_step path s = elim (size_of (node s.file_system path)) [
  | none ↦ ended (record { code = internal; message = what (filesystem_error path) }) []
  | some size ↦ opening path size
]

abbrev pub finished : ℕ → List (List ℕ) → Phase
finished size cs =
    ended (fails ok (text ""))
      (GetStreamingResponse.metadata size ∷ map GetStreamingResponse.chunk cs)

-- what an open stream reads from
abbrev pub stream_content : FilePath → Sight → List ℕ
stream_content path v =
    if exists v.server.file_system path
    then content_of (node v.server.file_system path)
    else v.unlinked path

-- A stream that could not be opened has failed, and a read that comes to the end of the file leaves
-- it failed (`eof`): the next read gives nothing.
unfoldable pub read_step : (chunk_size : ℕ) → FilePath → ℕ → List (List ℕ) → Bool → Sight → Phase
read_step c path size cs true v = finished size cs
read_step c path size cs false v =
    let got = take c (drop (length (flatten cs)) (stream_content path v)) in
    if is_empty got
    then finished size cs
    else reading path size (cs ++ got ∷ []) (ltb (length got) c)

unfoldable pub step : Api → (chunk_size : ℕ) → GetStreamingRequest → Phase → Sight → Phase
step api c r looking v = go (find_origin v.server.manager r.context_id) after_origin
step api c r (checking o tid) v =
    go (calls (get_session_impl o.session v.server.manager)) (λ (_ : SessionImpl). comparing o tid)
step api c r (comparing o tid) v =
    go (through o.session v.server (same_transaction tid)) (λ (_ : Unit {0}). locating o)
step api c r (locating o) v = locate_step api r o v.server
step api c r (finding o) v =
    go (through o.session v.server (λ impl. path_or_end (find r.blob.object_id impl))) (expecting o)
step api c r (expecting o path) v = expect_step api r o path v.server
step api c r (tagging o path) v =
    go
      (through o.session v.server
        (λ impl. check_tag v.server.manager (get_tag api r.blob.object_id impl) r.blob.tag))
      (λ (_ : Unit {0}). probing path)
step api c r (probing path) v =
    if exists v.server.file_system path
    then sizing path
    else ended (fails not_found (text "an error occurred while reading the blob file")) []
step api c r (sizing path) v = size_step path v.server
step api c r (opening path size) v = reading path size [] (not (exists v.server.file_system path))
step api c r (reading path size cs eof) v = read_step c path size cs eof v
step api c r (ended status rs) v = ended status rs
step api c r crashed v = crashed

-- the phases of a handler whose steps find the given servers
unfoldable pub walk : Api → (chunk_size : ℕ) → GetStreamingRequest → Phase → List Sight → Phase
walk api c r p [] = p
walk api c r p (v ∷ vs) = walk api c r (step api c r p v) vs
