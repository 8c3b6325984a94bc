-- ===== src/Relay.antt =====
-- What the services of the BLOB relay share: statuses, the messages of the protocol
-- (protos/data_relay_grpc/proto/blob_relay), and blob_relay/utils.h.
use data_relay_grpc.Base.{ℕ, ◌++◌, Bool, List, Option, ltb, not}
use data_relay_grpc.Text.{Text, text, to_string}
use data_relay_grpc.Outcome.{Exception}

-- the members of `grpc::StatusCode` that the services use
pub data StatusCode : Type 0 where
  ok unavailable invalid_argument permission_denied not_found : StatusCode
  internal failed_precondition resource_exhausted : StatusCode

-- an error message: a text of the source, or `what()` of an exception
pub data Message : Type 0 where
  says : Text → Message
  what : Exception → Message

pub record Status : Type 0 where
  pub code : StatusCode
  pub message : Message

-- blob_reference.proto
pub record BlobReference : Type 0 where
  pub storage_id : ℕ
  pub object_id : ℕ
  pub tag : ℕ

-- the `oneof context_id` of a request
pub data ContextId : Type 0 where
  session_id : ℕ → ContextId
  transaction_id : ℕ → ContextId
  not_set : ContextId

pub record GetStreamingRequest : Type 0 where
  pub api_version : ℕ
  pub context_id : ContextId
  pub blob : BlobReference

pub data GetStreamingResponse : Type 0 where
  metadata : (blob_size : ℕ) → GetStreamingResponse
  chunk : List ℕ → GetStreamingResponse

pub record PutMetadata : Type 0 where
  pub api_version : ℕ
  pub session_id : ℕ
  pub blob_size : Option ℕ

pub data PutStreamingRequest : Type 0 where
  metadata : PutMetadata → PutStreamingRequest
  chunk : List ℕ → PutStreamingRequest
  not_set : PutStreamingRequest

abbrev pub api_version : ℕ
api_version = 1

unfoldable pub check_api_version : ℕ → Bool
check_api_version version = not (ltb api_version version)

unfoldable pub api_version_error_message : ℕ → Text
api_version_error_message version =
    text "the requested API version "
    ++ to_string version
    ++ text " is not compatible with required version (less than or equal to "
    ++ to_string api_version
    ++ text ")"

abbrev pub fails : StatusCode → Text → Status
fails code t = record { code = code; message = says t }
