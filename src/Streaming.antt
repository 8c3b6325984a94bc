-- ===== src/Streaming.antt =====
-- blob_relay/streaming_service.h: the class of the handlers of streams. A reference to the session
-- manager leads to that of the server.
use data_relay_grpc.Base.{ℕ, List, ◌==◌, if◌then◌else◌}
use data_relay_grpc.Text.{Text, text}
use data_relay_grpc.TagGenerator.{OpenSsl}
use data_relay_grpc.Manager.{Api, Server}
use data_relay_grpc.Outcome.{M}
use data_relay_grpc.Relay.{GetStreamingRequest, PutStreamingRequest}
use data_relay_grpc.Download.{session_storage_id, GetResult, get}
use data_relay_grpc.Upload.{PutResult, put}

pub record StreamingService : Type 0 where
  pub get : Server → GetStreamingRequest → GetResult
  pub put : List PutStreamingRequest → M Server PutResult

unfoldable pub streaming_service : Api → OpenSsl → (chunk_size : ℕ) → StreamingService
streaming_service api o chunk_size = record { get = get api chunk_size; put = put o }

-- `storage_name`
unfoldable pub storage_name : ℕ → Text
storage_name sid =
    if sid == session_storage_id then text "session storage" else text "limestone blob store"
