-- ===== src/Service.antt =====
-- blob_relay/service_configuration.h, blob_relay/service_impl.{h,cpp} and blob_relay/service.{h,cpp}:
-- what the library starts from its configuration. The smoke test support is left out.
pub mod History
pub mod Facade
pub mod RoundTrip
use data_relay_grpc.Base.{ℕ, Bool, List, [], ◌∷◌, ◌++◌, Option, if◌then◌else◌}
use data_relay_grpc.FileSystem.{FilePath, FileSystem}
use data_relay_grpc.TagGenerator.{OpenSsl}
use data_relay_grpc.Local.{Copy, LocalService, local_service}
use data_relay_grpc.Streaming.{StreamingService, streaming_service}
use data_relay_grpc.Manager
use data_relay_grpc.Manager.{Api, Manager, Server, blob_session_manager}
use data_relay_grpc.Outcome.{Outcome, returns, M, after, pure, ◌>>=◌}

pub record ServiceConfiguration : Type 0 where
  pub session_store : FilePath
  pub session_quota_size : ℕ
  pub local_enabled : Bool
  pub local_upload_copy_file : Bool
  pub stream_chunk_size : ℕ
  pub dev_accept_mock_tag : Bool

-- a gRPC service, with its handlers
pub data Service : Type 0 where
  streaming : StreamingService → Service
  local : LocalService → Service

pub record BlobRelayServiceImpl : Type 0 where
  pub session_manager : Manager
  pub services : List Service

-- the services that the configuration asks for
unfoldable pub services_of : Api → OpenSsl → Copy → ServiceConfiguration → List Service
services_of api o copy conf =
    streaming (streaming_service api o conf.stream_chunk_size)
    ∷ (if conf.local_enabled then local (local_service api copy) ∷ [] else [])

-- the constructor
unfoldable pub blob_relay_service_impl :
    Api → OpenSsl → Copy → ServiceConfiguration → M FileSystem BlobRelayServiceImpl
blob_relay_service_impl api o copy conf =
    blob_session_manager o conf.session_store conf.session_quota_size conf.dev_accept_mock_tag
    >>= λ manager.
        pure (record { session_manager = manager; services = services_of api o copy conf })

-- `create_session`
unfoldable pub create_session : Option ℕ → M Server ℕ
create_session transaction_id = Manager.create_session transaction_id
