-- ===== src/Service/Facade.antt =====
-- common/service.h, blob_relay/service.h and blob_relay/service.cpp: the service as its users hold
-- it.
use data_relay_grpc.Base.{ℕ, List, Option}
use data_relay_grpc.FileSystem.{FileSystem}
use data_relay_grpc.TagGenerator.{OpenSsl}
use data_relay_grpc.Manager.{Api, Manager, Server}
use data_relay_grpc.Outcome.{M, ◌>>=◌, pure}
use data_relay_grpc.Local.{Copy}
use data_relay_grpc.Service.{
  ServiceConfiguration, Service, BlobRelayServiceImpl, blob_relay_service_impl, create_session,
}

-- `blob_relay_service_impl::services` and `get_session_manager`
unfoldable pub services_of_impl : BlobRelayServiceImpl → List Service
services_of_impl impl = impl.services

unfoldable pub session_manager_of_impl : BlobRelayServiceImpl → Manager
session_manager_of_impl impl = impl.session_manager

-- the base class `service`
pub record ServiceBase : Type 0 where
  pub services : List Service
  pub get_session_manager : Manager

-- `blob_relay_service`, with the two methods that it overrides
pub record BlobRelayService : Type 0 where
  pub base : ServiceBase
  pub create_session : Option ℕ → M Server ℕ

unfoldable pub blob_relay_service :
    Api → OpenSsl → Copy → ServiceConfiguration → M FileSystem BlobRelayService
blob_relay_service api o copy conf = blob_relay_service_impl api o copy conf >>= λ impl.
    pure (record {
      base = record {
        services = services_of_impl impl;
        get_session_manager = session_manager_of_impl impl;
      };
      create_session = create_session;
    })
