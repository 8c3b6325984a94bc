-- ===== src/Service/History.antt =====
-- Every history of a service: calls of the library, and of its handlers by clients.
use data_relay_grpc.Base.{◌+◌, ◌<◌, ◌≡◌, ◌≢◌, subst, List, drop}
use data_relay_grpc.FileSystem.{FileSystem}
use data_relay_grpc.TagGenerator.{OpenSsl}
use data_relay_grpc.SessionStore.{word}
use data_relay_grpc.Manager
use data_relay_grpc.Manager.{Api, Manager, Server, blob_session_manager}
use data_relay_grpc.Manager.History.{IsSound, constructor-IsSound}
use data_relay_grpc.Outcome.{returns, after_returns}
use data_relay_grpc.Relay.{PutStreamingRequest}
use data_relay_grpc.Upload.{PutResult, put}
use data_relay_grpc.Upload.Steps.{EndsWell, AreSmall}
use data_relay_grpc.Upload.Soundness.{put-EndsWell}
use data_relay_grpc.Local.{Copy, PutLocalRequest, put_local}
use data_relay_grpc.Local.Laws.{put_local-IsSound}
use data_relay_grpc.Service.{ServiceConfiguration, BlobRelayServiceImpl, blob_relay_service_impl}

-- One call. Downloads change nothing. The counter of BLOB ids does not wrap, a chunk cannot wrap
-- the sum, and an upload that throws what `Put` does not catch ends the history.
pub data Call (o : OpenSsl) (copy : Copy) (s : Server) : Server → Type 0 where
  calls : {t : Server} → Manager.History.Step s t → Call o copy s t
  uploads :
      (rs : List PutStreamingRequest) {r : PutResult} {t : Server}
      → s.blob_id + 1 < word
      → AreSmall s.store.quota (drop 1 rs)
      → put o rs s ≡ (returns r, t)
      → Call o copy s t
  uploads_local :
      (r : PutLocalRequest) → s.blob_id + 1 < word → Call o copy s (put_local copy r s).1

pub data Reach (o : OpenSsl) (copy : Copy) (s : Server) : Server → Type 0 where
  here : Reach o copy s s
  next : {t u : Server} → Reach o copy s t → Call o copy t u → Reach o copy s u

-- Every call keeps the registry and the books in order.
pub Call-IsSound :
    (o : OpenSsl) (copy : Copy) {s t : Server} → Call o copy s t → IsSound 0 s → IsSound 0 t
Call-IsSound o copy (calls c) v = Manager.History.Step-IsSound c v
Call-IsSound o copy {s} (uploads rs fits small e) v =
    subst EndsWell e (put-EndsWell o rs s v fits small)
Call-IsSound o copy {s} (uploads_local r fits) v = (put_local-IsSound copy s r fits v).0

-- From the start of a service whose quota is set and fits in 64 bits, in every history of uploads,
-- local uploads and calls of the library that ends with this server, in which no id counter wraps,
-- no chunk and no size to reserve wraps the sum with the quota, each reservation is for a BLOB of
-- the session, each call that adds a BLOB or reserves is on a session that is there, each call
-- that removes BLOBs or ends a session returns, and no upload ends in an exception that is not
-- caught: the registry of sessions and transactions is in order; the usage counter is the sum of
-- what all BLOBs of all sessions have reserved, and within the quota; and no two sessions have a
-- BLOB id in common.
pub service-IsSound :
    (api : Api) (o : OpenSsl) (copy : Copy) (conf : ServiceConfiguration) (fs fs' : FileSystem)
    (impl : BlobRelayServiceImpl) {s : Server}
    → conf.session_quota_size ≢ 0
    → conf.session_quota_size < word
    → blob_relay_service_impl api o copy conf fs ≡ (returns impl, fs')
    → Reach o copy (record { manager = impl.session_manager; file_system = fs' }) s
    → IsSound 0 s
unfolding blob_relay_service_impl
service-IsSound api o copy conf fs fs' impl set small e here =
    let (m, g, made, rest) =
      after_returns
        (blob_session_manager o conf.session_store conf.session_quota_size conf.dev_accept_mock_tag
          fs)
        _ e in
    let v =
      constructor-IsSound o conf.session_store conf.session_quota_size conf.dev_accept_mock_tag fs g
        m set small made in
    let same : m ≡ impl.session_manager = cc in
    subst (λ (x : Manager). IsSound 0 (record { manager = x; file_system = fs' })) same
      (record { registered = v.registered; booked = v.booked })
service-IsSound api o copy conf fs fs' impl set small e (next r st) =
    Call-IsSound o copy st (service-IsSound api o copy conf fs fs' impl set small e r)
