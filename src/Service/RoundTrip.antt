-- ===== src/Service/RoundTrip.antt =====
-- A service from its start: a session, an upload to it, and the download of what it has stored.
use data_relay_grpc.Base.{
  Bool, ℕ, ◌+◌, ◌≤◌, ◌<◌, ◌≡◌, ◌≢◌, refl, sym, ap, ◌∙◌, subst, if◌then◌else◌, List, [], ◌∷◌, Option,
  some, arith, map, length, flatten, true,
}
use data_relay_grpc.Text.{text}
use data_relay_grpc.FileSystem.{FilePath, FileSystem, open_output}
use data_relay_grpc.TagGenerator.{OpenSsl}
use data_relay_grpc.SessionStore.{SessionStore, word, blob_session_store}
use data_relay_grpc.SessionStore.Startup.{blob_session_store_returns}
use data_relay_grpc.Session.{SessionImpl}
use data_relay_grpc.Manager.{
  Api, Manager, Server, blob_session_manager, get_session_impl, compute_tag, get_tag,
}
use data_relay_grpc.Manager
use data_relay_grpc.Manager.Lookup.{create_session_lookup}
use data_relay_grpc.Manager.History.{creates, IsSound, Step-IsSound, constructor-IsSound}
use data_relay_grpc.Outcome.{Outcome, returns, after_returns}
use data_relay_grpc.Relay.{
  ok, session_id, GetStreamingResponse, PutStreamingRequest, metadata, api_version, fails,
}
use data_relay_grpc.Download.{session_storage_id, ended}
use data_relay_grpc.Download.Chunks.{IsSplit}
use data_relay_grpc.Upload.{size_matches}
use data_relay_grpc.Upload.Storage.{next_id, upload_path}
use data_relay_grpc.Upload.RoundTrip.{put-get}
use data_relay_grpc.Service.{
  ServiceConfiguration, streaming, local, BlobRelayServiceImpl, services_of,
  blob_relay_service_impl, create_session,
}
use data_relay_grpc.Local.{Copy, local_service}
use data_relay_grpc.Streaming.{StreamingService, streaming_service}
use data_relay_grpc.Service.Facade.{
  BlobRelayService, blob_relay_service, services_of_impl, session_manager_of_impl,
}

-- what the constructor leaves in the manager
started :
    (o : OpenSsl) (dir : FilePath) (quota : ℕ) (dev : Bool) (fs fs' : FileSystem) (m : Manager)
    → blob_session_manager o dir quota dev fs ≡ (returns m, fs')
    → (m.store.quota ≡ quota) × (m.store.current_size ≡ 0) × (m.blob_id ≡ 0) × (m.session_id ≡ 0)
unfolding blob_session_manager
started o dir quota dev fs fs' m e =
    let (store, g, made, rest) = after_returns (blob_session_store dir quota fs) _ e in
    let (_, _, _, _, is) = blob_session_store_returns dir quota fs g store made in
    (ground arith, ground arith, ground arith, ground arith)

-- the session that is made first
abbrev pub first_session : Option ℕ → SessionImpl
first_session t = record { session_id = 1; transaction_id = t; blobs = [] }

first_id :
    (s : Server) (t : Option ℕ) (id : ℕ)
    → s.session_id ≡ 0
    → (Manager.create_session t s).0 ≡ returns id
    → id ≡ 1
unfolding Manager.create_session
first_id s t id zero_id e = ground arith

first_lookup :
    (s : Server) (t : Option ℕ)
    → s.session_id ≡ 0
    → IsSound 0 s
    → get_session_impl 1 (Manager.create_session t s).1.manager ≡ returns (first_session t)
first_lookup s t zero_id v =
    let (id, e, _, there, _, _) = create_session_lookup s t (omega (arith, zero_id)) v.registered in
    let same : id ≡ 1 = first_id s t id zero_id e in
    subst
      (λ k.
        get_session_impl k (Manager.create_session t s).1.manager
        ≡ returns (record { session_id = k; transaction_id = t; blobs = [] }))
      same there

-- the server after the first session is made
abbrev pub with_first : BlobRelayService → FileSystem → Option ℕ → Server
with_first service fs t =
    (service.create_session t
      (record { manager = service.base.get_session_manager; file_system = fs })).1

-- the service of an implementation
abbrev pub service_of : BlobRelayServiceImpl → BlobRelayService
service_of impl = record {
  base = record {
    services = services_of_impl impl;
    get_session_manager = session_manager_of_impl impl;
  };
  create_session = create_session;
}

service_made :
    (api : Api) (o : OpenSsl) (copy : Copy) (conf : ServiceConfiguration) (fs fs' : FileSystem)
    (service : BlobRelayService)
    → blob_relay_service api o copy conf fs ≡ (returns service, fs')
    → (impl : BlobRelayServiceImpl) × (blob_relay_service_impl api o copy conf fs
        ≡ (returns impl, fs'))
      × (service_of impl ≡ service)
unfolding blob_relay_service
service_made api o copy conf fs fs' service e =
    let (impl, g, made, rest) = after_returns (blob_relay_service_impl api o copy conf fs) _ e in
    let there : g ≡ fs' = cc in
    (
      impl,
      made
          ∙ ap (λ x. let r : Outcome BlobRelayServiceImpl × FileSystem = (returns impl, x) in r)
              there,
      cc,
    )

started_impl :
    (api : Api) (o : OpenSsl) (copy : Copy) (conf : ServiceConfiguration) (fs fs' : FileSystem)
    (impl : BlobRelayServiceImpl)
    → blob_relay_service_impl api o copy conf fs ≡ (returns impl, fs')
    → blob_session_manager o conf.session_store conf.session_quota_size conf.dev_accept_mock_tag fs
      ≡ (returns impl.session_manager, fs')
unfolding blob_relay_service_impl
started_impl api o copy conf fs fs' impl e =
    let (m, g, made, rest) =
      after_returns
        (blob_session_manager o conf.session_store conf.session_quota_size conf.dev_accept_mock_tag
          fs)
        _ e in
    let same : m ≡ impl.session_manager = cc in let there : g ≡ fs' = cc in cc

-- The services are those that the configuration asks for.
listed_services :
    (api : Api) (o : OpenSsl) (copy : Copy) (conf : ServiceConfiguration) (fs fs' : FileSystem)
    (service : BlobRelayService)
    → blob_relay_service api o copy conf fs ≡ (returns service, fs')
    → service.base.services ≡ services_of api o copy conf
unfolding blob_relay_service_impl services_of_impl
listed_services api o copy conf fs fs' service e =
    let (impl, e', is) = service_made api o copy conf fs fs' service e in
    let (m, g, made, rest) =
      after_returns
        (blob_session_manager o conf.session_store conf.session_quota_size conf.dev_accept_mock_tag
          fs)
        _ e' in
    let same : services_of api o copy conf ≡ impl.services = cc in
    sym (same ∙ ap (λ (x : BlobRelayService). x.base.services) is)

create_session-store :
    (t : Option ℕ) (s : Server)
    → ((Manager.create_session t s).1.store ≡ s.store)
      × ((Manager.create_session t s).1.blob_id ≡ s.blob_id)
unfolding Manager.create_session
create_session-store t s = (refl, refl)

-- the state after the first session is made
abbrev IsFirst : ServiceConfiguration → Option ℕ → Server → Type 0
IsFirst conf t s =
    IsSound 0 s
    × (s.blob_id ≡ 0)
    × (s.store.quota ≡ conf.session_quota_size)
    × (s.store.current_size ≡ 0)
    × (get_session_impl 1 s.manager ≡ returns (first_session t))

with_first-IsFirst :
    (api : Api) (o : OpenSsl) (copy : Copy) (conf : ServiceConfiguration) (fs fs' : FileSystem)
    (service : BlobRelayService) (t : Option ℕ)
    → conf.session_quota_size ≢ 0
    → conf.session_quota_size < word
    → blob_relay_service api o copy conf fs ≡ (returns service, fs')
    → IsFirst conf t (with_first service fs' t)
unfolding create_session session_manager_of_impl
with_first-IsFirst api o copy conf fs fs' service t set small e =
    let (impl, e', is) = service_made api o copy conf fs fs' service e in
    let made = started_impl api o copy conf fs fs' impl e' in
    let (quota, used, no_blob, no_session) =
      started o conf.session_store conf.session_quota_size conf.dev_accept_mock_tag fs fs'
        impl.session_manager made in
    let before : Server = record { manager = impl.session_manager; file_system = fs' } in
    let sound =
      constructor-IsSound o conf.session_store conf.session_quota_size conf.dev_accept_mock_tag fs
        fs' impl.session_manager set small made in
    let (same_store, same_blobs) = create_session-store t before in
    let first : IsFirst conf t (with_first (service_of impl) fs' t) = (
      Step-IsSound (creates t (omega (arith, no_session))) sound,
      same_blobs ∙ no_blob,
      ap (λ (x : SessionStore). x.quota) same_store ∙ quota,
      ap (λ (x : SessionStore). x.current_size) same_store ∙ used,
      first_lookup before t no_session sound,
    ) in
    subst (λ x. IsFirst conf t (with_first x fs' t)) is first

-- From the start of a service, with a quota and a chunk size that are not 0: the services are the
-- one of streams, and after it the one of local files if that is enabled. Where the first session
-- is made and its upload by the handlers of streams, whose bytes fit in the quota and have the
-- announced size, if any, has a file that opens and a tag that is computed, it is answered with OK
-- and a reference; and the download of that BLOB by the session, with the tag that the datastore
-- gives for it, with OK, the length of the bytes, and the bytes in order, in chunks of at most the
-- configured size. The quota with the length does not wrap.
pub service_delivers :
    (api : Api) (o : OpenSsl) (copy : Copy) (conf : ServiceConfiguration)
    (fs fs' opened : FileSystem) (service : BlobRelayService) (t : Option ℕ) (blob_size : Option ℕ)
    (cs : List (List ℕ)) (tag : ℕ)
    → conf.session_quota_size ≢ 0
    → conf.session_quota_size + length (flatten cs) < word
    → length (flatten cs) ≤ conf.session_quota_size
    → 0 < conf.stream_chunk_size
    → size_matches blob_size (length (flatten cs)) ≡ true
    → blob_relay_service api o copy conf fs ≡ (returns service, fs')
    → open_output (with_first service fs' t).file_system (upload_path (with_first service fs' t))
      ≡ some opened
    → compute_tag o
        (next_id (with_first service fs' t))
        (first_session t)
        (with_first service fs' t).manager
      ≡ returns tag
    → (handlers : StreamingService) × (service.base.services
        ≡ streaming handlers
          ∷ (if conf.local_enabled then local (local_service api copy) ∷ [] else []))
      × (u : Server) × (parts : List (List ℕ)) × (handlers.put
            (metadata (record { api_version = api_version; session_id = 1; blob_size = blob_size })
              ∷ map PutStreamingRequest.chunk cs)
            (with_first service fs' t)
          ≡ (
            returns (record {
              status = fails ok (text "");
              blob = some (record {
                storage_id = session_storage_id;
                object_id = next_id (with_first service fs' t);
                tag = tag;
              });
            }),
            u,
          ))
      × IsSplit conf.stream_chunk_size (flatten cs) parts
      × (handlers.get u (record {
        api_version = api_version;
        context_id = session_id 1;
        blob = record {
          storage_id = session_storage_id;
          object_id = next_id (with_first service fs' t);
          tag = get_tag api (next_id (with_first service fs' t)) (first_session t);
        };
      })
          ≡ ended (fails ok (text "")) (
              GetStreamingResponse.metadata (length (flatten cs))
              ∷ map GetStreamingResponse.chunk parts))
unfolding streaming_service services_of
service_delivers api o copy conf fs fs' opened service t blob_size cs tag set small room pos matches
      e opens tagged =
    let (sound, no_blob, quota, used, there) =
      with_first-IsFirst api o copy conf fs fs' service t set (omega arith) e in
    let listed = listed_services api o copy conf fs fs' service e in
    let (u, parts, stored, split, got) =
      put-get o api conf.stream_chunk_size (with_first service fs' t)
        (record { api_version = api_version; session_id = 1; blob_size = blob_size }) cs
        (first_session t) opened tag pos sound (omega (arith, no_blob)) (omega arith) there opens
        (omega (arith, quota)) (omega (arith, quota, used)) matches tagged in
    (streaming_service api o conf.stream_chunk_size, listed, u, parts, stored, split, got)
