-- ===== src/Tests/Uploads.antt =====
-- The theorems on uploads and on histories of a service, at concrete inputs.
use data_relay_grpc.Base.{
  ℕ, ◌+◌, ◌≤◌, ◌<◌, ◌≡◌, ◌≢◌, refl, true, false, List, [], ◌∷◌, ◌++◌, Option, none, some, arith,
  map, length, flatten, if◌then◌else◌,
}
use data_relay_grpc.OrderedMap.{find}
use data_relay_grpc.Text.{text, to_string, decimal}
use data_relay_grpc.FileSystem.{
  FilePath, FilePath-discrete, regular, FileSystem, find_node, put_node, node, open_output,
}
use data_relay_grpc.TagGenerator
use data_relay_grpc.TagGenerator.{from_bytes}
use data_relay_grpc.SessionStore
use data_relay_grpc.SessionStore.{word}
use data_relay_grpc.Session.{Blob, SessionImpl}
use data_relay_grpc.Manager.{
  Server, create_session, get_session_impl, get_tag, compute_tag, generate_reference_tag,
}
use data_relay_grpc.Manager.History.{IsSound, creates}
use data_relay_grpc.Outcome.{returns}
use data_relay_grpc.Relay.{
  ok, invalid_argument, PutMetadata, PutStreamingRequest, metadata, GetStreamingResponse,
  session_id, fails,
}
use data_relay_grpc.Download.{session_storage_id, ended, get}
use data_relay_grpc.Download.Chunks.{IsSplit}
use data_relay_grpc.Upload.{PutResult, refused, exhausted, size_matches, put}
use data_relay_grpc.Upload.Stream.{IsStored, Advances}
use data_relay_grpc.Upload.Storage.{next_id, upload_path, put_stores}
use data_relay_grpc.Upload.RoundTrip.{put-get}
use data_relay_grpc.Upload.Rejection.{put-exhausted, put_mismatch}
use data_relay_grpc.Upload.Unlimited.{IsNotExhausted, put_unlimited}
use data_relay_grpc.Local.{Copy, PutLocalRequest, local_service}
use data_relay_grpc.Streaming.{StreamingService}
use data_relay_grpc.Service.Facade.{BlobRelayService, blob_relay_service, session_manager_of_impl}
use data_relay_grpc.Service.RoundTrip.{first_session, service_of, with_first, service_delivers}
use data_relay_grpc.Manager
use data_relay_grpc.Service
use data_relay_grpc.Service.{
  streaming, local, BlobRelayServiceImpl, services_of, blob_relay_service_impl,
}
use data_relay_grpc.Service.History.{calls, here, next, service-IsSound}
use data_relay_grpc.Tests.Fixtures.{
  ossl, api, dir, disk, conf, empty_manager, empty_server, impl1, server, manager_starts,
  server-IsSound,
}

abbrev announce : Option ℕ → PutMetadata
announce size = record { api_version = 1; session_id = 1; blob_size = size }

abbrev parts : List (List ℕ)
parts = (3 ∷ 4 ∷ []) ∷ (6 ∷ []) ∷ []

abbrev too_much : List ℕ
too_much = 0 ∷ 1 ∷ 2 ∷ 3 ∷ 4 ∷ 5 ∷ 6 ∷ 7 ∷ []

abbrev opened_disk : FileSystem
opened_disk = record disk { nodes = put_node (upload_path server) (regular []) disk.nodes }

abbrev reference : PutResult
reference = record {
  status = fails ok (text "");
  blob = some (record { storage_id = session_storage_id; object_id = 1; tag = 1 });
}

opens : open_output disk (upload_path server) ≡ some opened_disk
unfolding open_output node find_node FilePath-discrete SessionStore.create_blob_file text to_string
    decimal
opens = refl

there : get_session_impl 1 server.manager ≡ returns impl1
unfolding get_session_impl find
there = refl

tagged : compute_tag ossl (next_id server) impl1 server.manager ≡ returns 1
unfolding compute_tag generate_reference_tag TagGenerator.generate_reference_tag from_bytes
tagged = refl

abbrev matches : size_matches (some 3) (length (flatten parts)) ≡ true
unfolding size_matches flatten
matches = refl

abbrev differs : size_matches (some 4) (length (flatten parts)) ≡ false
unfolding size_matches flatten
differs = refl

abbrev fits : 10 + length (flatten parts) < word
unfolding flatten
fits = omega arith

abbrev room : 0 + length (flatten parts) ≤ 10
unfolding flatten
room = omega arith

over : 10 < 0 + length (flatten parts) + length too_much
unfolding flatten
over = omega arith

put_stores_example :
    (t : Server) × (put ossl
        (metadata (announce (some 3)) ∷ map PutStreamingRequest.chunk parts)
        server
      ≡ (returns reference, t))
    × IsStored 1 1 (upload_path server) (flatten parts) t
    × Advances (upload_path server) (length (flatten parts)) server t
put_stores_example =
    put_stores ossl server (announce (some 3)) parts impl1 opened_disk 1 server-IsSound
      (omega arith) (omega arith) there opens fits room matches tagged

put-get_example :
    (t : Server) × (cs : List (List ℕ)) × (put ossl
        (metadata (announce (some 3)) ∷ map PutStreamingRequest.chunk parts)
        server
      ≡ (returns reference, t))
    × IsSplit 2 (flatten parts) cs
    × (get api 2 t (record {
      api_version = 1;
      context_id = session_id 1;
      blob = record { storage_id = 0; object_id = 1; tag = get_tag api 1 impl1 };
    })
        ≡ ended (fails ok (text "")) (
            GetStreamingResponse.metadata (length (flatten parts))
            ∷ map GetStreamingResponse.chunk cs))
put-get_example =
    put-get ossl api 2 server (announce (some 3)) parts impl1 opened_disk 1 (omega arith)
      server-IsSound (omega arith) (omega arith) there opens fits room matches tagged

put-exhausted_example :
    (t : Server) × (put ossl
        (metadata (announce none)
          ∷ (map PutStreamingRequest.chunk parts ++ (PutStreamingRequest.chunk too_much ∷ [])))
        server
      ≡ (returns (refused exhausted), t))
    × IsSound 0 t
    × (t.store.current_size ≡ 0)
    × ((impl : SessionImpl) × (find 1 t.blob_sessions ≡ some impl) × (find 1 impl.blobs ≡ none))
    × (find_node (upload_path server) t.file_system.nodes ≡ none)
    × ((q : FilePath)
        → upload_path server ≢ q
        → find_node q t.file_system.nodes ≡ find_node q disk.nodes)
put-exhausted_example =
    put-exhausted ossl server (announce none) parts too_much [] impl1 opened_disk server-IsSound
      (omega arith) (omega arith) there opens refl fits room (omega arith) over

put_mismatch_example :
    (t : Server) × (put ossl
        (metadata (announce (some 4)) ∷ map PutStreamingRequest.chunk parts)
        server
      ≡ (
        returns (
            refused (
              fails invalid_argument
                (text "the size in the metadata does not match the size of the sent blob"))),
        t,
      ))
    × (find_node (upload_path server) t.file_system.nodes ≡ none)
    × (t.store.current_size ≡ 0 + length (flatten parts))
    × ((impl : SessionImpl) × (b : Blob) × (find 1 t.blob_sessions ≡ some impl)
        × (find 1 impl.blobs ≡ some b)
        × (b.size ≡ length (flatten parts)))
put_mismatch_example =
    put_mismatch ossl server (announce (some 4)) parts impl1 opened_disk server-IsSound
      (omega arith) (omega arith) there opens refl fits room differs

-- a `copy` that always fails
abbrev broken_copy : Copy
broken_copy source target fs = none

abbrev local_request : PutLocalRequest
local_request = record { api_version = 1; session_id = 1; path = dir }

service_starts : blob_relay_service_impl api ossl broken_copy conf disk ≡ (
  returns (record {
    session_manager = empty_manager;
    services = services_of api ossl broken_copy conf;
  }),
  disk,
)
unfolding blob_relay_service_impl
service_starts = rw manager_starts refl

service-IsSound_example : IsSound 0 (create_session (some 7) empty_server).1
service-IsSound_example =
    service-IsSound api ossl broken_copy conf disk disk
      (record { session_manager = empty_manager; services = services_of api ossl broken_copy conf })
      (omega arith) (omega arith) service_starts
      (next here (calls (creates (some 7) (omega arith))))

-- a server whose session storage has no quota
abbrev boundless : Server
boundless = record {
  manager = record (server.manager) {
    store = record { directory = dir; quota = 0; current_size = 0 };
  };
  file_system = disk;
}

put_unlimited_example :
    ((put ossl
        (metadata (announce none) ∷ map PutStreamingRequest.chunk (too_much ∷ parts))
        boundless).1.store
      ≡ boundless.store)
    × IsNotExhausted
        (put ossl
          (metadata (announce none) ∷ map PutStreamingRequest.chunk (too_much ∷ parts))
          boundless).0
put_unlimited_example =
    put_unlimited ossl (metadata (announce none) ∷ map PutStreamingRequest.chunk (too_much ∷ parts))
      boundless refl

abbrev service : BlobRelayService
service =
    service_of
      (record { session_manager = empty_manager; services = services_of api ossl broken_copy conf })

facade_starts : blob_relay_service api ossl broken_copy conf disk ≡ (returns service, disk)
unfolding blob_relay_service
facade_starts = rw service_starts refl

first_opens :
    open_output
      (with_first service disk (some 7)).file_system
      (upload_path (with_first service disk (some 7)))
    ≡ some opened_disk
unfolding Service.create_session session_manager_of_impl Manager.create_session open_output node
    find_node FilePath-discrete SessionStore.create_blob_file text to_string decimal
first_opens = refl

first_tagged :
    compute_tag ossl
      (next_id (with_first service disk (some 7)))
      (first_session (some 7))
      (with_first service disk (some 7)).manager
    ≡ returns 1
unfolding Service.create_session session_manager_of_impl Manager.create_session compute_tag
    generate_reference_tag TagGenerator.generate_reference_tag from_bytes
first_tagged = refl

service_delivers_example :
    (handlers : StreamingService) × (service.base.services
      ≡ streaming handlers
        ∷ (if conf.local_enabled then local (local_service api broken_copy) ∷ [] else []))
    × (u : Server) × (cs : List (List ℕ)) × (handlers.put
          (metadata (announce (some 3)) ∷ map PutStreamingRequest.chunk parts)
          (with_first service disk (some 7))
        ≡ (
          returns (record {
            status = fails ok (text "");
            blob = some (record {
              storage_id = session_storage_id;
              object_id = next_id (with_first service disk (some 7));
              tag = 1;
            });
          }),
          u,
        ))
    × IsSplit 2 (flatten parts) cs
    × (handlers.get u (record {
      api_version = 1;
      context_id = session_id 1;
      blob = record {
        storage_id = 0;
        object_id = next_id (with_first service disk (some 7));
        tag = get_tag api (next_id (with_first service disk (some 7))) (first_session (some 7));
      };
    })
        ≡ ended (fails ok (text "")) (
            GetStreamingResponse.metadata (length (flatten parts))
            ∷ map GetStreamingResponse.chunk cs))
service_delivers_example =
    service_delivers api ossl broken_copy conf disk disk opened_disk service (some 7) (some 3) parts
      1 (omega arith) fits (omega (arith, room)) (omega arith) matches facade_starts first_opens
      first_tagged
