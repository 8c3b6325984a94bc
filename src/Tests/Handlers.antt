-- ===== src/Tests/Handlers.antt =====
-- The theorems on handlers that run at the same time, at concrete inputs.
use data_relay_grpc.Base.{
  ℕ, ◌+◌, ◌*◌, ◌≤◌, ◌≡◌, ◌≢◌, refl, true, List, [], ◌∷◌, none, some, arith, length,
}
use data_relay_grpc.OrderedMap.{find, emplace, assign}
use data_relay_grpc.Text.{text}
use data_relay_grpc.FileSystem.{FilePath}
use data_relay_grpc.SessionStore
use data_relay_grpc.SessionStore.{word, remove}
use data_relay_grpc.Session.{create_blob_file, get_new_blob_id}
use data_relay_grpc.Manager.{with_session, get_session_impl}
use data_relay_grpc.Relay.{PutMetadata, PutStreamingRequest, metadata, chunk, check_api_version}
use data_relay_grpc.Upload.{put}
use data_relay_grpc.Handlers.{
  Phase, starting, creating, opening, exhausting, crashed, accept, step, run,
}
use data_relay_grpc.Handlers.Loop.{final}
use data_relay_grpc.Handlers.Alone.{run-put}
use data_relay_grpc.Handlers.System.{System, advanced, Reach, arrives, advances, here, next}
use data_relay_grpc.Handlers.Sharing.{IsKept, Reach-IsKept}
use data_relay_grpc.Handlers.Isolation.{uploads_apart}
use data_relay_grpc.Handlers.Dangling.{for_refusal, dispose-step}
use data_relay_grpc.Handlers.Ending.{finished, walk, walk-accept}
use data_relay_grpc.Manager.History.{IsSound}
use data_relay_grpc.Handlers.Settling.{IsPlaced}
use data_relay_grpc.Handlers.Quiet.{AreQuiet, uploads_undisturbed}
use data_relay_grpc.Tests.Fixtures.{
  ossl, server, holding, server-IsSound, holding-IsSound, over, disposes,
}

abbrev announce : PutMetadata
announce = record { api_version = 1; session_id = 1; blob_size = none }

abbrev rest : List PutStreamingRequest
rest = chunk (3 ∷ 4 ∷ []) ∷ chunk (6 ∷ []) ∷ []

abbrev requests : List PutStreamingRequest
requests = metadata announce ∷ rest

run-put_example :
    (n : ℕ) × (n ≤ 2 * length requests + 5)
    × (run ossl n (accept requests) server ≡ final (put ossl requests server))
run-put_example = run-put ossl requests server

walk-accept_example :
    finished (
      walk ossl
        (accept (metadata announce ∷ []))
        (server ∷ holding ∷ server ∷ holding ∷ server ∷ []))
    ≡ true
walk-accept_example =
    walk-accept ossl (metadata announce ∷ []) (server ∷ holding ∷ server ∷ holding ∷ server ∷ [])
      (omega arith)

-- two uploads that have both got an id and a path
abbrev arrived : System
arrived = record { server = server; handlers = (1, accept requests) ∷ (0, accept requests) ∷ [] }

abbrev looked_up : System
looked_up =
    advanced ossl 1 (starting announce rest) (advanced ossl 0 (starting announce rest) arrived)

abbrev busy : System
busy = advanced ossl 0 (creating announce rest) (advanced ossl 1 (creating announce rest) looked_up)

abbrev path_of : ℕ → FilePath
path_of bid = SessionStore.create_blob_file server.store bid (text "upload")

busy_reached : (r : Reach ossl (record { server = server; handlers = [] }) busy) × AreQuiet r
unfolding find assign accept check_api_version step get_session_impl with_session create_blob_file
    get_new_blob_id emplace
busy_reached = (
  next
      (next
        (next
          (next (next (next here (arrives 0 requests refl)) (arrives 1 requests refl))
            (advances 0 refl tt))
          (advances 1 refl tt))
        (advances 1 refl (omega arith)))
      (advances 0 refl (omega arith)),
  tt,
)

busy_first : find 0 busy.handlers ≡ some (opening announce rest 2 (path_of 2))
unfolding find assign accept check_api_version step get_session_impl with_session create_blob_file
    get_new_blob_id emplace
busy_first = refl

busy_second : find 1 busy.handlers ≡ some (opening announce rest 1 (path_of 1))
unfolding find assign accept check_api_version step get_session_impl with_session create_blob_file
    get_new_blob_id emplace
busy_second = refl

Reach-IsKept_example : IsKept 0 busy.server
Reach-IsKept_example = Reach-IsKept ossl busy_reached.0 server-IsSound

uploads_apart_example :
    ((b : ℕ) → some 2 ≡ some b → some 1 ≢ some b)
    × ((f : FilePath) → some (path_of 2) ≡ some f → some (path_of 1) ≢ some f)
uploads_apart_example =
    uploads_apart ossl server server-IsSound busy_reached.0 0 1
      (opening announce rest 2 (path_of 2)) (opening announce rest 1 (path_of 1)) busy_first
      busy_second (omega arith)

dispose-step_example : (step ossl (exhausting announce 1) over).0 ≡ crashed
dispose-step_example =
    dispose-step ossl 1 holding over (exhausting announce 1) holding-IsSound disposes
      (for_refusal announce 1 refl)

uploads_undisturbed_example :
    IsSound 0 busy.server
    × ((i : ℕ) (p : Phase) → find i busy.handlers ≡ some p → IsPlaced busy.server p)
uploads_undisturbed_example =
    uploads_undisturbed ossl server server-IsSound busy_reached.0 busy_reached.1
