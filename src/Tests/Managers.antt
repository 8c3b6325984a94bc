-- ===== src/Tests/Managers.antt =====
-- The theorems on the manager, at concrete inputs.
use data_relay_grpc.Base.{ℕ, ◌+◌, ◌≡◌, ◌≢◌, refl, [], ◌∷◌, none, some, arith, subst}
use data_relay_grpc.OrderedMap.{find, emplace}
use data_relay_grpc.Text.{text}
use data_relay_grpc.FileSystem.{FilePath, find_node}
use data_relay_grpc.Session.{Blob, SessionImpl}
use data_relay_grpc.Manager.{
  Server, register, create_session, dispose, get_session_impl, get_session_id,
}
use data_relay_grpc.Manager.Books.{weight, IsBooked}
use data_relay_grpc.Manager.Registry.{IsRegistered}
use data_relay_grpc.Manager.Lookup.{dispose_forgets}
use data_relay_grpc.Manager.Lifecycle.{dispose_session_lem}
use data_relay_grpc.Manager.History.{creates, IsSound, Step-IsSound}
use data_relay_grpc.Manager.Contract.{done, end_session}
use data_relay_grpc.Manager.Refinement.{perform}
use data_relay_grpc.Outcome.{returns, throws, out_of_range}
use data_relay_grpc.Tests.Fixtures.{
  disk, impl1, server, holding, server-IsSound, holding-IsSound, over, disposes,
}

finds_session : get_session_id 7 server.manager ≡ returns 1
unfolding get_session_id find
finds_session = refl

-- two sessions of one transaction
abbrev twin : SessionImpl
twin = record { session_id = 2; transaction_id = some 7; blobs = [] }

abbrev twins : Server
twins = record server {
  manager = record (server.manager) { session_id = 2; blob_sessions = (1, impl1) ∷ (2, twin) ∷ [] };
}

twins_created : (create_session (some 7) server).1 ≡ twins
unfolding create_session emplace register
twins_created = refl

twins-IsSound : IsSound 0 twins
twins-IsSound =
    subst (IsSound 0) twins_created (Step-IsSound (creates (some 7) (omega arith)) server-IsSound)

first_there : find 1 twins.blob_sessions ≡ some impl1
unfolding find
first_there = refl

second_there : find 2 twins.blob_sessions ≡ some twin
unfolding find
second_there = refl

dispose_forgets_example :
    (get_session_id 7 (dispose 2 twins.manager)
      ≡ throws (out_of_range (text "can not find the session specified by the transaction_id")))
    × (get_session_impl 1 (dispose 2 twins.manager) ≡ returns impl1)
dispose_forgets_example =
    dispose_forgets 2 1 7 twins.manager twin impl1 twins-IsSound.registered (omega arith)
      second_there first_there refl refl

dispose_session_example :
    IsRegistered over.manager
    × IsBooked 0 over.manager
    × (find 1 over.blob_sessions ≡ none)
    × ((impl : SessionImpl) × (find 1 holding.blob_sessions ≡ some impl)
        × (0 + weight impl ≡ 3)
        × ((j : ℕ) (b : Blob)
            → find j impl.blobs ≡ some b
            → find_node b.path over.file_system.nodes ≡ none)
        × ((q : FilePath)
            → ((j : ℕ) (b : Blob) → find j impl.blobs ≡ some b → b.path ≢ q)
            → find_node q over.file_system.nodes ≡ find_node q disk.nodes))
dispose_session_example =
    dispose_session_lem 1 holding over holding-IsSound.registered holding-IsSound.booked disposes

-- the end of the session with the BLOB, by the contract
ended : perform (end_session 1) holding ≡ (returns done, over)
unfolding perform
ended = rw disposes refl
