-- ===== src/Tests/Disposers.antt =====
-- The theorems on the end of a session that other calls run in between, at concrete inputs.
use data_relay_grpc.Base.{ℕ, ◌+◌, ◌≡◌, refl, [], ◌∷◌, none, some, arith}
use data_relay_grpc.OrderedMap.{find, emplace, assign}
use data_relay_grpc.FileSystem.{FilePath-discrete, exists, node, find_node}
use data_relay_grpc.SessionStore.{reserve}
use data_relay_grpc.Session.{add, get_new_blob_id, reserve_session_store, entries}
use data_relay_grpc.Manager.{Server, with_session, dispose_session}
use data_relay_grpc.Manager.Books.{weight}
use data_relay_grpc.Manager.History.{adds, reserves}
use data_relay_grpc.Handlers.Sharing.{IsKept}
use data_relay_grpc.Disposers.{starting, deleting, ended, step}
use data_relay_grpc.Disposers.Books.{advances, calls, Reach, here, next, dispose_leaks}
use data_relay_grpc.Disposers.Alone.{run, final, run-dispose_session}
use data_relay_grpc.Tests.Fixtures.{impl1, impl2, server, holding, server-IsSound}

run-dispose_session_example :
    (n : ℕ) × (run 1 n starting holding ≡ final (dispose_session 1 holding))
run-dispose_session_example = run-dispose_session 1 holding

-- The session has nothing when its end begins; then another call adds a BLOB and reserves for it.
late_blob : Reach 1 (starting, server) (deleting [], holding)
unfolding step with_session entries find assign add get_new_blob_id emplace exists node find_node
    FilePath-discrete reserve_session_store reserve
late_blob =
    next
      (next (next here (advances tt))
        (calls (adds 1 ((1 ∷ []) ∷ []) {impl = impl1} (omega arith) refl)))
      (calls (reserves 1 1 3 (omega arith) refl refl))

holding_there : find 1 holding.blob_sessions ≡ some impl2
unfolding find
holding_there = refl

dispose_leaks_example :
    (u : Server) × (step 1 (deleting []) holding ≡ (ended, u))
    × IsKept (0 + weight impl2) u
    × (find 1 u.blob_sessions ≡ none)
    × (u.store ≡ holding.store)
    × (u.file_system ≡ holding.file_system)
dispose_leaks_example = dispose_leaks 1 server holding impl2 server-IsSound late_blob holding_there
