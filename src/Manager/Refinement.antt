-- ===== src/Manager/Refinement.antt =====
-- The calls of the manager and of its sessions, against what the contract says of them.
use data_relay_grpc.Base.{ℕ}
use data_relay_grpc.OrderedMap
use data_relay_grpc.Session.{Context, add, create_blob_file, reserve_session_store, remove_list}
use data_relay_grpc.Outcome.{Outcome, returns, M, pure, after, ◌>>=◌}
use data_relay_grpc.Manager.{
  Server, create_session, dispose_session, with_session, absorbed, dispose,
}
use data_relay_grpc.Manager.Contract.{
  view_of, Op, open_session, add_file, create_file, reserve_size, remove_blobs, end_session, Answer,
  session, blob, blob_file, reserved, done, Change,
}
use data_relay_grpc.Manager.Views.{storage_of}

-- the call itself
unfoldable pub perform : Op → M Server Answer
perform (open_session t) = create_session t >>= λ id. pure (session id)
perform (add_file sid path) = with_session sid (add path) >>= λ id. pure (blob id)
perform (create_file sid prefix) =
    with_session sid (create_blob_file prefix) >>= λ a. pure (blob_file a.0 a.1)
perform (reserve_size sid bid size) =
    with_session sid (reserve_session_store bid size) >>= λ b. pure (reserved b)
perform (remove_blobs sid ids) = with_session sid (remove_list ids) >>= λ _. pure done
perform (end_session sid) = dispose_session sid >>= λ _. pure done

abbrev IsCorrect : Op → Server → Outcome Answer × Server → Type 0
IsCorrect op s r = Change (storage_of s) (view_of s) op r.0 (view_of r.1)

-- the end of a session, once its deletions have ended
ending : ℕ → Server → Outcome (Unit {0}) × Context → Outcome Answer × Server
ending sid s r =
    after
      (after (absorbed sid s r) (λ _ t. (returns tt, record t { manager = dispose sid t.manager })))
      (λ _. pure done)
