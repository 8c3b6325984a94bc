-- ===== src/Disposers.antt =====
-- common/detail/session_impl.cpp, `dispose`, as a state machine: the mutex of the session is free
-- between its deletions, so that other calls may run there. Each step is one method that holds a
-- mutex.
pub mod Books
pub mod Alone
use data_relay_grpc.Base.{ℕ, List, [], ◌∷◌}
use data_relay_grpc.Session.{entries, delete_blob_file}
use data_relay_grpc.Manager.{Server, with_session, dispose}
use data_relay_grpc.Outcome.{Exception, Outcome, returns, throws, undefined}

-- where the call of `dispose` stands, with the entries that it has still to delete
pub data Phase : Type 0 where
  starting : Phase
  deleting : (ids : List ℕ) → Phase
  ended : Phase
  thrown : Exception → Phase
  crashed : Phase

-- the phase after a call of a method
abbrev pub next_phase : {A : Type 0} → (A → Phase) → Outcome A × Server → Phase × Server
next_phase k (returns a, s) = (k a, s)
next_phase k (throws x, s) = (thrown x, s)
next_phase k (undefined, s) = (crashed, s)

-- `manager_.dispose(session_id_)`, by members of the session
abbrev pub erased : ℕ → Phase × Server → Phase × Server
erased sid (ended, s) = (ended, record s { manager = dispose sid s.manager })
erased sid (p, s) = (p, s)

unfoldable pub step : (session_id : ℕ) → Phase → Server → Phase × Server
step sid starting s = next_phase deleting (with_session sid (λ c. (returns (entries c.impl), c)) s)
step sid (deleting (id ∷ ids)) s =
    next_phase (λ (_ : Unit {0}). deleting ids) (with_session sid (delete_blob_file id) s)
step sid (deleting []) s =
    erased sid (next_phase (λ (_ : Unit {0}). ended) (with_session sid (λ c. (returns tt, c)) s))
step sid ended s = (ended, s)
step sid (thrown x) s = (thrown x, s)
step sid crashed s = (crashed, s)
