-- ===== src/Readers/Refusals.antt =====
-- The answers that the checks of a download give when they end it.
use data_relay_grpc.Base.{ℕ, ◌≡◌, ◌≢◌, inl, inr, Option, none, some, arith, Option-cases}
use data_relay_grpc.OrderedMap
use data_relay_grpc.FileSystem.{FilePath}
use data_relay_grpc.Session.{SessionImpl}
use data_relay_grpc.Manager.{Manager, Server, get_session_impl}
use data_relay_grpc.Manager.Lookup.{get_session_id_cases, get_session_impl_cases}
use data_relay_grpc.Relay.{ok, Status, ContextId, session_id, transaction_id, not_set}
use data_relay_grpc.Download.{
  Flow, ends, calls, find_origin, same_transaction, path_or_end, check_tag,
}
use data_relay_grpc.Readers.{through}

-- A part of the handler that ends it ends it with an error.
abbrev pub Refuses : {A : Type 0} → Flow A → Type 0
Refuses m = (status : Status) → m ≡ ends status → status.code ≢ ok

pub calls-Refuses : (sid : ℕ) (m : Manager) → Refuses (calls (get_session_impl sid m))
calls-Refuses sid m status e = elim (get_session_impl_cases sid m) [
  | inl (impl, _, there) ↦ absurd (ground (arith, there))
  | inr missing ↦ absurd (ground (arith, missing))
]

pub find_origin-Refuses : (m : Manager) (c : ContextId) → Refuses (find_origin m c)
unfolding find_origin
find_origin-Refuses m (session_id sid) status e = cc
find_origin-Refuses m (transaction_id tid) status e = elim (get_session_id_cases tid m) [
  | inl (sid, found) ↦ absurd (ground (arith, found))
  | inr missing ↦ absurd (ground (arith, missing))
]
find_origin-Refuses m not_set status e = λ is. ground arith

pub same_transaction-Refuses : (tid : ℕ) (impl : SessionImpl) → Refuses (same_transaction tid impl)
unfolding same_transaction
same_transaction-Refuses tid impl status e is = ground arith

pub path_or_end-Refuses : (p : Option FilePath) → Refuses (path_or_end p)
path_or_end-Refuses none status e is = ground arith
path_or_end-Refuses (some path) status e is = cc

pub check_tag-Refuses : (m : Manager) (expected given : ℕ) → Refuses (check_tag m expected given)
unfolding check_tag
check_tag-Refuses m expected given status e is = ground arith

pub through-Refuses :
    {A : Type 0} (sid : ℕ) (s : Server) (use_of : SessionImpl → Flow A)
    → ((impl : SessionImpl) → Refuses (use_of impl))
    → Refuses (through sid s use_of)
through-Refuses sid s use_of f status e is =
    elim (Option-cases (OrderedMap.find sid s.blob_sessions)) [
      | inl absent ↦ ground (arith, absent)
      | inr (impl, there) ↦ f impl status (ground (arith, there)) is
    ]
