-- ===== src/Manager/Lookup.antt =====
-- What the lookups of the manager answer, after its sessions have come and gone.
use data_relay_grpc.Base.{
  ℕ, ◌+◌, ◌%◌, ◌<◌, ◌≡◌, ◌≢◌, refl, ◌⊎◌, inl, inr, [], Option, none, some, arith, Option-cases,
}
use data_relay_grpc.OrderedMap.{find}
use data_relay_grpc.OrderedMap.Lookup.{find-emplace, find-erase}
use data_relay_grpc.Text.{text}
use data_relay_grpc.SessionStore.{word}
use data_relay_grpc.Session.{SessionImpl}
use data_relay_grpc.Outcome.{returns, throws, out_of_range}
use data_relay_grpc.Manager.{
  Manager, Server, create_session, register, unregister, dispose, get_session_id, get_session_impl,
}
use data_relay_grpc.Manager.Registry.{IsRegistered, dispose_found, fresh_session}

pub get_session_id_cases :
    (tid : ℕ) (m : Manager)
    → ((sid : ℕ) × (get_session_id tid m ≡ returns sid))
      ⊎ (get_session_id tid m
          ≡ throws (out_of_range (text "can not find the session specified by the transaction_id")))
unfolding get_session_id
get_session_id_cases tid m = elim (Option-cases (find tid m.blob_session_ids)) [
  | inl absent ↦ inr (rw (absent, get_session_id))
  | inr (sid, there) ↦ inl (sid, rw (there, get_session_id))
]

pub get_session_impl_cases :
    (sid : ℕ) (m : Manager)
    → ((impl : SessionImpl) × (find sid m.blob_sessions ≡ some impl)
        × (get_session_impl sid m ≡ returns impl))
      ⊎ (get_session_impl sid m ≡ throws (out_of_range (text "can not find the session specified")))
unfolding get_session_impl
get_session_impl_cases sid m = elim (Option-cases (find sid m.blob_sessions)) [
  | inl absent ↦ inr (rw (absent, get_session_impl))
  | inr (impl, there) ↦ inl (impl, there, rw (there, get_session_impl))
]

-- In a registry that is in order, a transaction that the manager finds has a session, which is
-- there and knows its own id and the transaction.
pub get_session_id_sound :
    (tid sid : ℕ) (m : Manager)
    → IsRegistered m
    → get_session_id tid m ≡ returns sid
    → (impl : SessionImpl) × (get_session_impl sid m ≡ returns impl)
      × (impl.session_id ≡ sid)
      × (impl.transaction_id ≡ some tid)
unfolding get_session_id get_session_impl
get_session_id_sound tid sid m r e =
    let (impl, there, mine) = r.transactions tid sid (ground arith) in
    (impl, rw (there, get_session_impl), (r.sessions sid impl there).1, mine)

-- In a registry that is in order, and with a counter of session ids that does not wrap, a new
-- session gets an id that no session had, is found under it with no BLOBs, and every other session
-- is found as before; its transaction leads to it, unless it already led to another.
pub create_session_lookup :
    (s : Server) (t : Option ℕ)
    → s.session_id + 1 < word
    → IsRegistered s.manager
    → (id : ℕ) × ((create_session t s).0 ≡ returns id)
      × (find id s.blob_sessions ≡ none)
      × (get_session_impl id (create_session t s).1.manager
          ≡ returns (record { session_id = id; transaction_id = t; blobs = [] }))
      × ((other : ℕ)
          → other ≢ id
          → get_session_impl other (create_session t s).1.manager
            ≡ get_session_impl other s.manager)
      × ((tid : ℕ)
          → t ≡ some tid
          → find tid s.blob_session_ids ≡ none
          → get_session_id tid (create_session t s).1.manager ≡ returns id)
unfolding create_session get_session_impl get_session_id register
create_session_lookup s t fits r =
    let id : ℕ = (s.session_id + 1) % word in
    let fresh = fresh_session s.manager id r (omega arith) in
    let impl : SessionImpl = record { session_id = id; transaction_id = t; blobs = [] } in
    (
      id,
      refl,
      fresh,
      ground (arith, find-emplace id id 0 impl s.blob_sessions r.sessions_ordered),
      (λ other h. ground (arith, find-emplace other id 0 impl s.blob_sessions r.sessions_ordered)),
      (λ tid e unused. ground (arith, find-emplace tid tid 0 id s.blob_session_ids r.ids_ordered)),
    )

-- In a registry that is in order, a session that is disposed of is not found any more, and every
-- other session is found as before.
pub dispose_lookup :
    (sid : ℕ) (m : Manager)
    → IsRegistered m
    → (get_session_impl sid (dispose sid m)
        ≡ throws (out_of_range (text "can not find the session specified")))
      × ((other : ℕ)
          → other ≢ sid
          → get_session_impl other (dispose sid m) ≡ get_session_impl other m)
unfolding get_session_impl dispose
dispose_lookup sid m r = (
  ground (arith, find-erase sid sid 0 m.blob_sessions r.sessions_ordered),
  (λ other h. ground (arith, find-erase other sid 0 m.blob_sessions r.sessions_ordered)),
)

-- In a registry that is in order, where two sessions have one transaction, the end of either makes
-- the manager forget the transaction, although the other session is still found.
pub dispose_forgets :
    (sid other tid : ℕ) (m : Manager) (impl impl' : SessionImpl)
    → IsRegistered m
    → sid ≢ other
    → find sid m.blob_sessions ≡ some impl
    → find other m.blob_sessions ≡ some impl'
    → impl.transaction_id ≡ some tid
    → impl'.transaction_id ≡ some tid
    → (get_session_id tid (dispose sid m)
        ≡ throws (out_of_range (text "can not find the session specified by the transaction_id")))
      × (get_session_impl other (dispose sid m) ≡ returns impl')
unfolding get_session_id get_session_impl unregister
dispose_forgets sid other tid m impl impl' r differ there there' e e' =
    rw (dispose_found sid m impl there) (
      ground (arith, find-erase tid tid 0 m.blob_session_ids r.ids_ordered),
      ground (arith, find-erase other sid 0 m.blob_sessions r.sessions_ordered),
    )
