-- ===== src/Manager/Registry.antt =====
-- Which sessions and transactions the manager knows.
use data_relay_grpc.Base.{
  ℕ, ◌+◌, ◌%◌, ◌≤◌, ◌<◌, ◌≡◌, ◌≢◌, refl, sym, ◌∙◌, ◌⊎◌, inl, inr, List, [], Option, none, some,
  arith, Option-cases, ℕ_discrete,
}
use data_relay_grpc.OrderedMap.{find, emplace, erase, assign, AscendsFrom}
use data_relay_grpc.OrderedMap.Lookup.{
  find-emplace, find-erase, find-assign, emplace-AscendsFrom, erase-AscendsFrom, assign-AscendsFrom,
}
use data_relay_grpc.OrderedMap.Holds.{
  Holds, emplace-Holds, erase-Holds, assign-Holds, find-erase_cases,
}
use data_relay_grpc.SessionStore.{word}
use data_relay_grpc.Session.{SessionImpl, Context}
use data_relay_grpc.Outcome.{M}
use data_relay_grpc.Manager.{
  Manager, Server, create_session, register, unregister, dispose, with_session, context, absorb,
}

-- The session is there, and `tid` is its transaction.
abbrev pub Owns : List (ℕ × SessionImpl) → ℕ → ℕ → Type 0
Owns sessions tid sid =
    (impl : SessionImpl) × (find sid sessions ≡ some impl) × (impl.transaction_id ≡ some tid)

-- Session ids are in order, none above the counter, and each session knows its own; a transaction
-- that has an entry has it for a session of its own that is there.
pub record IsRegistered (m : Manager) : Type 0 where
  pub sessions_ordered : AscendsFrom 0 m.blob_sessions
  pub ids_ordered : AscendsFrom 0 m.blob_session_ids
  pub sessions :
      Holds
        (λ sid (impl : SessionImpl). (sid ≤ m.session_id) × (impl.session_id ≡ sid))
        m.blob_sessions
  pub transactions : Holds (Owns m.blob_sessions) m.blob_session_ids

pub fresh_session :
    (m : Manager) (k : ℕ) → IsRegistered m → m.session_id < k → find k m.blob_sessions ≡ none
fresh_session m k r lt = elim (Option-cases (find k m.blob_sessions)) [
  | inl absent ↦ absent
  | inr (impl, there) ↦ absurd (omega (arith, (r.sessions k impl there).0))
]

register-AscendsFrom :
    (t : Option ℕ) (id : ℕ) (ids : List (ℕ × ℕ))
    → AscendsFrom 0 ids
    → AscendsFrom 0 (register t id ids)
unfolding register
register-AscendsFrom none id ids a = a
register-AscendsFrom (some tid) id ids a = emplace-AscendsFrom tid 0 id ids (omega arith) a

unregister-AscendsFrom :
    (t : Option ℕ) (ids : List (ℕ × ℕ)) → AscendsFrom 0 ids → AscendsFrom 0 (unregister t ids)
unfolding unregister
unregister-AscendsFrom none ids a = a
unregister-AscendsFrom (some tid) ids a = erase-AscendsFrom tid 0 ids a

find-emplace_or :
    (tid j id : ℕ) (ids : List (ℕ × ℕ))
    → AscendsFrom 0 ids
    → (find j (emplace tid id ids) ≡ find j ids)
      ⊎ ((tid ≡ j) × (find j ids ≡ none) × (find j (emplace tid id ids) ≡ some id))
find-emplace_or tid j id ids a = ground (arith, find-emplace j tid 0 id ids a)

Owns-emplace :
    (id j sid : ℕ) (impl : SessionImpl) (sessions : List (ℕ × SessionImpl))
    → AscendsFrom 0 sessions
    → find id sessions ≡ none
    → Owns sessions j sid
    → Owns (emplace id impl sessions) j sid
Owns-emplace id j sid impl sessions a fresh (own, there, e) =
    (own, ground (arith, find-emplace sid id 0 impl sessions a), e)

register-Owns :
    (t : Option ℕ) (id : ℕ) (impl : SessionImpl) (sessions : List (ℕ × SessionImpl))
    (ids : List (ℕ × ℕ))
    → AscendsFrom 0 sessions
    → AscendsFrom 0 ids
    → find id sessions ≡ none
    → impl.transaction_id ≡ t
    → Holds (Owns sessions) ids
    → Holds (Owns (emplace id impl sessions)) (register t id ids)
unfolding register
register-Owns none id impl sessions ids a b fresh e h j sid f =
    Owns-emplace id j sid impl sessions a fresh (h j sid f)
register-Owns (some tid) id impl sessions ids a b fresh e h j sid f =
    elim (find-emplace_or tid j id ids b) [
      | inl same ↦ Owns-emplace id j sid impl sessions a fresh (h j sid (sym same ∙ f))
      | inr (at, _, made) ↦
          (impl, ground (arith, find-emplace sid id 0 impl sessions a), ground arith)
    ]

pub create_session-IsRegistered :
    (s : Server) (t : Option ℕ)
    → s.session_id + 1 < word
    → IsRegistered s.manager
    → IsRegistered (create_session t s).1.manager
unfolding create_session
create_session-IsRegistered s t fits r =
    let id : ℕ = (s.session_id + 1) % word in
    let fresh = fresh_session s.manager id r (omega arith) in
    let impl : SessionImpl = record { session_id = id; transaction_id = t; blobs = [] } in
    record {
      sessions_ordered =
          emplace-AscendsFrom id 0 impl s.blob_sessions (omega arith) r.sessions_ordered;
      ids_ordered = register-AscendsFrom t id s.blob_session_ids r.ids_ordered;
      sessions =
          emplace-Holds (λ sid (i : SessionImpl). (sid ≤ id) × (i.session_id ≡ sid)) id 0 impl
            s.blob_sessions r.sessions_ordered fresh
            (λ j u f. (omega (arith, (r.sessions j u f).0), (r.sessions j u f).1))
            (omega arith, refl);
      transactions =
          register-Owns t id impl s.blob_sessions s.blob_session_ids r.sessions_ordered
            r.ids_ordered fresh refl r.transactions;
    }

-- An owner that is not the erased session stays.
Owns-erase :
    (sid j other : ℕ) (impl : SessionImpl) (sessions : List (ℕ × SessionImpl))
    → AscendsFrom 0 sessions
    → find sid sessions ≡ some impl
    → impl.transaction_id ≢ some j
    → Owns sessions j other
    → Owns (erase sid sessions) j other
Owns-erase sid j other impl sessions a there not_its (own, e, mine) =
    (own, ground (arith, find-erase other sid 0 sessions a), mine)

unregister-Owns :
    (t : Option ℕ) (sid : ℕ) (impl : SessionImpl) (sessions : List (ℕ × SessionImpl))
    (ids : List (ℕ × ℕ))
    → AscendsFrom 0 sessions
    → AscendsFrom 0 ids
    → find sid sessions ≡ some impl
    → impl.transaction_id ≡ t
    → Holds (Owns sessions) ids
    → Holds (Owns (erase sid sessions)) (unregister t ids)
unfolding unregister
unregister-Owns none sid impl sessions ids a b there e h j other f =
    Owns-erase sid j other impl sessions a there (ground arith) (h j other f)
unregister-Owns (some tid) sid impl sessions ids a b there e h j other f =
    let (differ, old) = find-erase_cases tid j 0 other ids b f in
    Owns-erase sid j other impl sessions a there (ground arith) (h j other old)

pub dispose_found :
    (sid : ℕ) (m : Manager) (impl : SessionImpl)
    → find sid m.blob_sessions ≡ some impl
    → dispose sid m ≡ record m {
      blob_sessions = erase sid m.blob_sessions;
      blob_session_ids = unregister impl.transaction_id m.blob_session_ids;
    }
unfolding dispose
dispose_found sid m impl e = rw (e, dispose)

pub dispose_absent : (sid : ℕ) (m : Manager) → find sid m.blob_sessions ≡ none → dispose sid m ≡ m
unfolding dispose
dispose_absent sid m e = rw (e, dispose)

-- `dispose` keeps the registry in order.
pub dispose-IsRegistered : (sid : ℕ) (m : Manager) → IsRegistered m → IsRegistered (dispose sid m)
dispose-IsRegistered sid m r = elim (Option-cases (find sid m.blob_sessions)) [
  | inl absent ↦ rw (dispose_absent sid m absent) r
  | inr (impl, there) ↦ rw (dispose_found sid m impl there) (record {
    sessions_ordered = erase-AscendsFrom sid 0 m.blob_sessions r.sessions_ordered;
    ids_ordered = unregister-AscendsFrom impl.transaction_id m.blob_session_ids r.ids_ordered;
    sessions = erase-Holds _ sid 0 m.blob_sessions r.sessions_ordered r.sessions;
    transactions =
        unregister-Owns impl.transaction_id sid impl m.blob_sessions m.blob_session_ids
          r.sessions_ordered r.ids_ordered there refl r.transactions;
  })
]

Owns-assign :
    (sid j other : ℕ) (impl impl' : SessionImpl) (sessions : List (ℕ × SessionImpl))
    → find sid sessions ≡ some impl
    → impl'.transaction_id ≡ impl.transaction_id
    → Owns sessions j other
    → Owns (assign sid impl' sessions) j other
Owns-assign sid j other impl impl' sessions there same (own, e, mine) =
    elim (ℕ_discrete sid other) [
      | yes it ↦ (impl', ground (arith, find-assign other sid impl' sessions), ground arith)
      | no differ ↦ (own, ground (arith, find-assign other sid impl' sessions), mine)
    ]

pub absorb-IsRegistered :
    (sid : ℕ) (s : Server) (impl : SessionImpl) (c : Context)
    → find sid s.blob_sessions ≡ some impl
    → c.session_id ≡ impl.session_id
    → c.transaction_id ≡ impl.transaction_id
    → IsRegistered s.manager
    → IsRegistered (absorb sid s c).manager
absorb-IsRegistered sid s impl c there e f r = record {
  sessions_ordered = assign-AscendsFrom sid 0 c.impl s.blob_sessions r.sessions_ordered;
  ids_ordered = r.ids_ordered;
  sessions =
      assign-Holds (λ k (i : SessionImpl). (k ≤ s.session_id) × (i.session_id ≡ k)) sid c.impl
        s.blob_sessions r.sessions
        ((r.sessions sid impl there).0, e ∙ (r.sessions sid impl there).1);
  transactions = λ j other h.
      Owns-assign sid j other impl c.impl s.blob_sessions there f (r.transactions j other h);
}

-- So does every method of a session that leaves the ids of the session alone.
pub with_session-IsRegistered :
    {A : Type 0} (sid : ℕ) (method : M Context A) (s : Server)
    → ((c : Context)
        → ((method c).1.session_id ≡ c.session_id)
          × ((method c).1.transaction_id ≡ c.transaction_id))
    → IsRegistered s.manager
    → IsRegistered (with_session sid method s).1.manager
unfolding with_session
with_session-IsRegistered sid method s keeps r = elim (Option-cases (find sid s.blob_sessions)) [
  | inl absent ↦ rw (absent, with_session) r
  | inr (impl, there) ↦
      rw (there, with_session)
        (absorb-IsRegistered sid s impl (method (context s impl)).1 there (keeps (context s impl)).0
          (keeps (context s impl)).1 r)
]
