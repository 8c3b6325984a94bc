-- ===== src/Manager/Lifecycle.antt =====
-- Sessions that begin and end, against the books.
use data_relay_grpc.Base.{
  ℕ, ◌+◌, ◌%◌, ◌<◌, ◌≡◌, ◌≢◌, sym, ap, ◌∙◌, inl, inr, [], Option, none, some, arith, Option-cases,
  subst,
}
use data_relay_grpc.OrderedMap.{find, assign}
use data_relay_grpc.OrderedMap.Lookup.{find-assign, find-erase}
use data_relay_grpc.OrderedMap.Total.{total, total-emplace, total-erase}
use data_relay_grpc.OrderedMap.Holds.{
  emplace-Holds, erase-Holds, find-emplace_cases, find-erase_cases,
}
use data_relay_grpc.FileSystem.{FilePath, find_node}
use data_relay_grpc.SessionStore.{word}
use data_relay_grpc.Session.{Blob, SessionImpl, Context, delete_entries, entries}
use data_relay_grpc.Session.Accounting.{IsAccounted}
use data_relay_grpc.Session.Evolution.{Evolves, for_each-Evolves}
use data_relay_grpc.Session.Release.{for_each-IsAccounted, delete_entries_releases}
use data_relay_grpc.Outcome.{Outcome, returns, after_returns, M}
use data_relay_grpc.Manager.{
  Manager, Server, create_session, dispose, dispose_session, with_session, context, absorb,
}
use data_relay_grpc.Manager.Registry.{
  IsRegistered, fresh_session, dispose_found, dispose-IsRegistered, absorb-IsRegistered,
}
use data_relay_grpc.Manager.Books.{
  IsBooked, IsNumbered, weight, others, IsBooked-IsAccounted, absorb-IsBooked,
}

pub create_session-IsBooked :
    {lost : ℕ} (s : Server) (t : Option ℕ)
    → s.session_id + 1 < word
    → IsRegistered s.manager
    → IsBooked lost s.manager
    → IsBooked lost (create_session t s).1.manager
unfolding create_session total find
create_session-IsBooked s t fits r k =
    let id : ℕ = (s.session_id + 1) % word in
    let fresh = fresh_session s.manager id r (omega arith) in
    let impl : SessionImpl = record { session_id = id; transaction_id = t; blobs = [] } in
    record {
      set = k.set;
      small = k.small;
      exact = omega (arith, k.exact, total-emplace weight id impl s.blob_sessions fresh);
      within = k.within;
      numbered =
          emplace-Holds (λ _ i. IsNumbered s.blob_id i) id 0 impl s.blob_sessions r.sessions_ordered
            fresh k.numbered (tt, (λ j b e. cc));
      disjoint = λ x p q i i' b b' f g e h.
          elim (find-emplace_cases id p 0 impl i s.blob_sessions r.sessions_ordered fresh f) [
            | inl (_, ie) ↦ cc (ap (λ (y : SessionImpl). find x y.blobs) ie)
            | inr (_, old) ↦
                elim (find-emplace_cases id q 0 impl i' s.blob_sessions r.sessions_ordered fresh
                  g) [
                    | inl (_, ie') ↦ cc (ap (λ (y : SessionImpl). find x y.blobs) ie')
                    | inr (_, old') ↦ k.disjoint x p q i i' b b' old old' e h
                  ]
          ];
    }

-- What a session that goes has still reserved stays in the usage counter.
pub dispose-IsBooked :
    {lost : ℕ} (sid : ℕ) (m : Manager) (impl : SessionImpl)
    → find sid m.blob_sessions ≡ some impl
    → IsRegistered m
    → IsBooked lost m
    → IsBooked (lost + weight impl) (dispose sid m)
dispose-IsBooked sid m impl there r k = rw (dispose_found sid m impl there) (record {
  set = k.set;
  small = k.small;
  exact = omega (arith, k.exact, total-erase weight sid impl m.blob_sessions there);
  within = k.within;
  numbered = erase-Holds _ sid 0 m.blob_sessions r.sessions_ordered k.numbered;
  disjoint = λ x p q i i' b b' f g e h.
      k.disjoint x p q i i' b b' (find-erase_cases sid p 0 i m.blob_sessions r.sessions_ordered f).1
        (find-erase_cases sid q 0 i' m.blob_sessions r.sessions_ordered g).1 e h;
})

-- A session with nothing in it can go.
dispose_empty-IsBooked :
    {lost : ℕ} (sid : ℕ) (m : Manager) (impl : SessionImpl)
    → find sid m.blob_sessions ≡ some impl
    → impl.blobs ≡ []
    → IsRegistered m
    → IsBooked lost m
    → IsBooked lost (dispose sid m)
unfolding total
dispose_empty-IsBooked {lost} sid m impl there empty r k =
    let nothing : lost + weight impl ≡ lost =
      omega (arith, ap (total (λ (b : Blob). b.size)) empty) in
    subst (λ n. IsBooked n (dispose sid m)) nothing (dispose-IsBooked sid m impl there r k)

-- A call of a session's method that returns has found the session.
pub with_session_returns :
    {A : Type 0} (sid : ℕ) (method : M Context A) (s t : Server) (a : A)
    → with_session sid method s ≡ (returns a, t)
    → (impl : SessionImpl) × (c : Context) × (find sid s.blob_sessions ≡ some impl)
      × (method (context s impl) ≡ (returns a, c))
      × (t ≡ absorb sid s c)
unfolding with_session
with_session_returns {A} sid method s t a e = elim (Option-cases (find sid s.blob_sessions)) [
  | inl absent ↦ cc (rw (absent, with_session) at e)
  | inr (impl, there) ↦
      let e' = rw (there, with_session) at e in
      (
        impl,
        (method (context s impl)).1,
        there,
        ap (λ (o : Outcome A). (o, (method (context s impl)).1))
            (ap (λ (r : Outcome A × Server). r.0) e'),
        sym (ap (λ (r : Outcome A × Server). r.1) e'),
      )
]

pub dispose_session_returns :
    (sid : ℕ) (s t : Server)
    → dispose_session sid s ≡ (returns tt, t)
    → (impl : SessionImpl) × (c : Context) × (find sid s.blob_sessions ≡ some impl)
      × (delete_entries (context s impl) ≡ (returns tt, c))
      × (t ≡ record { manager = dispose sid (absorb sid s c).manager; file_system = c.file_system })
unfolding dispose_session
dispose_session_returns sid s t e =
    let (_, u, first, rest) = after_returns (with_session sid delete_entries s) _ e in
    let (impl, c, there, done, at) = with_session_returns sid delete_entries s u tt first in
    (
      impl,
      c,
      there,
      done,
      sym (ap (λ (r : Outcome (Unit {0}) × Server). r.1) rest)
          ∙ ap (λ (v : Server). let w : Server = record v { manager = dispose sid v.manager } in w)
              at,
    )

pub delete_entries_keeps :
    (o : ℕ) (c c' : Context)
    → IsAccounted o c
    → delete_entries c ≡ (returns tt, c')
    → Evolves c c' × IsAccounted o c'
unfolding delete_entries
delete_entries_keeps o c c' a e = (
  subst (Evolves c) (ap (λ (r : Outcome (Unit {0}) × Context). r.1) e)
      (for_each-Evolves (entries c.impl) c a.ordered),
  for_each-IsAccounted o (entries c.impl) c c' a e,
)

found_after :
    (sid : ℕ) (s : Server) (impl : SessionImpl) (c : Context)
    → find sid s.blob_sessions ≡ some impl
    → find sid (assign sid c.impl s.blob_sessions) ≡ some c.impl
found_after sid s impl c there = ground (arith, find-assign sid sid c.impl s.blob_sessions)

-- The end of a session, where it returns on a server in order, keeps the registry and the books in
-- order: the session is gone, the usage falls by what it had reserved, its files are gone, and a
-- file that no BLOB of it names is as it was.
pub dispose_session_lem :
    {lost : ℕ} (sid : ℕ) (s t : Server)
    → IsRegistered s.manager
    → IsBooked lost s.manager
    → dispose_session sid s ≡ (returns tt, t)
    → IsRegistered t.manager
      × IsBooked lost t.manager
      × (find sid t.blob_sessions ≡ none)
      × ((impl : SessionImpl) × (find sid s.blob_sessions ≡ some impl)
          × (t.store.current_size + weight impl ≡ s.store.current_size)
          × ((j : ℕ) (b : Blob)
              → find j impl.blobs ≡ some b
              → find_node (s.file_system.resolve b.path) t.file_system.nodes ≡ none)
          × ((q : FilePath)
              → ((j : ℕ) (b : Blob) → find j impl.blobs ≡ some b → s.file_system.resolve b.path ≢ q)
              → find_node q t.file_system.nodes ≡ find_node q s.file_system.nodes))
dispose_session_lem {lost} sid s t r k e =
    let (impl, c, there, done, ended) = dispose_session_returns sid s t e in
    let a = IsBooked-IsAccounted s sid impl there k in
    let (v, a') = delete_entries_keeps (others sid s.manager + lost) (context s impl) c a done in
    let (empty, size, cleared, untouched) =
      delete_entries_releases (others sid s.manager + lost) (context s impl) c a done in
    let k' = absorb-IsBooked s sid impl c there k v a' in
    let r' = absorb-IsRegistered sid s impl c there v.same_session v.same_transaction r in
    let now = found_after sid s impl c there in
    rw (ended, dispose_found sid (absorb sid s c).manager c.impl now)
      (
        rw (← dispose_found sid (absorb sid s c).manager c.impl now)
            (dispose-IsRegistered sid _ r'),
        rw (← dispose_found sid (absorb sid s c).manager c.impl now)
            (dispose_empty-IsBooked sid _ c.impl now empty r' k'),
        ground
            (arith, find-erase sid sid 0 (assign sid c.impl s.blob_sessions) r'.sessions_ordered),
        (
          impl,
          there,
          omega (arith, size, k.exact, total-erase weight sid impl s.blob_sessions there),
          cleared,
          untouched,
        ),
      )
