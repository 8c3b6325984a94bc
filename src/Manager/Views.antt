-- ===== src/Manager/Views.antt =====
-- common/detail/session_manager.{h,cpp}: the views of a server after the manager's own operations,
-- and the entries of its sessions.
use data_relay_grpc.Base.{
  ℕ, ◌+◌, ◌%◌, ◌<◌, ◌≡◌, refl, sym, ap, ◌∙◌, inl, inr, [], List, Option, none, some, arith, ◌==◌,
  subst, Bool-cases, Option-cases,
}
use data_relay_grpc.OrderedMap
use data_relay_grpc.OrderedMap.{assign, AscendsFrom}
use data_relay_grpc.OrderedMap.Lookup.{find-emplace, find-erase, find-assign, assign-AscendsFrom}
use data_relay_grpc.FileSystem.{FilePath, exists, canonical}
use data_relay_grpc.SessionStore.{word, reserve}
use data_relay_grpc.SessionStore
use data_relay_grpc.Session.{Blob, SessionImpl, Context, find, delete_blob_file}
use data_relay_grpc.Session.Accounting.{numbered_fresh}
use data_relay_grpc.Session.Evolution.{for_each-Evolves}
use data_relay_grpc.Session.Contents.{set, contents, emplace-contents}
use data_relay_grpc.Outcome.{for_each}
use data_relay_grpc.Manager.{Server, create_session, dispose, context, absorb}
use data_relay_grpc.Manager.Registry.{IsRegistered, fresh_session, dispose_found}
use data_relay_grpc.Manager.History.{IsSound}
use data_relay_grpc.Manager.Contract.{Entry, View, entry_of, seen, view_of, Storage, IsFresh}

abbrev pub storage_of : Server → Storage
storage_of s = record {
  stands = exists s.file_system;
  resolve = canonical s.file_system;
  new_file = SessionStore.create_blob_file s.store;
  has_room = λ size. (reserve s.store size).0;
}

pub view-found :
    (s : Server) (sid : ℕ) (impl : SessionImpl)
    → OrderedMap.find sid s.blob_sessions ≡ some impl
    → view_of s sid ≡ some (entry_of impl)
view-found s sid impl there = ap seen there

pub view-absorb :
    (s : Server) (sid : ℕ) (impl : SessionImpl) (c : Context)
    → OrderedMap.find sid s.blob_sessions ≡ some impl
    → view_of (absorb sid s c) ≡ set sid (some (entry_of c.impl)) (view_of s)
view-absorb s sid impl c there = λ i j. at j i
  where
    at : (j : ℕ) → view_of (absorb sid s c) j ≡ set sid (some (entry_of c.impl)) (view_of s) j
    at j = elim (Bool-cases (sid == j)) [
      | inl same ↦ rw (find-assign j sid c.impl s.blob_sessions, same, there) refl
      | inr other ↦ rw (find-assign j sid c.impl s.blob_sessions, other) refl
    ]

pub set-same : (v : View) (sid : ℕ) (e : Entry) → v sid ≡ some e → set sid (some e) v ≡ v
set-same v sid e there = λ i j. at j i
  where
    at : (j : ℕ) → set sid (some e) v j ≡ v j
    at j = elim (Bool-cases (sid == j)) [
      | inl same ↦ rw same (sym there ∙ ap v (ground arith))
      | inr other ↦ rw other refl
    ]

pub entry-path :
    (impl : SessionImpl) (o : Option ℕ) (f : ℕ → Option FilePath)
    → impl.transaction_id ≡ o
    → contents impl ≡ f
    → entry_of impl ≡ (let e : Entry = record { transaction = o; files = f } in e)
entry-path impl o f p q = λ i. record { transaction = p i; files = q i }

-- the entry of a session after a new BLOB
pub emplaced-entry :
    (impl : SessionImpl) (bid : ℕ) (b : Blob)
    → AscendsFrom 0 impl.blobs
    → OrderedMap.find bid impl.blobs ≡ none
    → entry_of (record impl { blobs = OrderedMap.emplace bid b impl.blobs }) ≡ (
        let e : Entry = record (entry_of impl) { files = set bid (some b.path) (contents impl) } in
        e)
emplaced-entry impl bid b a fresh =
    entry-path _ impl.transaction_id _ refl (emplace-contents impl bid b a fresh)

-- the entry of a session after a loop of deletions, however it has ended
pub deleted-entry :
    (ids : List ℕ) (c : Context) (fs : ℕ → Option FilePath)
    → AscendsFrom 0 c.blobs
    → contents (for_each delete_blob_file ids c).1.impl ≡ fs
    → entry_of (for_each delete_blob_file ids c).1.impl
      ≡ (let e : Entry = record (entry_of c.impl) { files = fs } in e)
deleted-entry ids c fs a is =
    entry-path _ c.transaction_id fs (for_each-Evolves ids c a).same_transaction is

pub view_of-IsFresh :
    {lost : ℕ} (s : Server) (k : ℕ) → IsSound lost s → s.blob_id < k → IsFresh k (view_of s)
unfolding find
view_of-IsFresh s k v lt other f e = elim (Option-cases (OrderedMap.find other s.blob_sessions)) [
  | inl gone ↦ cc (rw gone at e)
  | inr (impl, there) ↦
      let absent = numbered_fresh (context s impl) k (v.booked.numbered other impl there).1 lt in
      let same : some (entry_of impl) ≡ some f = rw there at e in
      let mine : entry_of impl ≡ f = cc in
      subst (λ (x : Entry). x.files k ≡ none) mine (ground (arith, absent))
]

pub created-view :
    (s : Server) (t : Option ℕ)
    → s.session_id + 1 < word
    → IsRegistered s.manager
    → view_of (create_session t s).1
      ≡ set
          ((s.session_id + 1) % word)
          (some (record { transaction = t; files = λ bid. none }))
          (view_of s)
unfolding create_session find OrderedMap.find
created-view s t fits r = λ i j. at j i
  where
    at :
        (j : ℕ)
        → view_of (create_session t s).1 j
          ≡ set
              ((s.session_id + 1) % word)
              (some (record { transaction = t; files = λ bid. none }))
              (view_of s)
              j
    at j =
        let id : ℕ = (s.session_id + 1) % word in
        let impl : SessionImpl = record { session_id = id; transaction_id = t; blobs = [] } in
        let fresh = fresh_session s.manager id r (omega arith) in
        elim (Bool-cases (id == j)) [
          | inl same ↦
              rw (find-emplace j id 0 impl s.blob_sessions r.sessions_ordered, same, fresh) refl
          | inr other ↦ rw (find-emplace j id 0 impl s.blob_sessions r.sessions_ordered, other) refl
        ]

disposed-view :
    (sid : ℕ) (s : Server) (impl : SessionImpl)
    → OrderedMap.find sid s.blob_sessions ≡ some impl
    → AscendsFrom 0 s.blob_sessions
    → view_of (record s { manager = dispose sid s.manager }) ≡ set sid none (view_of s)
disposed-view sid s impl there a = λ i j. at j i
  where
    at :
        (j : ℕ)
        → view_of (record s { manager = dispose sid s.manager }) j ≡ set sid none (view_of s) j
    at j =
        rw (dispose_found sid s.manager impl there, find-erase j sid 0 s.blob_sessions a)
          (elim (Bool-cases (sid == j)) [ inl same ↦ rw same refl | inr other ↦ rw other refl ])

set-set : (v : View) (sid : ℕ) (o : Option Entry) → set sid none (set sid o v) ≡ set sid none v
set-set v sid o = λ i j. at j i
  where
    at : (j : ℕ) → set sid none (set sid o v) j ≡ set sid none v j
    at j = elim (Bool-cases (sid == j)) [ inl same ↦ rw same refl | inr other ↦ rw other refl ]

-- the view after a session whose state has become `c` is erased
pub erased-view :
    {lost : ℕ} (s : Server) (sid : ℕ) (impl : SessionImpl) (c : Context)
    → OrderedMap.find sid s.blob_sessions ≡ some impl
    → IsSound lost s
    → (let t : Server = absorb sid s c in view_of (record t { manager = dispose sid t.manager }))
      ≡ set sid none (view_of s)
erased-view s sid impl c there v =
    let now : OrderedMap.find sid (assign sid c.impl s.blob_sessions) ≡ some c.impl =
      ground (arith, there, find-assign sid sid c.impl s.blob_sessions) in
    disposed-view sid (absorb sid s c) c.impl now
      (assign-AscendsFrom sid 0 c.impl s.blob_sessions v.registered.sessions_ordered)
    ∙ ap (set sid none) (view-absorb s sid impl c there)
    ∙ set-set (view_of s) sid (some (entry_of c.impl))
