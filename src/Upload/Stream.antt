-- ===== src/Upload/Stream.antt =====
-- The loop over the chunks of an upload: what has been stored after each chunk.
use data_relay_grpc.Base.{
  ℕ, ◌+◌, ◌%◌, ◌≤◌, ◌<◌, ◌≡◌, ◌≢◌, refl, sym, ap, ◌∙◌, inl, inr, Bool, true, false, List, [], ◌∷◌,
  ◌++◌, some, arith, ℕ_discrete, length, subst,
}
use data_relay_grpc.OrderedMap.{find, assign}
use data_relay_grpc.OrderedMap.Lookup.{find-assign}
use data_relay_grpc.FileSystem.{
  FilePath, FileSystem, regular, node, content_of, append_output, find_node,
}
use data_relay_grpc.FileSystem.Laws.{find_node-put_node, SameSystem}
use data_relay_grpc.SessionStore.{SessionStore, word}
use data_relay_grpc.SessionStore.Usage.{reserve_lem}
use data_relay_grpc.Session.{Blob, SessionImpl, Context, reserve_session_store}
use data_relay_grpc.Manager.{Server, with_session, context, absorb}
use data_relay_grpc.Manager.History.{IsSound}
use data_relay_grpc.Outcome.{Outcome, returns}

-- A BLOB whose first bytes are stored: the usage that is reserved for it is their number.
pub record IsStored (sid bid : ℕ) (path : FilePath) (bytes : List ℕ) (s : Server) : Type 0 where
  pub impl : SessionImpl
  pub blob : Blob
  pub sound : IsSound 0 s
  pub there : find sid s.blob_sessions ≡ some impl
  pub has : find bid impl.blobs ≡ some blob
  pub named : blob.path ≡ path
  pub sized : blob.size ≡ length bytes
  pub counted : length bytes ≤ s.store.current_size
  pub written : node s.file_system path ≡ some (regular bytes)

-- Every session is still there, with its id and its transaction.
abbrev pub KeepsSessions : Server → Server → Type 0
KeepsSessions s t =
    (sid : ℕ) (impl : SessionImpl)
    → find sid s.blob_sessions ≡ some impl
    → (impl' : SessionImpl) × (find sid t.blob_sessions ≡ some impl')
      × (impl'.session_id ≡ impl.session_id)
      × (impl'.transaction_id ≡ impl.transaction_id)

pub absorb-KeepsSessions :
    (sid : ℕ) (s : Server) (impl : SessionImpl) (c : Context)
    → find sid s.blob_sessions ≡ some impl
    → c.session_id ≡ impl.session_id
    → c.transaction_id ≡ impl.transaction_id
    → KeepsSessions s (absorb sid s c)
absorb-KeepsSessions sid s impl c there same_id same_transaction j i e = elim (ℕ_discrete sid j) [
  | yes it ↦
      let same : i ≡ impl = cc in
      (
        c.impl,
        ground (arith, there, find-assign j sid c.impl s.blob_sessions),
        same_id ∙ ap (λ (x : SessionImpl). x.session_id) (sym same),
        same_transaction ∙ ap (λ (x : SessionImpl). x.transaction_id) (sym same),
      )
  | no other ↦ (i, ground (arith, find-assign j sid c.impl s.blob_sessions), refl, refl)
]

-- The usage has grown by `n`, and no other file has changed.
pub record Advances (path : FilePath) (n : ℕ) (s t : Server) : Type 0 where
  pub used : t.store.current_size ≡ s.store.current_size + n
  pub same_quota : t.store.quota ≡ s.store.quota
  pub same_key : t.hmac_secret_key ≡ s.hmac_secret_key
  pub sessions : KeepsSessions s t
  pub same_system : SameSystem s.file_system t.file_system
  pub elsewhere :
      (q : FilePath)
      → s.file_system.resolve path ≢ q
      → find_node q t.file_system.nodes ≡ find_node q s.file_system.nodes

pub Advances-refl : (path : FilePath) (s : Server) → Advances path 0 s s
Advances-refl path s = record {
  used = omega arith;
  same_quota = refl;
  same_key = refl;
  sessions = λ sid impl e. (impl, e, refl, refl);
  same_system = record { resolve = refl; can_open = refl; can_remove = refl };
  elsewhere = λ q n. refl;
}

pub Advances-trans :
    {path : FilePath} {n m : ℕ} {s t u : Server}
    → Advances path n s t
    → Advances path m t u
    → Advances path (n + m) s u
Advances-trans {path} {n} {m} {s} {t} {u} a b = record {
  used = omega (arith, a.used, b.used);
  same_quota = b.same_quota ∙ a.same_quota;
  same_key = b.same_key ∙ a.same_key;
  sessions = λ sid impl e.
      let (i, f, x, y) = a.sessions sid impl e in
      let (j, g, x', y') = b.sessions sid i f in (j, g, x' ∙ x, y' ∙ y);
  same_system = record {
    resolve = b.same_system.resolve ∙ a.same_system.resolve;
    can_open = b.same_system.can_open ∙ a.same_system.can_open;
    can_remove = b.same_system.can_remove ∙ a.same_system.can_remove;
  };
  elsewhere = λ q n.
      b.elsewhere q (subst (λ (r : FilePath → FilePath). r path ≢ q) (sym a.same_system.resolve) n)
      ∙ a.elsewhere q n;
}

-- the session and the store after `n` more bytes are reserved
abbrev pub granted : (bid n : ℕ) → Blob → Context → Context
granted bid n b c = record c {
  impl = record (c.impl) { blobs = assign bid (record b { size = (b.size + n) % word }) c.blobs };
  store = record (c.store) { current_size = c.store.current_size + n };
}

pub reserve_granted :
    (c : Context) (bid n : ℕ) (b : Blob)
    → c.store.quota ≢ 0
    → c.store.quota + n < word
    → c.store.current_size + n ≤ c.store.quota
    → find bid c.blobs ≡ some b
    → reserve_session_store bid n c ≡ (returns true, granted bid n b c)
unfolding reserve_session_store
reserve_granted c bid n b set fits room has = elim (reserve_lem c.store n set fits (omega arith)) [
  | inr (over, _) ↦ absurd (omega arith)
  | inl (_, taken) ↦
      rw
        (
          has,
          ap (λ (r : Bool × SessionStore). r.0) taken,
          ap (λ (r : Bool × SessionStore). r.1) taken,
        )
        refl
]

pub reserve_refused :
    (c : Context) (bid n : ℕ)
    → c.store.quota ≢ 0
    → c.store.quota + n < word
    → c.store.current_size ≤ c.store.quota
    → c.store.quota < c.store.current_size + n
    → reserve_session_store bid n c ≡ (returns false, c)
unfolding reserve_session_store
reserve_refused c bid n set fits within over = elim (reserve_lem c.store n set fits within) [
  | inl (room, _) ↦ absurd (omega arith)
  | inr (_, refused) ↦ rw (ap (λ (r : Bool × SessionStore). r.0) refused) refl
]

pub with_session_found :
    {A : Type 0} (sid : ℕ) (method : Context → Outcome A × Context) (s : Server)
    (impl : SessionImpl)
    → find sid s.blob_sessions ≡ some impl
    → with_session sid method s
      ≡ ((method (context s impl)).0, absorb sid s (method (context s impl)).1)
unfolding with_session
with_session_found sid method s impl there = rw (there, with_session) refl

pub assign_same {ℓ} :
    {V : Type ℓ} (k : ℕ) (v : V) (m : List (ℕ × V)) → find k m ≡ some v → assign k v m ≡ m
unfolding find assign
assign_same k v [] e = refl
assign_same k v ((j, w) ∷ m) e = ground (arith, assign_same k v m)

pub node-append_output :
    (fs : FileSystem) (path : FilePath) (bytes more : List ℕ)
    → node fs path ≡ some (regular bytes)
    → node (append_output fs path more) path ≡ some (regular (bytes ++ more))
unfolding node append_output
node-append_output fs path bytes more e = ground (
  arith,
  e,
  find_node-put_node (fs.resolve path) (fs.resolve path)
      (regular (content_of (node fs path) ++ more)) fs.nodes,
)

pub append_output-elsewhere :
    (fs : FileSystem) (path q : FilePath) (more : List ℕ)
    → fs.resolve path ≢ q
    → find_node q (append_output fs path more).nodes ≡ find_node q fs.nodes
unfolding append_output
append_output-elsewhere fs path q more n = ground (
  arith,
  find_node-put_node (fs.resolve path) q (regular (content_of (node fs path) ++ more)) fs.nodes,
)
