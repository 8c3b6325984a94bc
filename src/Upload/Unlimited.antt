-- ===== src/Upload/Unlimited.antt =====
-- Uploads where the session storage has no quota (`quota` is 0).
use data_relay_grpc.Base.{
  ℕ, ◌+◌, ◌%◌, ◌≡◌, ◌≢◌, ◌⊎◌, refl, sym, ap, ◌∙◌, subst, Bool, true, false, List, [], ◌∷◌, Option,
  arith, length, inl, inr, Option-cases, if-cases, if◌then◌else◌,
}
use data_relay_grpc.OrderedMap.{find}
use data_relay_grpc.Text.{text}
use data_relay_grpc.FileSystem.{FilePath, open_output, remove}
use data_relay_grpc.TagGenerator.{OpenSsl}
use data_relay_grpc.SessionStore.{SessionStore, word, reserve}
use data_relay_grpc.Session.{
  SessionImpl, Context, create_blob_file, get_new_blob_id, reserve_session_store,
}
use data_relay_grpc.Manager.{Server, with_session, context, compute_tag}
use data_relay_grpc.Manager.Lookup.{get_session_impl_cases}
use data_relay_grpc.Outcome.{
  Exception, Outcome, returns, throws, undefined, is_out_of_range, M, after,
}
use data_relay_grpc.Relay.{
  resource_exhausted, PutMetadata, PutStreamingRequest, metadata, chunk, not_set, check_api_version,
}
use data_relay_grpc.Upload.{
  PutResult, Received, complete, stopped, give_up, write, receive, size_matches, respond, discard,
  conclude, upload, try_put, caught, put,
}

-- The method leaves the session storage as it is, and returns a BLOB's reservation at once.
with_session-store :
    {A : Type 0} (sid : ℕ) (method : M Context A) (s : Server)
    → ((c : Context) → c.store ≡ s.store → (method c).1.store ≡ s.store)
    → (with_session sid method s).1.store ≡ s.store
unfolding with_session
with_session-store sid method s keeps = elim (Option-cases (find sid s.blob_sessions)) [
  | inl absent ↦ ground (arith, absent)
  | inr (impl, there) ↦ rw (there, with_session) (keeps (context s impl) refl)
]

-- without a quota, no reservation is refused, and the counter does not move
reserve_session_store-true :
    (bid n : ℕ) (c : Context)
    → c.store.quota ≡ 0
    → ((reserve_session_store bid n c).1.store ≡ c.store)
      × ((reserve_session_store bid n c).0 ≢ returns false)
unfolding reserve_session_store reserve
reserve_session_store-true bid n c free = elim (Option-cases (find bid c.blobs)) [
  | inl absent ↦ (ground (arith, absent, free), λ e. ground (arith, absent, free))
  | inr (b, there) ↦ (ground (arith, there, free), λ e. ground (arith, there, free))
]

-- The session storage is as it was, and what is returned has the property.
abbrev Quiet : {A : Type 0} → (A → Type 0) → SessionStore → Outcome A × Server → Type 0
Quiet {A} P q r = (r.1.store ≡ q) × ((a : A) → r.0 ≡ returns a → P a)

after-Quiet :
    {A B : Type 0} (P : A → Type 0) (Q : B → Type 0) (q : SessionStore) (r : Outcome A × Server)
    (k : A → M Server B)
    → Quiet P q r
    → ((a : A) (t : Server) → P a → t.store ≡ q → Quiet Q q (k a t))
    → Quiet Q q (after r k)
after-Quiet P Q q (returns a, t) k (same, p) f = f a t (p a refl) same
after-Quiet P Q q (throws x, t) k (same, p) f = (same, λ b e. cc)
after-Quiet P Q q (undefined, t) k (same, p) f = (same, λ b e. cc)

granted_true : (b : Bool) → b ≢ false → b ≡ true
granted_true true n = refl
granted_true false n = absurd (n refl)

returns_back : {A : Type 0} {a b : A} → returns a ≡ returns b → a ≡ b
returns_back e = cc

Outcome-cases :
    {A : Type 0} (x : Outcome A)
    → ((a : A) × (x ≡ returns a)) ⊎ (((e : Exception) × (x ≡ throws e)) ⊎ (x ≡ undefined))
Outcome-cases (returns a) = inl (a, refl)
Outcome-cases (throws e) = inr (inl (e, refl))
Outcome-cases undefined = inr (inr refl)

reserve-Quiet :
    (sid bid n : ℕ) (q : SessionStore) (s : Server)
    → q.quota ≡ 0
    → s.store ≡ q
    → Quiet (λ b. b ≡ true) q (with_session sid (reserve_session_store bid n) s)
unfolding with_session
reserve-Quiet sid bid n q s free same = elim (Option-cases (find sid s.blob_sessions)) [
  | inl absent ↦ rw (absent, with_session) (same, λ b e. cc)
  | inr (impl, there) ↦
      let unlimited : s.store.quota ≡ 0 = ap (λ (x : SessionStore). x.quota) same ∙ free in
      let (kept, taken) = reserve_session_store-true bid n (context s impl) unlimited in
      rw (there, with_session)
        (kept ∙ same, λ b e. granted_true b (λ e'. taken (e ∙ ap returns e')))
]

create-Quiet :
    (sid : ℕ) (q : SessionStore) (s : Server)
    → s.store ≡ q
    → Quiet
        (λ (x : ℕ × FilePath). Unit {0})
        q
        (with_session sid (create_blob_file (text "upload")) s)
unfolding create_blob_file get_new_blob_id
create-Quiet sid q s same =
    (with_session-store sid (create_blob_file (text "upload")) s (λ c e. e) ∙ same, λ a e. tt)

-- a loop that is stopped is not stopped for the quota
abbrev IsUnstopped : Received → Type 0
IsUnstopped (complete total) = Unit {0}
IsUnstopped (stopped status) = status.code ≢ resource_exhausted

receive-Quiet :
    (sid bid : ℕ) (path : FilePath) (rs : List PutStreamingRequest) (total : ℕ) (q : SessionStore)
    (s : Server)
    → q.quota ≡ 0
    → s.store ≡ q
    → Quiet IsUnstopped q (receive sid bid path rs total s)
unfolding receive
receive-Quiet sid bid path [] total q s free same =
    (same, λ a e. subst IsUnstopped (returns_back e) tt)
receive-Quiet sid bid path (chunk bytes ∷ rest) total q s free same =
    after-Quiet (λ b. b ≡ true) IsUnstopped q _ _
      (reserve-Quiet sid bid (length bytes) q s free same)
      (λ b t is kept.
        subst
          (λ x. Quiet IsUnstopped q (
            if x
            then receive sid bid path rest ((total + length bytes) % word) (write path bytes t)
            else give_up sid bid t))
          (sym is)
          (receive-Quiet sid bid path rest ((total + length bytes) % word) q (write path bytes t)
            free kept))
receive-Quiet sid bid path (metadata m ∷ rest) total q s free same =
    (same, λ a e. subst IsUnstopped (returns_back e) (λ x. ground arith))
receive-Quiet sid bid path (not_set ∷ rest) total q s free same =
    (same, λ a e. subst IsUnstopped (returns_back e) (λ x. ground arith))

abbrev IsUnrefused : PutResult → Type 0
IsUnrefused r = r.status.code ≢ resource_exhausted

respond-Quiet :
    (o : OpenSsl) (impl : SessionImpl) (bid : ℕ) (q : SessionStore) (s : Server)
    → s.store ≡ q
    → Quiet IsUnrefused q (respond o impl bid s)
unfolding respond
respond-Quiet o impl bid q s same = elim (Outcome-cases (compute_tag o bid impl s.manager)) [
  | inl (tag, e) ↦ (ground (arith, e, same), λ a is x. ground (arith, e))
  | inr (inl (x, e)) ↦ (ground (arith, e, same), λ a is x. ground (arith, e))
  | inr (inr e) ↦ (ground (arith, e, same), λ a is x. ground (arith, e))
]

discard-Quiet :
    (path : FilePath) (q : SessionStore) (s : Server)
    → s.store ≡ q
    → Quiet IsUnrefused q (discard path s)
unfolding discard
discard-Quiet path q s same = elim (Option-cases (remove s.file_system path)) [
  | inl stuck ↦ (ground (arith, stuck, same), λ a is x. ground (arith, stuck))
  | inr (fs, e) ↦ (ground (arith, e, same), λ a is x. ground (arith, e))
]

conclude-Quiet :
    (o : OpenSsl) (blob_size : Option ℕ) (impl : SessionImpl) (bid : ℕ) (path : FilePath)
    (received : Received) (q : SessionStore) (s : Server)
    → IsUnstopped received
    → s.store ≡ q
    → Quiet IsUnrefused q (conclude o blob_size impl bid path received s)
unfolding conclude
conclude-Quiet o blob_size impl bid path (stopped status) q s other same =
    (same, λ a is. subst IsUnrefused (returns_back is) other)
conclude-Quiet o blob_size impl bid path (complete total) q s other same =
    if-cases (size_matches blob_size total) (Quiet IsUnrefused q)
      (respond-Quiet o impl bid q s same) (discard-Quiet path q s same)

upload-Quiet :
    (o : OpenSsl) (m : PutMetadata) (impl : SessionImpl) (rs : List PutStreamingRequest)
    (file : ℕ × FilePath) (q : SessionStore) (s : Server)
    → q.quota ≡ 0
    → s.store ≡ q
    → Quiet IsUnrefused q (upload o m impl rs file s)
unfolding upload
upload-Quiet o m impl rs (bid, path) q s free same =
    elim (Option-cases (open_output s.file_system path)) [
      | inl shut ↦ (ground (arith, shut, same), λ a is x. ground (arith, shut))
      | inr (fs, e) ↦
          let t : Server = record s { file_system = fs } in
          rw (upload, e)
            (after-Quiet IsUnstopped IsUnrefused q (receive m.session_id bid path rs 0 t)
              (conclude o m.blob_size impl bid path)
              (receive-Quiet m.session_id bid path rs 0 q t free same)
              (λ received u other kept.
                conclude-Quiet o m.blob_size impl bid path received q u other kept))
    ]

try_put-Quiet :
    (o : OpenSsl) (m : PutMetadata) (rs : List PutStreamingRequest) (q : SessionStore) (s : Server)
    → q.quota ≡ 0
    → s.store ≡ q
    → Quiet IsUnrefused q (try_put o m rs s)
unfolding try_put
try_put-Quiet o m rs q s free same = elim (get_session_impl_cases m.session_id s.manager) [
  | inl (impl, _, there) ↦
      rw (try_put, there)
        (after-Quiet (λ x. Unit {0}) IsUnrefused q
          (with_session m.session_id (create_blob_file (text "upload")) s) (upload o m impl rs)
          (create-Quiet m.session_id q s same)
          (λ file t _ kept. upload-Quiet o m impl rs file q t free kept))
  | inr missing ↦ (ground (arith, missing, same), λ a is x. ground (arith, missing))
]

caught-Quiet :
    (q : SessionStore) (r : Outcome PutResult × Server)
    → Quiet IsUnrefused q r
    → Quiet IsUnrefused q (caught r)
caught-Quiet q (returns p, s) h = h
caught-Quiet q (undefined, s) h = (h.0, λ a is. cc)
caught-Quiet q (throws x, s) h =
    if-cases (is_out_of_range x) (Quiet IsUnrefused q) (h.0, λ a is y. ground arith)
      (h.0, λ a is. cc)

-- The handler does not answer RESOURCE_EXHAUSTED.
abbrev pub IsNotExhausted : Outcome PutResult → Type 0
IsNotExhausted (returns p) = p.status.code ≢ resource_exhausted
IsNotExhausted (throws x) = Unit
IsNotExhausted undefined = Unit

Quiet-IsNotExhausted :
    (q : SessionStore) (x : Outcome PutResult × Server)
    → Quiet IsUnrefused q x
    → (x.1.store ≡ q) × IsNotExhausted x.0
Quiet-IsNotExhausted q (returns p, t) (same, f) = (same, f p refl)
Quiet-IsNotExhausted q (throws x, t) (same, f) = (same, tt)
Quiet-IsNotExhausted q (undefined, t) (same, f) = (same, tt)

-- Without a quota, an upload of any requests leaves the session storage as it is, the usage
-- counter included, and is never answered with RESOURCE_EXHAUSTED.
pub put_unlimited :
    (o : OpenSsl) (requests : List PutStreamingRequest) (s : Server)
    → s.store.quota ≡ 0
    → ((put o requests s).1.store ≡ s.store) × IsNotExhausted (put o requests s).0
unfolding put
put_unlimited o [] s free = (refl, λ x. ground arith)
put_unlimited o (chunk bytes ∷ rs) s free = (refl, λ x. ground arith)
put_unlimited o (not_set ∷ rs) s free = (refl, λ x. ground arith)
put_unlimited o (metadata m ∷ rs) s free =
    Quiet-IsNotExhausted s.store (put o (metadata m ∷ rs) s) (
      if-cases (check_api_version m.api_version) (Quiet IsUnrefused s.store)
        (caught-Quiet s.store (try_put o m rs s) (try_put-Quiet o m rs s.store s free refl))
        (refl, λ a is x. ground arith))
