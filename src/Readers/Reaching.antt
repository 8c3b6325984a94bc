-- ===== src/Readers/Reaching.antt =====
-- A download comes to the end that a result says.
use data_relay_grpc.Base.{
  ℕ, suc, ◌≡◌, ◌≢◌, refl, sym, ap, ◌∙◌, subst, inl, inr, List, [], Option, none, some, arith,
}
use data_relay_grpc.FileSystem.{FilePath}
use data_relay_grpc.Session.{SessionImpl}
use data_relay_grpc.Manager.{Api, get_session_impl}
use data_relay_grpc.Manager.Lookup.{get_session_impl_cases}
use data_relay_grpc.Relay.{Status, GetStreamingRequest, GetStreamingResponse}
use data_relay_grpc.Download
use data_relay_grpc.Download.{
  session_storage_id, limestone_blob_store, Flow, goes, ends, raises, lost, calls, Origin,
  find_origin, same_transaction, check_transaction, no_blob, path_or_end, check_tag, ◌>>=◌, ◌>>◌,
  locate, expected_tag, read_chunks, GetResult, handled, send_blob, authorize, get, sent, all_sent,
}
use data_relay_grpc.Readers.Stream.{repeat}
use data_relay_grpc.Readers.{Sight, Phase, ended, go, through, step, walk}

pub >>=-assoc :
    {A B C : Type 0} (m : Flow A) (f : A → Flow B) (k : B → Flow C)
    → ((m >>= f) >>= k) ≡ (m >>= λ a. f a >>= k)
>>=-assoc (goes a) f k = refl
>>=-assoc (ends status) f k = refl
>>=-assoc (raises x) f k = refl
>>=-assoc lost f k = refl

pub path_or_end-ne-lost : (p : Option FilePath) → path_or_end p ≢ lost
path_or_end-ne-lost none e = cc
path_or_end-ne-lost (some path) e = cc

pub same_transaction-ne-lost : (tid : ℕ) (impl : SessionImpl) → same_transaction tid impl ≢ lost
unfolding same_transaction
same_transaction-ne-lost tid impl e = ground arith

module _ (api : Api) (c : ℕ) (r : GetStreamingRequest) (v : Sight) where
  -- The handler comes to where the result says.
  abbrev pub Reaches : Phase → GetResult → Type 0
  Reaches p g =
      (n : ℕ) × (status : Status) × (rs : List GetStreamingResponse) × (g
        ≡ Download.ended status rs)
      × (walk api c r p (repeat n v) ≡ ended status rs)

  pub Reaches-step :
      (p : Phase) {q : Phase} {g : GetResult} → step api c r p v ≡ q → Reaches q g → Reaches p g
  unfolding walk
  Reaches-step p e (n, status, rs, is, at) =
      (suc n, status, rs, is, ap (λ x. walk api c r x (repeat n v)) e ∙ at)

  pub Reaches-by :
      (p : Phase) {q : Phase} {g g' : GetResult}
      → step api c r p v ≡ q
      → g' ≡ g
      → Reaches q g
      → Reaches p g'
  unfolding walk
  Reaches-by p e is (n, status, rs, ends_so, at) =
      (suc n, status, rs, is ∙ ends_so, ap (λ x. walk api c r x (repeat n v)) e ∙ at)

  pub Reaches-is : {p p' : Phase} {g g' : GetResult} → p ≡ p' → g ≡ g' → Reaches p' g' → Reaches p g
  Reaches-is e is (n, status, rs, ends_so, at) =
      (n, status, rs, is ∙ ends_so, ap (λ x. walk api c r x (repeat n v)) e ∙ at)

  pub Reaches-ended :
      (status : Status) (rs : List GetStreamingResponse)
      → Reaches (ended status rs) (Download.ended status rs)
  unfolding walk
  Reaches-ended status rs = (0, status, rs, refl, refl)

  pub Reaches-go :
      {A : Type 0} (m : Flow A) (k : A → Phase) (rest : A → Flow FilePath)
      → m ≢ lost
      → ((a : A) → m ≡ goes a → Reaches (k a) (handled v.server.file_system c (rest a)))
      → Reaches (go m k) (handled v.server.file_system c (m >>= rest))
  Reaches-go (goes a) k rest there f = f a refl
  Reaches-go (ends status) k rest there f = Reaches-ended status []
  Reaches-go (raises x) k rest there f = Reaches-ended _ []
  Reaches-go lost k rest there f = absurd (there refl)

  -- A session that is found is there when it is used.
  pub Reaches-session :
      {A : Type 0} (p next : Phase) (sid : ℕ) (use_of : SessionImpl → Flow A) (k : A → Phase)
      (rest : A → Flow FilePath)
      → step api c r p v ≡ go (calls (get_session_impl sid v.server.manager)) (λ _. next)
      → step api c r next v ≡ go (through sid v.server use_of) k
      → ((impl : SessionImpl) → use_of impl ≢ lost)
      → ((a : A) → Reaches (k a) (handled v.server.file_system c (rest a)))
      → Reaches p (
          handled v.server.file_system c
            ((calls (get_session_impl sid v.server.manager) >>= use_of) >>= rest))
  Reaches-session p next sid use_of k rest e e' there f =
      let fs = v.server.file_system in
      let found = calls (get_session_impl sid v.server.manager) in
      subst (λ g. Reaches p (handled fs c g)) (sym (>>=-assoc found use_of rest))
        (elim (get_session_impl_cases sid v.server.manager) [
          | inl (impl, at, is) ↦
              let out : found ≡ goes impl = ap calls is in
              subst (λ g. Reaches p (handled fs c (g >>= λ a. use_of a >>= rest))) (sym out)
                (Reaches-step p (e ∙ ap (λ g. go g (λ _. next)) out) (
                  Reaches-step next
                    (e'
                      ∙ ap
                          (λ (x : Option SessionImpl).
                            go (elim x [ none ↦ lost | some i ↦ use_of i ]) k)
                          at)
                    (Reaches-go (use_of impl) k rest (there impl) (λ a _. f a))))
          | inr is ↦
              let out : found ≡ raises _ = ap calls is in
              subst (λ g. Reaches p (handled fs c (g >>= λ a. use_of a >>= rest))) (sym out)
                (Reaches-step p (e ∙ ap (λ g. go g (λ _. next)) out) (Reaches-ended _ []))
        ])
