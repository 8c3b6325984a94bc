-- ===== src/SessionStore/Concurrent.antt =====
-- common/detail/session_store.h, `reserve` and `remove` of class blob_session_store, by any number
-- of threads at once: each step is one atomic operation on `current_size_`. The counter is used
-- only where a quota is set. A thread may give back what another thread has reserved, as a call
-- that ends a session gives back what uploads have reserved.
use data_relay_grpc.Base.{
  ℕ, ◌+◌, ◌-◌, ◌%◌, ◌≤◌, ◌<◌, ◌≡◌, ◌≢◌, refl, ◌⊎◌, ◌∙◌, true, false, List, some, arith,
}
use data_relay_grpc.OrderedMap.{find, assign}
use data_relay_grpc.OrderedMap.Total.{total, total-assign}
use data_relay_grpc.OrderedMap.Holds.{assign-Holds}
use data_relay_grpc.SessionStore.{SessionStore, word, reserve}

-- where a thread stands: outside, or in the loop of `reserve` with its local `current`
pub data Phase : Type 0 where
  outside : Phase
  trying : (size current : ℕ) → Phase

pub record Thread : Type 0 where
  pub phase : Phase
  -- all that the thread has reserved so far
  pub reserved : ℕ

-- One atomic operation of one thread, with the tests that the thread makes on its result.
pub data Move (s : SessionStore) : Thread → SessionStore → Thread → Type 0 where
  load :
      {h : ℕ} (size : ℕ)
      → s.quota ≢ 0
      → Move s
          (record { phase = outside; reserved = h })
          s
          (record { phase = trying size s.current_size; reserved = h })
  refuse :
      {h size current : ℕ}
      → s.quota < (current + size) % word
      → Move s
          (record { phase = trying size current; reserved = h })
          s
          (record { phase = outside; reserved = h })
  exchange :
      {h size current : ℕ}
      → (current + size) % word ≤ s.quota
      → s.current_size ≡ current
      → Move s
          (record { phase = trying size current; reserved = h })
          (record s { current_size = (current + size) % word })
          (record { phase = outside; reserved = h + size })
  retry :
      {h size current : ℕ}
      → (current + size) % word ≤ s.quota
      → s.current_size ≢ current
      → Move s
          (record { phase = trying size current; reserved = h })
          s
          (record { phase = trying size s.current_size; reserved = h })
  give_back :
      {h : ℕ} (size : ℕ)
      → s.quota ≢ 0
      → Move s
          (record { phase = outside; reserved = h })
          (record s { current_size = (s.current_size + word - size) % word })
          (record { phase = outside; reserved = h })

pub record System : Type 0 where
  pub store : SessionStore
  pub threads : List (ℕ × Thread)

pub data Step (x : System) : System → Type 0 where
  pick :
      (i : ℕ) {t t' : Thread} {s : SessionStore}
      → find i x.threads ≡ some t
      → Move x.store t s t'
      → Step x (record { store = s; threads = assign i t' x.threads })

pub data Reach (x : System) : System → Type 0 where
  here : Reach x x
  next : {y z : System} → Reach x y → Step y z → Reach x z

abbrev pub reserved : System → ℕ
reserved x = total (λ t. t.reserved) x.threads

abbrev given_back : {s s' : SessionStore} {t t' : Thread} → Move s t s' t' → ℕ
given_back (load size set) = 0
given_back (refuse over) = 0
given_back (exchange fits same) = 0
given_back (retry fits other) = 0
given_back (give_back size set) = size

-- all that the threads have given back on the way
unfoldable pub returned : {x y : System} → Reach x y → ℕ
returned here = 0
returned (next r (pick i e mv)) = returned r + given_back mv

-- The size that a thread asks for does not wrap the sum with the quota; and the threads together
-- give back no more than they have reserved, where `gone` is what they gave back before.
abbrev IsFair : {s s' : SessionStore} {t t' : Thread} → System → ℕ → Move s t s' t' → Type 0
IsFair {s} x gone (load size set) = s.quota + size < word
IsFair x gone (refuse over) = Unit {0}
IsFair x gone (exchange fits same) = Unit {0}
IsFair x gone (retry fits other) = Unit {0}
IsFair x gone (give_back size set) = gone + size ≤ reserved x

unfoldable pub IsFitting : {x y : System} → Reach x y → Type 0
IsFitting here = Unit {0}
IsFitting (next {y} r (pick i e mv)) = IsFitting r × IsFair y (returned r) mv

-- A thread in the loop carries a size that cannot wrap the sum, and a value of the counter.
abbrev pub IsSane : SessionStore → Thread → Type 0
IsSane s t = elim t.phase [
  | outside ↦ Unit {0}
  | trying size current ↦ (s.quota + size < word) × (current ≤ s.quota)
]

-- the books, when `gone` has been given back
pub record IsCounted (gone : ℕ) (x : System) : Type 0 where
  pub exact : x.store.current_size + gone ≡ reserved x
  pub within : x.store.current_size ≤ x.store.quota
  pub sane : (i : ℕ) (t : Thread) → find i x.threads ≡ some t → IsSane x.store t

Move-quota : {s s' : SessionStore} {t t' : Thread} → Move s t s' t' → s'.quota ≡ s.quota
Move-quota (load size set) = refl
Move-quota (refuse over) = refl
Move-quota (exchange fits same) = refl
Move-quota (retry fits other) = refl
Move-quota (give_back size set) = refl

Move-counts :
    {s s' : SessionStore} {t t' : Thread} (x : System) (gone : ℕ) (mv : Move s t s' t')
    → IsFair x gone mv
    → s.current_size + gone ≡ reserved x
    → s.current_size ≤ s.quota
    → s.quota < word
    → IsSane s t
    → (s'.current_size + given_back mv + t.reserved ≡ s.current_size + t'.reserved)
      × (s'.current_size ≤ s.quota)
      × IsSane s' t'
Move-counts x gone (load size set) fair exact le small sane = (omega arith, le, (fair, le))
Move-counts x gone (refuse over) fair exact le small sane = (omega arith, le, tt)
Move-counts x gone (exchange fits same) fair exact le small sane = (omega arith, fits, tt)
Move-counts x gone (retry fits other) fair exact le small sane = (omega arith, le, (sane.0, le))
Move-counts x gone (give_back size set) fair exact le small sane = (omega arith, omega arith, tt)

IsSane-quota : (s s' : SessionStore) (t : Thread) → s'.quota ≡ s.quota → IsSane s t → IsSane s' t
IsSane-quota s s' t e h = ground arith

-- Every atomic operation of every thread keeps the books.
assign-IsCounted :
    {x : System} {gone : ℕ} {t t' : Thread} {s : SessionStore} (i : ℕ)
    → x.store.quota < word
    → find i x.threads ≡ some t
    → (mv : Move x.store t s t') → IsFair x gone mv
    → IsCounted gone x
    → IsCounted (gone + given_back mv) (record { store = s; threads = assign i t' x.threads })
assign-IsCounted {x} {gone} {t} {t'} {s} i small e mv fair c =
    let (balance, le, sane) = Move-counts x gone mv fair c.exact c.within small (c.sane i t e) in
    record {
      exact =
          omega
            (arith, total-assign (λ (u : Thread). u.reserved) i t t' x.threads e, c.exact, balance);
      within = rw (Move-quota mv) le;
      sane =
          assign-Holds (λ _ u. IsSane s u) i t' x.threads
            (λ j u f. IsSane-quota x.store s u (Move-quota mv) (c.sane j u f)) sane;
    }

Reach-IsCounted :
    {x y : System}
    → x.store.quota < word
    → IsCounted 0 x
    → (r : Reach x y) → IsFitting r
    → IsCounted (returned r) y × (y.store.quota ≡ x.store.quota)
unfolding returned IsFitting
Reach-IsCounted small c here fitting = (c, refl)
Reach-IsCounted small c (next r (pick i e mv)) (fitting, fair) =
    let (d, same) = Reach-IsCounted small c r fitting in
    (assign-IsCounted i (omega arith) e mv fair d, Move-quota mv ∙ same)

-- Whatever the order in which the atomic operations of the threads run, where the quota fits in 64
-- bits, each size that a thread asks to reserve does not wrap the sum with the quota, and a thread
-- gives back no more than all threads together have reserved and not yet given back: the usage
-- counter and all that has been given back are together all that the threads have reserved, and
-- the counter never exceeds the quota, if that held at the start with nothing given back, and each
-- thread that was in the loop then had loaded a value within the quota and asked for a size that
-- does not wrap.
pub quota_respected :
    {x y : System}
    → x.store.quota < word
    → IsCounted 0 x
    → (r : Reach x y) → IsFitting r
    → (y.store.current_size + returned r ≡ reserved y) × (y.store.current_size ≤ x.store.quota)
quota_respected small c r fitting =
    let (d, same) = Reach-IsCounted small c r fitting in (d.exact, ground (arith, d.within, same))

-- With a quota that is set, the compare-exchange that ends the loop of `reserve` with success does
-- to the counter, at that moment, what `reserve` does when it runs alone, with the same answer;
-- and the test that ends it with failure refuses what `reserve` refuses at the value that was
-- loaded.
pub Move-reserve :
    {s s' : SessionStore} {t t' : Thread} {size current : ℕ}
    → s.quota ≢ 0
    → Move s t s' t'
    → t.phase ≡ trying size current
    → t'.phase ≡ outside
    → ((t'.reserved ≡ t.reserved + size) × (reserve s size ≡ (true, s')))
      ⊎ ((t'.reserved ≡ t.reserved)
          × (s' ≡ s)
          × (reserve (record s { current_size = current }) size
              ≡ (false, record s { current_size = current })))
unfolding reserve
Move-reserve set (load size _) e f = cc
Move-reserve set (refuse over) e f = ground arith
Move-reserve set (exchange fits same) e f = ground arith
Move-reserve set (retry fits other) e f = cc
Move-reserve set (give_back size _) e f = cc
