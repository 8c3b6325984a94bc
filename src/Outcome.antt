-- ===== src/Outcome.antt =====
-- How a C++ call ends: it returns, it throws, or it has used an object that is gone. A call keeps
-- the changes that it made to its state before it threw.
use data_relay_grpc.Base.{◌≡◌, refl, Bool, true, false, List, [], ◌∷◌}
use data_relay_grpc.Text.{Text}
use data_relay_grpc.FileSystem.{FilePath}

-- The exceptions of the source. The text of `map_at` (`std::map::at` on a missing key) and of
-- `filesystem_error` is that of the C++ library in use.
pub data Exception : Type 0 where
  out_of_range : Text → Exception
  map_at : Exception
  runtime_error : Text → Exception
  filesystem_error : FilePath → Exception

-- what `catch (std::out_of_range &)` catches
abbrev pub is_out_of_range : Exception → Bool
is_out_of_range (out_of_range _) = true
is_out_of_range map_at = true
is_out_of_range (runtime_error _) = false
is_out_of_range (filesystem_error _) = false

pub data Outcome {ℓ} (A : Type ℓ) : Type ℓ where
  returns : A → Outcome A
  throws : Exception → Outcome A
  undefined : Outcome A

-- a call that works on a state `S`
abbrev pub M : Type 0 → Type 0 → Type 0
M S A = S → Outcome A × S

abbrev pub pure : {S A : Type 0} → A → M S A
pure a s = (returns a, s)

abbrev pub throw : {S A : Type 0} → Exception → M S A
throw e s = (throws e, s)

-- the rest of a call, after a part of it has ended
abbrev pub after : {S A B : Type 0} → Outcome A × S → (A → M S B) → Outcome B × S
after (returns a, s) k = k a s
after (throws e, s) k = (throws e, s)
after (undefined, s) k = (undefined, s)

infixl 5 ◌>>=◌ ◌>>◌
abbrev pub ◌>>=◌ : {S A B : Type 0} → M S A → (A → M S B) → M S B
◌>>=◌ m k s = after (m s) k

abbrev pub ◌>>◌ : {S B : Type 0} → M S (Unit {0}) → M S B → M S B
m >> k = m >>= λ _. k

-- `for (auto e : xs) body(e)`
unfoldable pub for_each : {S A : Type 0} → (A → M S (Unit {0})) → List A → M S (Unit {0})
for_each body [] s = (returns tt, s)
for_each body (x ∷ xs) s = after (body x s) (λ _. for_each body xs)

-- Inversion of a call that has returned, and of a loop that has run to its end.
pub after_returns :
    {S A B : Type 0} (r : Outcome A × S) (k : A → M S B) {b : B} {t : S}
    → after r k ≡ (returns b, t)
    → (a : A) × (s : S) × (r ≡ (returns a, s)) × (k a s ≡ (returns b, t))
after_returns (returns a, s) k e = (a, s, refl, e)
after_returns (throws x, s) k e = cc
after_returns (undefined, s) k e = cc

pub for_each_cons :
    {S A : Type 0} (body : A → M S (Unit {0})) (x : A) (xs : List A) (s t : S)
    → for_each body (x ∷ xs) s ≡ (returns tt, t)
    → (g : S) × (body x s ≡ (returns tt, g)) × (for_each body xs g ≡ (returns tt, t))
unfolding for_each
for_each_cons body x xs s t e =
    let (_, g, h, rest) = after_returns (body x s) (λ _. for_each body xs) e in (g, h, rest)

-- What holds of the state after the first part, and is kept by the rest, holds at the end.
pub after_keeps {ℓ} :
    {S A B : Type 0} (P : S → Type ℓ) (r : Outcome A × S) (k : A → M S B)
    → P r.1
    → ((a : A) (s : S) → r ≡ (returns a, s) → P s → P (k a s).1)
    → P (after r k).1
after_keeps P (returns a, s) k p f = f a s refl p
after_keeps P (throws x, s) k p f = p
after_keeps P (undefined, s) k p f = p
