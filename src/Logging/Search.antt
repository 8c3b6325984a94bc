-- ===== src/Logging/Search.antt =====
-- The search for the function name with a parenthesis behind it.
use data_relay_grpc.Base.{
  ℕ, zero, suc, ◌+◌, ◌<◌, ◌≤◌, ◌≡◌, refl, sym, subst, inl, inr, Bool, true, false, [], ◌∷◌, Option,
  none, some, dec_lt, ℕ_discrete, ◌==◌, if◌then◌else◌, length, drop, arith, Bool-cases,
  Option-cases,
}
use data_relay_grpc.Text.{Text}
use data_relay_grpc.Logging.{View, char_at, starts_with, later, find, search_call}

starts_with-length : (f s : Text) → starts_with f s ≡ true → length f ≤ length s
unfolding starts_with
starts_with-length [] s e = omega arith
starts_with-length (c ∷ cs) [] e = cc
starts_with-length (c ∷ cs) (d ∷ ds) e = omega (arith, starts_with-length cs ds (ground arith))

-- Whether the name stands at `q`
abbrev stands : Text → Text → ℕ → Bool
stands f s q = starts_with f (drop q s)

record IsFirst (f : Text) (n p : ℕ) (s : Text) : Type 0 where
  behind : n ≤ p
  within : p + length f ≤ length s
  found : stands f s p ≡ true
  first : (q : ℕ) → n ≤ q → q < p → stands f s q ≡ false

IsFirst-here : (f s : Text) → starts_with f s ≡ true → IsFirst f 0 0 s
IsFirst-here f s e = record {
  behind = omega arith;
  within = omega (arith, starts_with-length f s e);
  found = e;
  first = λ q _ lt. absurd (omega arith);
}

later_cases : (o : Option ℕ) (p : ℕ) → later o ≡ some p → (r : ℕ) × (o ≡ some r) × (p ≡ suc r)
later_cases none p e = cc
later_cases (some r) p e = (r, refl, ground arith)

IsFirst-later :
    (f : Text) (n r c : ℕ) (cs : Text) → IsFirst f n r cs → IsFirst f (suc n) (suc r) (c ∷ cs)
IsFirst-later f n r c cs h = record {
  behind = omega (arith, h.behind);
  within = omega (arith, h.within);
  found = h.found;
  first = first;
}
  where
    first : (q : ℕ) → suc n ≤ q → q < suc r → stands f (c ∷ cs) q ≡ false
    first zero le lt = absurd (omega arith)
    first (suc q) le lt = h.first q (omega arith) (omega arith)

IsFirst-next :
    (f : Text) (r c : ℕ) (cs : Text)
    → starts_with f (c ∷ cs) ≡ false
    → IsFirst f 0 r cs
    → IsFirst f 0 (suc r) (c ∷ cs)
IsFirst-next f r c cs e h = record {
  behind = omega arith;
  within = omega (arith, h.within);
  found = h.found;
  first = first;
}
  where
    first : (q : ℕ) → 0 ≤ q → q < suc r → stands f (c ∷ cs) q ≡ false
    first zero le lt = e
    first (suc q) le lt = h.first q (omega arith) (omega arith)

-- `find` gives the first place from `n` on.
find_lem : (f : Text) (n p : ℕ) (s : Text) → find f n s ≡ some p → IsFirst f n p s
unfolding find
find_lem f zero p [] e = elim (Bool-cases (starts_with f [])) [
  | inl stands ↦
      let at : 0 ≡ p = ground arith in subst (λ r. IsFirst f 0 r []) at (IsFirst-here f [] stands)
  | inr other ↦ absurd (ground arith)
]
find_lem f zero p (c ∷ cs) e = elim (Bool-cases (starts_with f (c ∷ cs))) [
  | inl stands ↦
      let at : 0 ≡ p = ground arith in
      subst (λ r. IsFirst f 0 r (c ∷ cs)) at (IsFirst-here f (c ∷ cs) stands)
  | inr other ↦
      let (r, there, at) = later_cases (find f 0 cs) p (rw other at e) in
      subst (λ q. IsFirst f 0 q (c ∷ cs)) (sym at)
        (IsFirst-next f r c cs other (find_lem f 0 r cs there))
]
find_lem f (suc n) p [] e = cc
find_lem f (suc n) p (c ∷ cs) e =
    let (r, there, at) = later_cases (find f n cs) p e in
    subst (λ q. IsFirst f (suc n) q (c ∷ cs)) (sym at)
      (IsFirst-later f n r c cs (find_lem f n r cs there))

later-none : (o : Option ℕ) → later o ≡ none → o ≡ none
later-none none e = refl
later-none (some r) e = cc

find-none :
    (f : Text) (n q : ℕ) (s : Text)
    → find f n s ≡ none
    → n ≤ q
    → q ≤ length s
    → stands f s q ≡ false
unfolding find
find-none f zero zero [] e le fits = ground arith
find-none f zero (suc q) [] e le fits = absurd (omega arith)
find-none f zero zero (c ∷ cs) e le fits = ground arith
find-none f zero (suc q) (c ∷ cs) e le fits = elim (Bool-cases (starts_with f (c ∷ cs))) [
  | inl here ↦ absurd (ground arith)
  | inr other ↦
      find-none f 0 q cs (later-none (find f 0 cs) (rw other at e)) (omega arith) (omega arith)
]
find-none f (suc n) q [] e le fits = absurd (omega arith)
find-none f (suc n) zero (c ∷ cs) e le fits = absurd (omega arith)
find-none f (suc n) (suc q) (c ∷ cs) e le fits =
    find-none f n q cs (later-none (find f n cs) e) (omega arith) (omega arith)

-- A call at `q`
abbrev pub IsCall : View → Text → ℕ → Type 0
IsCall v f q = (starts_with f (drop q v.chars) ≡ true) × (char_at v (q + length f) ≡ b'(')

-- What the loop ends with, given a round for each character: the first call from `n` on, or
-- nothing, and then there is none.
abbrev pub Searched : View → Text → ℕ → Option ℕ → Type 0
Searched v f n none = (q : ℕ) → n ≤ q → q ≤ length v.chars → IsCall v f q → ⊥
Searched v f n (some p) =
    (n ≤ p)
    × (p + length f ≤ length v.chars)
    × IsCall v f p
    × ((q : ℕ) → n ≤ q → q < p → IsCall v f q → ⊥)

Searched-from :
    (v : View) (f : Text) (n m : ℕ) (o : Option ℕ)
    → n ≤ m
    → ((q : ℕ) → n ≤ q → q < m → IsCall v f q → ⊥)
    → Searched v f m o
    → Searched v f n o
Searched-from v f n m none le skipped h = λ q lo hi call. elim (dec_lt q m) [
  | yes lt ↦ skipped q lo lt call
  | no ge ↦ h q (omega arith) hi call
]
Searched-from v f n m (some p) le skipped (lo, fits, call, first) = (
  omega arith,
  fits,
  call,
  (λ q lo' lt c. elim (dec_lt q m) [
    | yes before ↦ skipped q lo' before c
    | no ge ↦ first q (omega arith) lt c
  ]),
)

search_none :
    (fuel : ℕ) (v : View) (f : Text) (n : ℕ)
    → find f n v.chars ≡ none
    → search_call (suc fuel) v f n ≡ none
unfolding search_call
search_none fuel v f n absent = rw (absent, search_call) refl

search_some :
    (fuel : ℕ) (v : View) (f : Text) (n p : ℕ)
    → find f n v.chars ≡ some p
    → search_call (suc fuel) v f n
      ≡ (if char_at v (p + length f) == b'(' then some p else search_call fuel v f (suc p))
unfolding search_call
search_some fuel v f n p there = elim (Bool-cases (char_at v (p + length f) == b'(')) [
  | inl call ↦ rw (there, call, search_call) refl
  | inr other ↦ rw (there, other, search_call) refl
]

pub search_call_lem :
    (fuel : ℕ) (v : View) (f : Text) (n : ℕ)
    → length v.chars + 2 ≤ fuel + n
    → 0 < fuel
    → Searched v f n (search_call fuel v f n)
search_call_lem zero v f n enough lt = absurd (omega arith)
search_call_lem (suc fuel) v f n enough lt = elim (Option-cases (find f n v.chars)) [
  | inl absent ↦
      subst (Searched v f n) (sym (search_none fuel v f n absent))
        (λ q lo hi call. absurd (ground (arith, find-none f n q v.chars absent lo hi)))
  | inr (p, there) ↦
      let h = find_lem f n p v.chars there in
      let lo : n ≤ p = h.behind in
      let fits = h.within in
      let skipped : (q : ℕ) → n ≤ q → q < p → IsCall v f q → ⊥ =
        λ q lo' before call. absurd (ground (arith, h.first q lo' before)) in
      subst (Searched v f n) (sym (search_some fuel v f n p there))
        (elim (Bool-cases (char_at v (p + length f) == b'(')) [
          | inl call ↦
              subst (λ b. Searched v f n (if b then some p else search_call fuel v f (suc p)))
                (sym call) (lo, fits, (h.found, ground arith), skipped)
          | inr other ↦
              subst (λ b. Searched v f n (if b then some p else search_call fuel v f (suc p)))
                (sym other)
                (Searched-from v f n (suc p) (search_call fuel v f (suc p)) (omega arith)
                  (λ q lo' before call. elim (ℕ_discrete q p) [
                    | yes same ↦ absurd (ground arith)
                    | no apart ↦ skipped q lo' (omega arith) call
                  ])
                  (search_call_lem fuel v f (suc p) (omega arith)
                    (omega (arith, lo, fits, enough))))
        ])
]
