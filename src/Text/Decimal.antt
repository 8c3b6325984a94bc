-- ===== src/Text/Decimal.antt =====
-- A decimal numeral is read back as its number, so two numbers never print alike.
use mathlib.Core.List.{foldl, foldl-append}
use data_relay_grpc.Base.{
  ℕ, zero, suc, ◌+◌, ◌-◌, ◌*◌, ◌/◌, ◌%◌, ◌<◌, ◌≡◌, sym, ap, ◌∙◌, [], ◌∷◌, ◌++◌, arith, ltb, inl,
  inr, Bool-cases,
}
use data_relay_grpc.Text.{Text, decimal, to_string}

-- the number that digits spell
abbrev pub value : Text → ℕ
value = foldl (λ n c. n * 10 + (c - b'0')) 0

value-append : (s : Text) (c : ℕ) → value (s ++ c ∷ []) ≡ value s * 10 + (c - b'0')
value-append s c = foldl-append _ 0 s (c ∷ [])

value-decimal : (fuel n : ℕ) → n < fuel → value (decimal fuel n) ≡ n
unfolding decimal
value-decimal zero n h = elim h [ ]
value-decimal (suc fuel) n h = elim (Bool-cases (ltb n 10)) [
  | inl small ↦ rw small (omega arith)
  | inr large ↦ rw large (
      value-append (decimal fuel (n / 10)) (b'0' + n % 10)
      ∙ ground (arith, value-decimal fuel (n / 10)))
]

pub value-to_string : (n : ℕ) → value (to_string n) ≡ n
unfolding to_string
value-to_string n = value-decimal (suc n) n (omega arith)

pub to_string-injective : (a b : ℕ) → to_string a ≡ to_string b → a ≡ b
to_string-injective a b e = sym (value-to_string a) ∙ ap value e ∙ value-to_string b
