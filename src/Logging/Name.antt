-- ===== src/Logging/Name.antt =====
-- The full name of a function within the text of `__PRETTY_FUNCTION__`.
use data_relay_grpc.Base.{
  ℕ, zero, suc, ◌+◌, ◌-◌, ◌<◌, ◌≤◌, ◌≡◌, ◌⊎◌, refl, ap, ◌∙◌, subst, inl, inr, ◌&&◌, not, none, some,
  ◌==◌, length, drop, arith, Bool-cases, Option-cases, length-take, length-drop,
}
use data_relay_grpc.Logging.{
  View, char_at, search_call, moved, scan_left, leftwards, start_of, between, find_fullname,
}
use data_relay_grpc.Logging.Nest.{ℤ, pos, is_positive}
use data_relay_grpc.Logging.Search.{Searched, search_call_lem}

length-leftwards : (v : View) (n : ℕ) → length (leftwards v n) ≡ n
unfolding leftwards
length-leftwards v zero = refl
length-leftwards v (suc n) = omega (arith, length-leftwards v n)

-- A name starts behind a space, or where the text starts.
abbrev pub StartsAt : View → ℕ → ℕ → Type 0
StartsAt v p start = (start ≡ 0) ⊎ ((start ≤ suc p) × (char_at v (start - 1) ≡ b' '))

scan_left_lem :
    (v : View) (p n k : ℕ) (nest : ℤ)
    → n ≤ suc p
    → scan_left (leftwards v n) nest ≡ some k
    → StartsAt v p k
unfolding scan_left leftwards
scan_left_lem v p zero k nest le e = cc
scan_left_lem v p (suc n) k nest le e =
    elim (Bool-cases ((char_at v n == b' ') && not (is_positive nest))) [
      | inl stops ↦
          let at : suc (length (leftwards v n)) ≡ k = ground arith in
          let n' : k ≡ suc n = omega (arith, length-leftwards v n) in
          let back : k - 1 ≡ n = omega arith in
          let space : char_at v n ≡ b' ' = ground arith in
          inr (omega arith, ap (char_at v) back ∙ space)
      | inr goes ↦ scan_left_lem v p n k (moved (char_at v n) nest) (omega arith) (rw goes at e)
    ]

start_of_lem : (v : View) (p : ℕ) → StartsAt v p (start_of v p)
unfolding start_of
start_of_lem v p = elim (Option-cases (scan_left (leftwards v (suc p)) (pos 0))) [
  | inl absent ↦ rw (absent, start_of) (inl refl)
  | inr (k, there) ↦ rw (there, start_of) (scan_left_lem v p (suc p) k (pos 0) (omega arith) there)
]

-- `find_fullname` ends. Either the function name stands nowhere in the text with a parenthesis
-- behind it, and the result is the function name; or the result ends with the first such place,
-- and starts with the text or behind a space of it.
pub find_fullname_lem :
    (prettyname funcname : View)
    → ((Searched prettyname funcname.chars 0 none) × (find_fullname prettyname funcname ≡ funcname))
      ⊎ ((p : ℕ) × (start : ℕ) × (Searched prettyname funcname.chars 0 (some p))
          × (StartsAt prettyname p start)
          × (find_fullname prettyname funcname
              ≡ between prettyname start (p + length funcname.chars)))
unfolding find_fullname
find_fullname_lem v f =
    let o = search_call (length v.chars + 2) v f.chars 0 in
    let h = search_call_lem (length v.chars + 2) v f.chars 0 (omega arith) (omega arith) in
    elim (Option-cases o) [
      | inl absent ↦ inl (subst (Searched v f.chars 0) absent h, rw (absent, find_fullname) refl)
      | inr (p, there) ↦ inr (
        p,
        start_of v p,
        subst (Searched v f.chars 0) there h,
        start_of_lem v p,
        rw (there, find_fullname) refl,
      )
    ]

-- The name is no longer than the longer of the two.
pub length-find_fullname :
    (v f : View) (n : ℕ)
    → length v.chars < n
    → length f.chars < n
    → length (find_fullname v f).chars < n
length-find_fullname v f n lt lt' = elim (find_fullname_lem v f) [
  | inl (_, e) ↦ omega (arith, ap (λ (w : View). length w.chars) e)
  | inr (p, start, _, _, e) ↦
      let end = p + length f.chars in
      omega (
        arith,
        ap (λ (w : View). length w.chars) e,
        length-take (end - start) (drop start v.chars),
        length-drop start v.chars,
      )
]
