-- ===== src/Logging/Prefix.antt =====
-- What stands in the buffer of `location_prefix`, and that nothing is written behind its end.
use data_relay_grpc.Base.{
  ℕ, suc, ◌+◌, ◌-◌, ◌<◌, ◌≤◌, ◌≡◌, ◌≢◌, ◌⊎◌, refl, sym, ap, ◌∙◌, subst, inl, inr, Bool, true, false,
  ◌&&◌, not, List, [], ◌∷◌, ◌++◌, Option, some, ◌==◌, if◌then◌else◌, length, arith, Bool-cases,
  append_assoc, append-nil, All, length-append,
}
use data_relay_grpc.Text.{Text}
use data_relay_grpc.Logging.{
  View, char_at, Writer, put_at, push, write_char, write_chars, zeros, location_prefix, ◌>>=◌, max,
  find_fullname, view_of, function_prefix,
}
use data_relay_grpc.Logging.Name.{length-find_fullname}
use data_relay_grpc.Logging.Nest.{ℤ, pos, sucℤ, predℤ, is_positive}

-- The character goes into the prefix.
abbrev pub is_written : ℕ → ℤ → Bool → Bool
is_written c nest skip =
    if skip
    then false
    else if c == b'<'
    then false
    else if c == b'>'
    then false
    else not (is_positive nest)

abbrev pub skips : (c next : ℕ) → ℤ → Bool → Bool
skips c next nest skip = is_written c nest skip && ((c == b':') && (next == b':'))

abbrev pub nests : ℕ → ℤ → Bool → ℤ
nests c nest skip =
    if skip then nest else if c == b'<' then sucℤ nest else if c == b'>' then predℤ nest else nest

abbrev pub next_char : ℕ → List ℕ → ℕ
next_char following [] = following
next_char following (c ∷ cs) = c

abbrev pub shown : Bool → ℕ → List ℕ → List ℕ
shown true c rest = c ∷ rest
shown false c rest = rest

-- what the name contributes to the prefix
unfoldable pub stripped : ℕ → List ℕ → ℤ → Bool → List ℕ
stripped following [] nest skip = []
stripped following (c ∷ cs) nest skip =
    shown (is_written c nest skip) c
      (stripped following cs (nests c nest skip) (skips c (next_char following cs) nest skip))

put_at_lem :
    (out : List ℕ) (c d : ℕ) (ds : List ℕ)
    → put_at (length out) c (out ++ d ∷ ds) ≡ some (out ++ c ∷ ds)
unfolding put_at
put_at_lem [] c d ds = refl
put_at_lem (x ∷ out) c d ds = rw (put_at_lem out c d ds) refl

-- the writer that has written `out`, with `k` places left
abbrev writer : List ℕ → ℕ → ℤ → Bool → Writer
writer out k nest skip = record {
  buf = out ++ zeros k;
  p = length out;
  tv_nest = nest;
  skip = skip;
}

length-snoc : (out : List ℕ) (c : ℕ) → length (out ++ c ∷ []) ≡ suc (length out)
length-snoc out c = omega (arith, length-append out (c ∷ []))

push_lem :
    (c : ℕ) (out : List ℕ) (k : ℕ) (nest : ℤ) (skip : Bool)
    → push c (writer out (suc k) nest skip) ≡ some (writer (out ++ c ∷ []) k nest skip)
unfolding push zeros
push_lem c out k nest skip =
    rw (put_at_lem out c 0 (zeros k), length-snoc out c, append_assoc out (c ∷ []) (zeros k)) refl

write_char_lem :
    (c next : ℕ) (out : List ℕ) (k : ℕ) (nest : ℤ) (skip : Bool)
    → ((is_written c nest skip ≡ true)
        × (write_char c next (writer out (suc k) nest skip)
            ≡ some (writer (out ++ c ∷ []) k (nests c nest skip) (skips c next nest skip))))
      ⊎ ((is_written c nest skip ≡ false)
          × ((n : ℕ)
              → write_char c next (writer out n nest skip)
                ≡ some (writer out n (nests c nest skip) (skips c next nest skip))))
unfolding write_char
write_char_lem c next out k nest true = inr (refl, (λ n. refl))
write_char_lem c next out k nest false = elim (Bool-cases (c == b'<')) [
  | inl opens ↦ rw opens (inr (refl, (λ n. refl)))
  | inr e ↦ elim (Bool-cases (c == b'>')) [
    | inl closes ↦ rw (e, closes) (inr (refl, (λ n. refl)))
    | inr f ↦ elim (Bool-cases (is_positive nest)) [
      | inl inside ↦ rw (e, f, inside) (inr (refl, (λ n. refl)))
      | inr outside ↦
          rw (e, f, outside) (inl (refl, push_lem c out k nest ((c == b':') && (next == b':'))))
    ]
  ]
]

next_char_lem :
    (following : ℕ) (cs : List ℕ)
    → char_at (record { chars = cs; following = following }) 0 ≡ next_char following cs
unfolding char_at
next_char_lem following [] = refl
next_char_lem following (c ∷ cs) = refl

abbrev EndsAt : Option Writer → List ℕ → ℕ → Type 0
EndsAt r out k = (nest : ℤ) × (skip : Bool) × (r ≡ some (writer out k nest skip))

write_chars_lem :
    (following : ℕ) (cs out : List ℕ) (k n : ℕ) (nest : ℤ) (skip : Bool)
    → n ≡ length (stripped following cs nest skip) + k
    → EndsAt
        (write_chars following cs (writer out n nest skip))
        (out ++ stripped following cs nest skip)
        k
unfolding write_chars stripped
write_chars_lem following [] out k n nest skip e =
    let e' : n ≡ k = omega arith in
    (nest, skip, rw (append-nil out) (ap (λ m. some (writer out m nest skip)) e'))
write_chars_lem following (c ∷ cs) out k n nest skip e =
    let next = next_char following cs in
    let nest' = nests c nest skip in
    let skip' = skips c next nest skip in
    let rest = stripped following cs nest' skip' in
    let go = λ (o : Option Writer). o >>= write_chars following cs in
    let reads = λ (m : ℕ).
      ap (λ x. go (write_char c x (writer out m nest skip))) (next_char_lem following cs) in
    elim (write_char_lem c next out (length rest + k) nest skip) [
      | inl (shows, step) ↦
          let s = ap (λ b. shown b c rest) shows in
          let e' : n ≡ suc (length rest + k) = e ∙ ap (λ xs. length xs + k) s ∙ omega arith in
          let (nest₂, skip₂, r) =
            write_chars_lem following cs (out ++ c ∷ []) k (length rest + k) nest' skip' refl in
          subst
            (λ xs. EndsAt (write_chars following (c ∷ cs) (writer out n nest skip)) (out ++ xs) k)
            (sym s)
            (
              nest₂,
              skip₂,
              ap (λ m. write_chars following (c ∷ cs) (writer out m nest skip)) e'
                  ∙ reads (suc (length rest + k))
                  ∙ ap go step
                  ∙ r
                  ∙ ap (λ xs. some (writer xs k nest₂ skip₂)) (append_assoc out (c ∷ []) rest),
            )
      | inr (hides, step) ↦
          let s = ap (λ b. shown b c rest) hides in
          let (nest₂, skip₂, r) =
            write_chars_lem following cs out k n nest' skip' (e ∙ ap (λ xs. length xs + k) s) in
          subst
            (λ xs. EndsAt (write_chars following (c ∷ cs) (writer out n nest skip)) (out ++ xs) k)
            (sym s) (nest₂, skip₂, reads n ∙ ap go (step n) ∙ r)
    ]

length-shown : (b : Bool) (c : ℕ) (rest : List ℕ) → length (shown b c rest) ≤ suc (length rest)
length-shown true c rest = omega arith
length-shown false c rest = omega arith

length-stripped :
    (following : ℕ) (cs : List ℕ) (nest : ℤ) (skip : Bool)
    → length (stripped following cs nest skip) ≤ length cs
unfolding stripped
length-stripped following [] nest skip = omega arith
length-stripped following (c ∷ cs) nest skip =
    let rest =
      stripped following cs (nests c nest skip) (skips c (next_char following cs) nest skip) in
    let le =
      length-stripped following cs (nests c nest skip)
        (skips c (next_char following cs) nest skip) in
    omega (arith, length-shown (is_written c nest skip) c rest, le)

location_prefix_lem :
    (n : ℕ) (sv : View)
    → length sv.chars < n
    → location_prefix n sv
      ≡ some (
          (b'/' ∷ b':' ∷ stripped sv.following sv.chars (pos 0) false ++ b' ' ∷ [])
          ++ zeros (n - length (stripped sv.following sv.chars (pos 0) false)))
unfolding location_prefix zeros
location_prefix_lem n sv fits =
    let name = stripped sv.following sv.chars (pos 0) false in
    let k : ℕ = n - length name in
    let le = length-stripped sv.following sv.chars (pos 0) false in
    let j : ℕ = n - length name - 1 in
    let room : n + 3 ≡ suc (suc (length name + suc (suc j))) = omega arith in
    let left : n - length name ≡ suc j = omega arith in
    let (nest, skip, r) =
      write_chars_lem sv.following sv.chars (b'/' ∷ b':' ∷ []) (suc (suc j))
        (length name + suc (suc j)) (pos 0) false refl in
    let out = b'/' ∷ b':' ∷ name in
    let last = λ (o : Option Writer). o >>= λ space. put_at space.p 0 space.buf in
    let spaced = λ (o : Option Writer). o >>= λ name. last (push b' ' name) in
    let named =
      λ (o : Option Writer). o >>= λ colon. spaced (write_chars sv.following sv.chars colon) in
    let slashed = λ (o : Option Writer). o >>= λ slash. named (push b':' slash) in
    ap (λ m. slashed (push b'/' (writer [] m (pos 0) false))) room
    ∙ ap slashed (push_lem b'/' [] (suc (length name + suc (suc j))) (pos 0) false)
    ∙ ap named (push_lem b':' (b'/' ∷ []) (length name + suc (suc j)) (pos 0) false)
    ∙ ap spaced r
    ∙ ap last (push_lem b' ' out (suc j) nest skip)
    ∙ put_at_lem (out ++ b' ' ∷ []) 0 0 (zeros j)
    ∙ ap (λ m. some ((out ++ b' ' ∷ []) ++ zeros m)) (sym left)

-- no bracket
abbrev pub IsPlain : List ℕ → Type 0
IsPlain = All (λ c. (c ≢ b'<') × (c ≢ b'>'))

shown-IsPlain :
    (c : ℕ) (nest : ℤ) (skip : Bool) (rest : List ℕ)
    → IsPlain rest
    → IsPlain (shown (is_written c nest skip) c rest)
shown-IsPlain c nest true rest h = h
shown-IsPlain c nest false rest h = elim (Bool-cases (c == b'<')) [
  | inl opens ↦ rw opens h
  | inr e ↦ elim (Bool-cases (c == b'>')) [
    | inl closes ↦ rw (e, closes) h
    | inr f ↦ elim (Bool-cases (is_positive nest)) [
      | inl inside ↦ rw (e, f, inside) h
      | inr outside ↦ rw (e, f, outside) ((ground arith, ground arith), h)
    ]
  ]
]

stripped-IsPlain :
    (following : ℕ) (cs : List ℕ) (nest : ℤ) (skip : Bool)
    → IsPlain (stripped following cs nest skip)
unfolding stripped
stripped-IsPlain following [] nest skip = tt
stripped-IsPlain following (c ∷ cs) nest skip =
    shown-IsPlain c nest skip _ (
      stripped-IsPlain following cs (nests c nest skip)
        (skips c (next_char following cs) nest skip))

-- what a function's name contributes to its prefix
abbrev pub plain_name : (prettyname funcname : Text) → List ℕ
plain_name prettyname funcname =
    let sv = find_fullname (view_of prettyname) (view_of funcname) in
    stripped sv.following sv.chars (pos 0) false

-- For every function, `at` never throws and the buffer ends in NUL: it holds "/:", the name with
-- no "<" or ">" in it, a space, and then NULs. The name has at most the characters that
-- `find_fullname` gives.
pub function_prefix_lem :
    (prettyname funcname : Text)
    → (k : ℕ) × (function_prefix prettyname funcname
        ≡ some ((b'/' ∷ b':' ∷ plain_name prettyname funcname ++ b' ' ∷ []) ++ zeros (suc k)))
      × (IsPlain (plain_name prettyname funcname))
      × (length (plain_name prettyname funcname)
          ≤ length (find_fullname (view_of prettyname) (view_of funcname)).chars)
unfolding function_prefix
function_prefix_lem prettyname funcname =
    let n = max (suc (length prettyname)) (suc (length funcname)) in
    let sv = find_fullname (view_of prettyname) (view_of funcname) in
    let fits : length sv.chars < n =
      length-find_fullname (view_of prettyname) (view_of funcname) n (ground arith)
        (ground arith) in
    let name = plain_name prettyname funcname in
    let le = length-stripped sv.following sv.chars (pos 0) false in
    let left : n - length name ≡ suc (n - length name - 1) = omega (arith, le, fits) in
    (
      n - length name - 1,
      location_prefix_lem n sv fits
          ∙ ap (λ m. some ((b'/' ∷ b':' ∷ name ++ b' ' ∷ []) ++ zeros m)) left,
      stripped-IsPlain sv.following sv.chars (pos 0) false,
      le,
    )
