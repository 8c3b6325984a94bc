-- ===== src/Logging.antt =====
-- logging_helper.h: the prefix of a message in the log, from the name of the function that writes
-- it. The names are shorter than what an `int` counts.
pub mod Nest
pub mod Search
pub mod Name
pub mod Prefix
pub mod Output
use data_relay_grpc.Base.{
  ℕ, zero, suc, ◌+◌, ◌-◌, Bool, true, false, ◌&&◌, not, List, [], ◌∷◌, ◌++◌, Option, none, some,
  ◌==◌, ltb, if◌then◌else◌, length, take, drop,
}
use data_relay_grpc.Text.{Text}
use Nest.{ℤ, pos, sucℤ, predℤ, is_positive}

infixl 5 ◌>>=◌
abbrev pub ◌>>=◌ : {A B : Type 0} → Option A → (A → Option B) → Option B
none >>= f = none
some a >>= f = f a

-- `std::string_view`, with the character that stands behind it in memory
pub record View : Type 0 where
  pub chars : Text
  pub following : ℕ

-- the view of an array of characters that ends in NUL
abbrev pub view_of : Text → View
view_of s = record { chars = s; following = 0 }

-- `v[i]`, up to the character behind the view
unfoldable pub char_at : View → ℕ → ℕ
char_at v i = elim (drop i v.chars) [ [] ↦ v.following | c ∷ cs ↦ c ]

unfoldable pub starts_with : Text → Text → Bool
starts_with [] s = true
starts_with (c ∷ cs) [] = false
starts_with (c ∷ cs) (d ∷ ds) = (c == d) && starts_with cs ds

abbrev pub later : Option ℕ → Option ℕ
later none = none
later (some p) = some (suc p)

-- `std::string_view::find`, `none` for `npos`
unfoldable pub find : Text → ℕ → Text → Option ℕ
find f zero [] = if starts_with f [] then some 0 else none
find f zero (c ∷ cs) =
    let rest = later (find f zero cs) in if starts_with f (c ∷ cs) then some 0 else rest
find f (suc n) [] = none
find f (suc n) (c ∷ cs) = later (find f n cs)

-- the loop for the head of the function name; a round goes on at least one character
unfoldable pub search_call : ℕ → View → Text → ℕ → Option ℕ
search_call zero v f n = none
search_call (suc fuel) v f n = elim (find f n v.chars) [
  | none ↦ none
  | some p ↦ elim (char_at v (p + length f) == b'(') [
    | true ↦ some p
    | false ↦ search_call fuel v f (suc p)
  ]
]

abbrev pub moved : ℕ → ℤ → ℤ
moved c nest = if c == b'>' then sucℤ nest else if c == b'<' then predℤ nest else nest

-- the search to the left, over the characters from the head of the name down to the first
unfoldable pub scan_left : List ℕ → ℤ → Option ℕ
scan_left [] nest = none
scan_left (c ∷ cs) nest =
    let rest = scan_left cs (moved c nest) in
    if (c == b' ') && not (is_positive nest) then some (suc (length cs)) else rest

-- the characters at `n - 1`, …, 0
unfoldable pub leftwards : View → ℕ → List ℕ
leftwards v zero = []
leftwards v (suc n) = char_at v n ∷ leftwards v n

unfoldable pub start_of : View → ℕ → ℕ
start_of v p = elim (scan_left (leftwards v (suc p)) (pos 0)) [ none ↦ 0 | some start ↦ start ]

-- the characters from `start` to before `end`
abbrev pub between : View → ℕ → ℕ → View
between v start end = record {
  chars = take (end - start) (drop start v.chars);
  following = char_at v end;
}

unfoldable pub find_fullname : View → View → View
find_fullname prettyname funcname =
    elim (search_call (length prettyname.chars + 2) prettyname funcname.chars 0) [
      | none ↦ funcname
      | some p ↦ between prettyname (start_of prettyname p) (p + length funcname.chars)
    ]

-- the buffer and the variables of the loop; `skip` is the second `i++`
pub record Writer : Type 0 where
  pub buf : List ℕ
  pub p : ℕ
  pub tv_nest : ℤ
  pub skip : Bool

-- `buf.at(p) = c`
unfoldable pub put_at : ℕ → ℕ → List ℕ → Option (List ℕ)
put_at p c [] = none
put_at zero c (d ∷ ds) = some (c ∷ ds)
put_at (suc p) c (d ∷ ds) = do es ← put_at p c ds; some (d ∷ es)

-- `buf.at(p++) = c`
unfoldable pub push : ℕ → Writer → Option Writer
push c w = do buf ← put_at w.p c w.buf; some (record w { buf = buf; p = suc w.p })

unfoldable pub write_char : (c next : ℕ) → Writer → Option Writer
write_char c next w =
    if w.skip
    then some (record w { skip = false })
    else if c == b'<'
    then some (record w { tv_nest = sucℤ w.tv_nest })
    else if c == b'>'
    then some (record w { tv_nest = predℤ w.tv_nest })
    else if is_positive w.tv_nest
    then some w
    else push c (record w { skip = (c == b':') && (next == b':') })

unfoldable pub write_chars : ℕ → List ℕ → Writer → Option Writer
write_chars following [] w = some w
write_chars following (c ∷ cs) w = do
  v ← write_char c (char_at (record { chars = cs; following = following }) 0) w
  write_chars following cs v

unfoldable pub zeros : ℕ → List ℕ
zeros zero = []
zeros (suc n) = 0 ∷ zeros n

-- `location_prefix<N>`; `none` where `at` throws
unfoldable pub location_prefix : ℕ → View → Option (List ℕ)
location_prefix n sv = do
  let start : Writer = record { buf = zeros (n + 3); p = 0; tv_nest = pos 0; skip = false }
  slash ← push b'/' start
  colon ← push b':' slash
  name ← write_chars sv.following sv.chars colon
  space ← push b' ' name
  put_at space.p 0 space.buf

abbrev pub max : ℕ → ℕ → ℕ
max a b = if ltb a b then b else a

-- `location_prefix` of two arrays, each of them a name and its NUL
unfoldable pub function_prefix : (prettyname funcname : Text) → Option (List ℕ)
function_prefix prettyname funcname =
    location_prefix (max (suc (length prettyname)) (suc (length funcname)))
      (find_fullname (view_of prettyname) (view_of funcname))
