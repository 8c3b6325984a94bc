-- ===== src/Text.antt =====
-- Text as the list of its characters' codes, and `std::to_string` of an unsigned integer.
pub mod Decimal
use Prim.Native.Char.{code}
use Prim.Native.String.{String}
use data_relay_grpc.Base.{ℕ, zero, suc, ◌+◌, ◌/◌, ◌%◌, List, [], ◌∷◌, ◌++◌, ltb, if◌then◌else◌}

abbrev pub Text : Type 0
Text = List ℕ

-- The codes of a literal. It stays shut, so that a message is one atom in a proof.
unfoldable pub text : String → Text
text String.[] = []
text (String.◌∷◌ c s) = code c ∷ text s

-- A decimal numeral has at most as many digits as its value plus one.
unfoldable pub decimal : ℕ → ℕ → Text
decimal zero n = []
decimal (suc fuel) n =
    let rest = decimal fuel (n / 10) in
    if ltb n 10 then (b'0' + n) ∷ [] else rest ++ (b'0' + n % 10) ∷ []

-- `std::to_string`
unfoldable pub to_string : ℕ → Text
unfolding decimal
to_string n = decimal (suc n) n
