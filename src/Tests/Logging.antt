-- ===== src/Tests/Logging.antt =====
-- The theorems on the prefix of a message in the log, at concrete inputs.
use data_relay_grpc.Base.{ℕ, ◌+◌, ◌≤◌, ◌≡◌, ◌⊎◌, suc, [], ◌∷◌, ◌++◌, none, some, length, refl}
use data_relay_grpc.Text.{Text}
use data_relay_grpc.Logging.{
  view_of, between, find_fullname, location_prefix, function_prefix, zeros, search_call, find,
  starts_with, char_at, start_of, scan_left, leftwards, push, put_at, write_char, write_chars,
}
use data_relay_grpc.Logging.Search.{Searched}
use data_relay_grpc.Logging.Name.{StartsAt, find_fullname_lem}
use data_relay_grpc.Logging.Prefix.{IsPlain, plain_name, function_prefix_lem}

-- int a::f(), and f
abbrev pretty : Text
pretty = b'i' ∷ b'n' ∷ b't' ∷ b' ' ∷ b'a' ∷ b':' ∷ b':' ∷ b'f' ∷ b'(' ∷ b')' ∷ []

abbrev name : Text
name = b'f' ∷ []

find_fullname_example :
    (Searched (view_of pretty) name 0 none
      × (find_fullname (view_of pretty) (view_of name) ≡ view_of name))
    ⊎ ((p : ℕ) × (start : ℕ) × (Searched (view_of pretty) name 0 (some p))
        × (StartsAt (view_of pretty) p start)
        × (find_fullname (view_of pretty) (view_of name) ≡ between (view_of pretty) start (p + 1)))
find_fullname_example = find_fullname_lem (view_of pretty) (view_of name)

function_prefix_example :
    (k : ℕ) × (function_prefix pretty name
      ≡ some ((b'/' ∷ b':' ∷ plain_name pretty name ++ b' ' ∷ []) ++ zeros (suc k)))
    × IsPlain (plain_name pretty name)
    × (length (plain_name pretty name)
        ≤ length (find_fullname (view_of pretty) (view_of name)).chars)
function_prefix_example = function_prefix_lem pretty name

prefix_of_pretty :
    function_prefix pretty name
    ≡ some (b'/' ∷ b':' ∷ b'a' ∷ b':' ∷ b'f' ∷ b' ' ∷ 0 ∷ 0 ∷ 0 ∷ 0 ∷ 0 ∷ 0 ∷ 0 ∷ 0 ∷ [])
unfolding function_prefix location_prefix find_fullname search_call find starts_with char_at
    start_of scan_left leftwards push put_at write_char write_chars zeros
prefix_of_pretty = refl
