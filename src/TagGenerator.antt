-- ===== src/TagGenerator.antt =====
-- common/tag_generator.h: tags of BLOB references, at the type at which the server uses the
-- template (three `std::uint64_t`, on a little-endian machine). OpenSSL is a parameter.
pub mod Encoding
use data_relay_grpc.Base.{
  ℕ, zero, suc, ◌+◌, ◌*◌, ◌/◌, ◌%◌, List, [], ◌∷◌, ◌++◌, Option, none, some, take,
}
use data_relay_grpc.Text.{Text, text, to_string}
use data_relay_grpc.Outcome.{Outcome, returns, throws, runtime_error}

-- what `HMAC` gives: the digest, or a null pointer and the codes that `ERR_get_error` then returns
pub data Digest : Type 0 where
  digest : List ℕ → Digest
  failed : (errors : List ℕ) → Digest

pub record OpenSsl : Type 0 where
  pub rand_bytes : (count : ℕ) → Option (List ℕ)
  pub hmac_sha256 : (key message : List ℕ) → Digest
  pub error_string : ℕ → Text

-- `memcpy` from an integer of `n` bytes, and to one
unfoldable pub to_bytes : ℕ → ℕ → List ℕ
to_bytes zero x = []
to_bytes (suc n) x = (x % 256) ∷ to_bytes n (x / 256)

unfoldable pub from_bytes : List ℕ → ℕ
from_bytes [] = 0
from_bytes (b ∷ bs) = b + 256 * from_bytes bs

unfoldable pub tag_generator : OpenSsl → Outcome (List ℕ)
tag_generator o = elim (o.rand_bytes 16) [
  | none ↦ throws (
      runtime_error (
        text
          "Failed to generate random bytes for HMAC secret key for BLOB reference tag generation"))
  | some key ↦ returns key
]

unfoldable pub error_texts : OpenSsl → List ℕ → Text
error_texts o [] = []
error_texts o (e ∷ es) =
    text "[" ++ to_string e ++ text ": " ++ o.error_string e ++ text "] " ++ error_texts o es

unfoldable pub hmac_error_message : OpenSsl → List ℕ → Text
unfolding error_texts
hmac_error_message o [] =
    text "Failed to calculate reference tag: " ++ text "No OpenSSL error code available."
hmac_error_message o (e ∷ es) = text "Failed to calculate reference tag: " ++ error_texts o (e ∷ es)

unfoldable pub input_bytes : ℕ → ℕ → List ℕ
input_bytes p1 p2 = to_bytes 8 p1 ++ to_bytes 8 p2

abbrev pub tag_of : OpenSsl → Digest → Outcome ℕ
tag_of o (digest md) = returns (from_bytes (take 8 md))
tag_of o (failed errors) = throws (runtime_error (hmac_error_message o errors))

unfoldable pub generate_reference_tag : OpenSsl → (key : List ℕ) → ℕ → ℕ → Outcome ℕ
generate_reference_tag o key p1 p2 = tag_of o (o.hmac_sha256 key (input_bytes p1 p2))
