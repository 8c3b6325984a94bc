-- ===== src/TagGenerator/Encoding.antt =====
-- The message under the HMAC determines the two integers, and a tag is an integer of 64 bits.
use native.Mathlib.Nat.{pow-suc}
use data_relay_grpc.Base.{
  ℕ, zero, suc, ◌*◌, ◌/◌, ◌^◌, ◌≤◌, ◌<◌, ◌≡◌, refl, ap, ◌∙◌, List, [], ◌∷◌, ◌++◌, arith, length,
  take, drop, All, take-append, drop-append, length-take, subst,
}
use data_relay_grpc.Outcome.{returns}
use data_relay_grpc.TagGenerator.{
  OpenSsl, digest, to_bytes, from_bytes, input_bytes, generate_reference_tag,
}

abbrev pub IsByte : ℕ → Type 0
IsByte b = b < 256

length-to_bytes : (n x : ℕ) → length (to_bytes n x) ≡ n
unfolding to_bytes
length-to_bytes zero x = refl
length-to_bytes (suc n) x = ap suc (length-to_bytes n (x / 256))

from_bytes-to_bytes : (n x : ℕ) → x < 256 ^ n → from_bytes (to_bytes n x) ≡ x
unfolding from_bytes to_bytes
from_bytes-to_bytes zero x h = omega arith
from_bytes-to_bytes (suc n) x h =
    let h' : x < 256 ^ n * 256 = rw pow-suc at h in
    omega (arith, from_bytes-to_bytes n (x / 256) (omega arith))

from_bytes-lt : (n : ℕ) (bs : List ℕ) → All IsByte bs → length bs ≤ n → from_bytes bs < 256 ^ n
unfolding from_bytes
from_bytes-lt zero [] a h = omega arith
from_bytes-lt zero (b ∷ bs) a h = absurd (omega arith)
from_bytes-lt (suc n) [] a h = rw pow-suc (omega (arith, from_bytes-lt n [] tt (omega arith)))
from_bytes-lt (suc n) (b ∷ bs) a h =
    rw pow-suc (omega (arith, from_bytes-lt n bs a.1 (omega arith)))

All-take : (n : ℕ) (bs : List ℕ) → All IsByte bs → All IsByte (take n bs)
All-take zero bs a = tt
All-take (suc n) [] a = tt
All-take (suc n) (b ∷ bs) a = (a.0, All-take n bs a.1)

take-input_bytes : (p1 p2 : ℕ) → take 8 (input_bytes p1 p2) ≡ to_bytes 8 p1
unfolding input_bytes
take-input_bytes p1 p2 =
    subst (λ n. take n (to_bytes 8 p1 ++ to_bytes 8 p2) ≡ to_bytes 8 p1) (length-to_bytes 8 p1)
      (take-append (to_bytes 8 p1) (to_bytes 8 p2))

drop-input_bytes : (p1 p2 : ℕ) → drop 8 (input_bytes p1 p2) ≡ to_bytes 8 p2
unfolding input_bytes
drop-input_bytes p1 p2 =
    subst (λ n. drop n (to_bytes 8 p1 ++ to_bytes 8 p2) ≡ to_bytes 8 p2) (length-to_bytes 8 p1)
      (drop-append (to_bytes 8 p1) (to_bytes 8 p2))

-- Two integers of 64 bits are read back from the message that is put under the HMAC: the first
-- from its first eight bytes, the second from the rest.
pub input_bytes_decode :
    (p1 p2 : ℕ)
    → p1 < 2 ^ 64
    → p2 < 2 ^ 64
    → (from_bytes (take 8 (input_bytes p1 p2)) ≡ p1)
      × (from_bytes (drop 8 (input_bytes p1 p2)) ≡ p2)
input_bytes_decode p1 p2 h1 h2 = (
  ap from_bytes (take-input_bytes p1 p2) ∙ from_bytes-to_bytes 8 p1 h1,
  ap from_bytes (drop-input_bytes p1 p2) ∙ from_bytes-to_bytes 8 p2 h2,
)

-- A tag fits in 64 bits if the digest is made of bytes.
pub generate_reference_tag-lt :
    (o : OpenSsl) (key : List ℕ) (p1 p2 : ℕ) {md : List ℕ} {tag : ℕ}
    → o.hmac_sha256 key (input_bytes p1 p2) ≡ digest md
    → All IsByte md
    → generate_reference_tag o key p1 p2 ≡ returns tag
    → tag < 2 ^ 64
unfolding generate_reference_tag
generate_reference_tag-lt o key p1 p2 {md} {tag} e a h =
    let e' : returns (from_bytes (take 8 md)) ≡ returns tag = rw e at h in
    ground (arith, from_bytes-lt 8 (take 8 md) (All-take 8 md a) (omega (arith, length-take 8 md)))
