-- ===== src/Download/Chunks.antt =====
-- The loop of `Get` over the bytes of the file.
use native.Mathlib.Nat.{mul-suc}
use data_relay_grpc.Base.{
  ℕ, zero, suc, ◌+◌, ◌-◌, ◌*◌, ◌≤◌, ◌<◌, ◌≡◌, ◌≢◌, refl, ap, ◌∙◌, List, [], ◌∷◌, ◌++◌, none, some,
  arith, dec_lt, All, take, drop, length, flatten, take-append-drop, length-take, length-drop,
}
use data_relay_grpc.Download.{read_chunks}

-- The chunks are the bytes in order; none is empty or longer than the chunk size, and there are no
-- more of them than it takes.
pub record IsSplit (chunk_size : ℕ) (bytes : List ℕ) (cs : List (List ℕ)) : Type 0 where
  pub complete : flatten cs ≡ bytes
  pub sized : All (λ x. (0 < length x) × (length x ≤ chunk_size)) cs
  pub few : chunk_size * length cs < length bytes + chunk_size

drop_less : (c x : ℕ) (xs : List ℕ) → 0 < c → length (drop c (x ∷ xs)) ≤ length xs
drop_less c x xs h = omega (arith, length-drop c (x ∷ xs))

read_step :
    (fuel c x : ℕ) (xs : List ℕ) (cs : List (List ℕ))
    → 0 < c
    → read_chunks fuel c (drop c (x ∷ xs)) ≡ some cs
    → read_chunks (suc fuel) c (x ∷ xs) ≡ some (take c (x ∷ xs) ∷ cs)
unfolding read_chunks
read_step fuel zero x xs cs h e = elim h [ ]
read_step fuel (suc c) x xs cs h e = ground arith

read_end : (fuel c : ℕ) → read_chunks (suc fuel) c [] ≡ some []
unfolding read_chunks
read_end fuel zero = refl
read_end fuel (suc c) = refl

-- Nothing is read at a chunk size of 0.
pub read_chunks-zero : (fuel : ℕ) (bytes : List ℕ) → read_chunks (suc fuel) 0 bytes ≡ some []
unfolding read_chunks
read_chunks-zero fuel bytes = refl

few_zero : (c n : ℕ) → c * n < c → c * n ≡ 0
few_zero c zero h = omega arith
few_zero c (suc n) h = absurd (omega arith)

few_step : (c n l d : ℕ) → 0 < c → d ≡ suc l - c → c * n < d + c → c * suc n < suc l + c
few_step c n l d pos e h = elim (dec_lt (suc l) c) [
  | yes short ↦ omega (arith, few_zero c n (omega arith), mul-suc c n)
  | no long ↦ omega (arith, mul-suc c n)
]

-- With a chunk size that is not 0, and fuel for one round a byte and one more, the loop ends, and
-- the chunks are a split of the bytes.
pub read_chunks_total :
    (fuel c : ℕ) (bytes : List ℕ)
    → 0 < c
    → length bytes < fuel
    → (cs : List (List ℕ)) × (read_chunks fuel c bytes ≡ some cs) × IsSplit c bytes cs
unfolding flatten
read_chunks_total zero c bytes pos h = elim h [ ]
read_chunks_total (suc fuel) c [] pos h =
    ([], read_end fuel c, record { complete = refl; sized = tt; few = omega arith })
read_chunks_total (suc fuel) c (x ∷ xs) pos h =
    let (cs, e, v) =
      read_chunks_total fuel c (drop c (x ∷ xs)) pos (omega (arith, drop_less c x xs pos)) in
    (
      take c (x ∷ xs) ∷ cs,
      read_step fuel c x xs cs pos e,
      record {
        complete = ap (λ ys. take c (x ∷ xs) ++ ys) v.complete ∙ take-append-drop c (x ∷ xs);
        sized = (omega (arith, length-take c (x ∷ xs)), v.sized);
        few = few_step c (length cs) (length xs) _ pos (length-drop c (x ∷ xs)) v.few;
      },
    )

-- So `Get`, which has that fuel, never fails to come to the end of the loop.
pub read_chunks-ne-none : (c : ℕ) (bytes : List ℕ) → read_chunks (suc (length bytes)) c bytes ≢ none
read_chunks-ne-none zero bytes e = cc (read_chunks-zero (length bytes) bytes)
read_chunks-ne-none (suc c) bytes e =
    let (cs, done, _) =
      read_chunks_total (suc (length bytes)) (suc c) bytes (omega arith) (omega arith) in
    cc
