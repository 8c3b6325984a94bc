-- ===== src/OrderedMap/Total.antt =====
-- Sums of a weight over the entries of a map.
use data_relay_grpc.Base.{ℕ, ◌+◌, ◌≤◌, ◌≡◌, refl, List, [], ◌∷◌, none, some, arith}
use data_relay_grpc.OrderedMap.{find, emplace, erase, assign}

module _ {ℓ} {V : Type ℓ} (w : V → ℕ) where
  unfoldable pub total : List (ℕ × V) → ℕ
  total [] = 0
  total ((k, v) ∷ m) = w v + total m

  pub total-emplace :
      (k : ℕ) (v : V) (m : List (ℕ × V)) → find k m ≡ none → total (emplace k v m) ≡ w v + total m
  unfolding total emplace find
  total-emplace k v [] h = refl
  total-emplace k v ((j, u) ∷ m) h = ground (arith, total-emplace k v m)

  pub total-erase :
      (k : ℕ) (v : V) (m : List (ℕ × V)) → find k m ≡ some v → w v + total (erase k m) ≡ total m
  unfolding total erase find
  total-erase k v [] h = cc
  total-erase k v ((j, u) ∷ m) h = ground (arith, total-erase k v m)

  pub total-assign :
      (k : ℕ) (v v' : V) (m : List (ℕ × V))
      → find k m ≡ some v
      → w v + total (assign k v' m) ≡ w v' + total m
  unfolding total assign find
  total-assign k v v' [] h = cc
  total-assign k v v' ((j, u) ∷ m) h = ground (arith, total-assign k v v' m)

  pub le-total : (k : ℕ) (v : V) (m : List (ℕ × V)) → find k m ≡ some v → w v ≤ total m
  le-total k v m h = omega (arith, total-erase k v m h)
