-- ===== src/OrderedMap.antt =====
-- `std::map` with integer keys, as the source uses it: an association list in ascending order of
-- its keys. `emplace` leaves an entry that is there alone, and `assign` writes through a reference
-- or an iterator to an entry that is there.
pub mod Lookup
pub mod Total
pub mod Holds
use data_relay_grpc.Base.{
  ℕ, suc, ◌≤◌, ◌≡◌, List, [], ◌∷◌, Option, none, some, ltb, ◌==◌, if◌then◌else◌, map,
}

module _ {ℓ} {V : Type ℓ} where
  -- `map.find(k)`, `none` for `map.end()`
  unfoldable pub find : ℕ → List (ℕ × V) → Option V
  find k [] = none
  find k ((j, w) ∷ m) = if j == k then some w else find k m

  unfoldable pub emplace : ℕ → V → List (ℕ × V) → List (ℕ × V)
  emplace k v [] = (k, v) ∷ []
  emplace k v ((j, w) ∷ m) =
      if ltb k j then (k, v) ∷ (j, w) ∷ m else (j, w) ∷ (if j == k then m else emplace k v m)

  unfoldable pub erase : ℕ → List (ℕ × V) → List (ℕ × V)
  erase k [] = []
  erase k ((j, w) ∷ m) = if j == k then m else (j, w) ∷ erase k m

  unfoldable pub assign : ℕ → V → List (ℕ × V) → List (ℕ × V)
  assign k v [] = []
  assign k v ((j, w) ∷ m) = if j == k then (j, v) ∷ m else (j, w) ∷ assign k v m

  -- the keys in the order of iteration
  abbrev pub keys : List (ℕ × V) → List ℕ
  keys = map (λ e. e.0)

  -- The keys ascend, from `n` on.
  abbrev pub AscendsFrom : ℕ → List (ℕ × V) → Type 0
  AscendsFrom n [] = Unit
  AscendsFrom n ((k, v) ∷ m) = (n ≤ k) × AscendsFrom (suc k) m
