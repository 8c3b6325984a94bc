-- ===== src/OrderedMap/Lookup.antt =====
-- What `find` sees after each change of a map, and that each change keeps the order of the keys.
use data_relay_grpc.Base.{
  ℕ, suc, ◌≤◌, ◌<◌, ◌≡◌, refl, List, [], ◌∷◌, Option, none, some, arith, ◌==◌, if◌then◌else◌,
}
use data_relay_grpc.OrderedMap.{find, emplace, erase, assign, AscendsFrom}

module _ {ℓ} {V : Type ℓ} where
  pub AscendsFrom-mono : (i n : ℕ) (m : List (ℕ × V)) → i ≤ n → AscendsFrom n m → AscendsFrom i m
  AscendsFrom-mono i n [] h a = tt
  AscendsFrom-mono i n ((k, v) ∷ m) h a = (omega arith, a.1)

  pub find_below : (k n : ℕ) (m : List (ℕ × V)) → AscendsFrom n m → k < n → find k m ≡ none
  unfolding find
  find_below k n [] a h = refl
  find_below k n ((j, w) ∷ m) a h = ground (arith, find_below k (suc j) m a.1)

  pub find_ge : (k n : ℕ) (m : List (ℕ × V)) {v : V} → AscendsFrom n m → find k m ≡ some v → n ≤ k
  unfolding find
  find_ge k n [] a h = cc
  find_ge k n ((j, w) ∷ m) {v} a h = ground (arith, find_ge k (suc j) m {v = v} a.1)

  abbrev pub emplaced : Option V → V → V
  emplaced none v = v
  emplaced (some w) v = w

  pub find-emplace :
      (j k n : ℕ) (v : V) (m : List (ℕ × V))
      → AscendsFrom n m
      → find j (emplace k v m) ≡ (if k == j then some (emplaced (find k m) v) else find j m)
  unfolding find emplace
  find-emplace j k n v [] a = refl
  find-emplace j k n v ((i, w) ∷ m) a =
      ground (arith, find-emplace j k (suc i) v m a.1, find_below k (suc i) m a.1)

  pub find-erase :
      (j k n : ℕ) (m : List (ℕ × V))
      → AscendsFrom n m
      → find j (erase k m) ≡ (if k == j then none else find j m)
  unfolding find erase
  find-erase j k n [] a = ground arith
  find-erase j k n ((i, w) ∷ m) a =
      ground (arith, find-erase j k (suc i) m a.1, find_below k (suc i) m a.1)

  abbrev pub assigned : Option V → V → Option V
  assigned none v = none
  assigned (some w) v = some v

  pub find-assign :
      (j k : ℕ) (v : V) (m : List (ℕ × V))
      → find j (assign k v m) ≡ (if k == j then assigned (find k m) v else find j m)
  unfolding find assign
  find-assign j k v [] = ground arith
  find-assign j k v ((i, w) ∷ m) = ground (arith, find-assign j k v m)

  pub emplace-AscendsFrom :
      (k n : ℕ) (v : V) (m : List (ℕ × V)) → n ≤ k → AscendsFrom n m → AscendsFrom n (emplace k v m)
  unfolding emplace
  emplace-AscendsFrom k n v [] h a = (h, tt)
  emplace-AscendsFrom k n v ((i, w) ∷ m) h a = ground (arith, emplace-AscendsFrom k (suc i) v m)

  pub erase-AscendsFrom : (k n : ℕ) (m : List (ℕ × V)) → AscendsFrom n m → AscendsFrom n (erase k m)
  unfolding erase
  erase-AscendsFrom k n [] a = tt
  erase-AscendsFrom k n ((i, w) ∷ m) a =
      ground (arith, erase-AscendsFrom k (suc i) m a.1, AscendsFrom-mono n (suc i) m)

  pub assign-AscendsFrom :
      (k n : ℕ) (v : V) (m : List (ℕ × V)) → AscendsFrom n m → AscendsFrom n (assign k v m)
  unfolding assign
  assign-AscendsFrom k n v [] a = tt
  assign-AscendsFrom k n v ((i, w) ∷ m) a = ground (arith, assign-AscendsFrom k (suc i) v m a.1)
