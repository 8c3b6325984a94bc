-- ===== src/OrderedMap/Holds.antt =====
-- A property of every entry of a map, and how the changes of the map keep it.
use data_relay_grpc.Base.{
  ℕ, ◌≡◌, ◌≢◌, refl, ◌⊎◌, inl, inr, List, [], ◌∷◌, All, ℕ_discrete, none, some, arith, subst,
}
use data_relay_grpc.OrderedMap.{find, emplace, erase, assign, keys, AscendsFrom}
use data_relay_grpc.OrderedMap.Lookup.{find-emplace, find-erase, find-assign}

module _ {V : Type 0} where
  pub find-assign_cases :
      (k j : ℕ) (v u : V) (m : List (ℕ × V))
      → find j (assign k v m) ≡ some u
      → ((k ≡ j) × (v ≡ u)) ⊎ ((k ≢ j) × (find j m ≡ some u))
  find-assign_cases k j v u m h = ground (arith, find-assign j k v m)

  pub find-emplace_cases :
      (k j n : ℕ) (v u : V) (m : List (ℕ × V))
      → AscendsFrom n m
      → find k m ≡ none
      → find j (emplace k v m) ≡ some u
      → ((k ≡ j) × (v ≡ u)) ⊎ ((k ≢ j) × (find j m ≡ some u))
  find-emplace_cases k j n v u m a e h = ground (arith, find-emplace j k n v m a)

  pub find-erase_cases :
      (k j n : ℕ) (u : V) (m : List (ℕ × V))
      → AscendsFrom n m
      → find j (erase k m) ≡ some u
      → (k ≢ j) × (find j m ≡ some u)
  find-erase_cases k j n u m a h = ground (arith, find-erase j k n m a)

  module _ {κ} (P : ℕ → V → Type κ) where
    abbrev pub Holds : List (ℕ × V) → Type κ
    Holds m = (j : ℕ) (u : V) → find j m ≡ some u → P j u

    pub assign-Holds : (k : ℕ) (v : V) (m : List (ℕ × V)) → Holds m → P k v → Holds (assign k v m)
    assign-Holds k v m h p j u e = elim (find-assign_cases k j v u m e) [
      | inl (same, to) ↦ subst (λ i. P i u) same (subst (P k) to p)
      | inr (_, old) ↦ h j u old
    ]

    pub emplace-Holds :
        (k n : ℕ) (v : V) (m : List (ℕ × V))
        → AscendsFrom n m
        → find k m ≡ none
        → Holds m
        → P k v
        → Holds (emplace k v m)
    emplace-Holds k n v m a fresh h p j u e = elim (find-emplace_cases k j n v u m a fresh e) [
      | inl (same, to) ↦ subst (λ i. P i u) same (subst (P k) to p)
      | inr (_, old) ↦ h j u old
    ]

    pub erase-Holds : (k n : ℕ) (m : List (ℕ × V)) → AscendsFrom n m → Holds m → Holds (erase k m)
    erase-Holds k n m a h j u e = h j u (find-erase_cases k j n u m a e).1

  -- What holds of every key holds of the key of every entry that is found.
  pub All-keys_find {κ} :
      (P : ℕ → Type κ) (m : List (ℕ × V)) (j : ℕ) (v : V) → All P (keys m) → find j m ≡ some v → P j
  unfolding find
  All-keys_find P [] j v h e = cc
  All-keys_find P ((k, w) ∷ m) j v h e = elim (ℕ_discrete k j) [
    | yes same ↦ subst P same h.0
    | no other ↦ All-keys_find P m j v h.1 (ground arith)
  ]

  pub eq-nil_of_find : (m : List (ℕ × V)) → ((j : ℕ) → find j m ≡ none) → m ≡ []
  unfolding find
  eq-nil_of_find [] h = refl
  eq-nil_of_find ((k, w) ∷ m) h = ground (arith, h k)
