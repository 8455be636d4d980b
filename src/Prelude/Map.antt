-- ===== src/Prelude/Map.antt =====
-- std::map and std::set: association lists in the order of the keys. The order of iteration is
-- the order of the list.
use mathlib.Core.List.{List, [], ◌∷◌}
use mathlib.Core.Bool.{Bool, true}
use mathlib.Core.Logic.{◌≢◌, ◌↔◌}
use mathlib.Core.Option.{Option, none, some}
use mathlib.Core.Path.{◌≡◌, refl}
use native.Mathlib.Omega.{arith}
use aqua_sim_ng.Prelude.Tests.{if◌then◌else◌}
use aqua_sim_ng.Prelude.Lists.{All}

-- A key type with its `operator<` and its equality.
pub record Key {ℓ} (K : Type ℓ) : Type ℓ where
  pub eqb : K → K → Bool
  pub ltb : K → K → Bool
  pub eqb_iff : (a b : K) → (eqb a b ≡ true) ↔ (a ≡ b)

abbrev pub Map {ℓ κ} : Type ℓ → Type κ → Type (ℓ ⊔ κ)
Map K V = List (K × V)

module _ {ℓ κ} {K : Type ℓ} {V : Type κ} ⦃key : Key K⦄ where
  -- `find`
  unfoldable pub find : K → Map K V → Option V
  find k [] = none
  find k ((j, v) ∷ m) = if key.eqb k j then some v else find k m

  -- `m[k] = v`
  unfoldable pub insert : K → V → Map K V → Map K V
  insert k v [] = (k, v) ∷ []
  insert k v ((j, w) ∷ m) =
      if key.eqb k j
      then (k, v) ∷ m
      else if key.ltb k j
      then (k, v) ∷ (j, w) ∷ m
      else (j, w) ∷ insert k v m

  -- `erase(k)`
  unfoldable pub erase : K → Map K V → Map K V
  erase k [] = []
  erase k ((j, w) ∷ m) = if key.eqb k j then erase k m else (j, w) ∷ erase k m

  pub find-erase :
      (k j : K) (m : Map K V) → find j (erase k m) ≡ (if key.eqb k j then none else find j m)
  unfolding find erase
  find-erase k j [] = ground arith
  find-erase k j ((i, w) ∷ m) =
      ground (arith, key.eqb_iff k j, key.eqb_iff k i, key.eqb_iff j i, find-erase k j m)

  pub find-insert :
      (k j : K) (v : V) (m : Map K V)
      → find j (insert k v m) ≡ (if key.eqb k j then some v else find j m)
  unfolding find insert
  find-insert k j v [] = ground (arith, key.eqb_iff k j, key.eqb_iff j k)
  find-insert k j v ((i, w) ∷ m) = ground (
    arith,
    key.eqb_iff k j,
    key.eqb_iff j k,
    key.eqb_iff k i,
    key.eqb_iff j i,
    find-insert k j v m,
  )

  pub find-insert_self : (k : K) (v : V) (m : Map K V) → find k (insert k v m) ≡ some v
  find-insert_self k v m = rw (find-insert k k v m, (key.eqb_iff k k).1 refl)

  pub find-insert_ne : (k j : K) (v : V) (m : Map K V) → k ≢ j → find j (insert k v m) ≡ find j m
  find-insert_ne k j v m h = ground (arith, find-insert k j v m, key.eqb_iff k j)

  pub find-erase_self : (k : K) (m : Map K V) → find k (erase k m) ≡ none
  find-erase_self k m = rw (find-erase k k m, (key.eqb_iff k k).1 refl)

  pub find-erase_ne : (k j : K) (m : Map K V) → k ≢ j → find j (erase k m) ≡ find j m
  find-erase_ne k j m h = ground (arith, find-erase k j m, key.eqb_iff k j)

  -- A property of every entry is a property of what `find` gives, and `insert` and `erase` keep it.
  module _ {μ} (P : K × V → Type μ) where
    pub All-find : (k : K) (v : V) (m : Map K V) → All P m → find k m ≡ some v → P (k, v)
    unfolding find
    All-find k v [] h e = ground arith
    All-find k v ((j, w) ∷ m) h e = ground (arith, key.eqb_iff k j, All-find k v m h.1)

    pub All-insert : (k : K) (v : V) (m : Map K V) → P (k, v) → All P m → All P (insert k v m)
    unfolding insert
    All-insert k v [] p h = (p, tt)
    All-insert k v ((j, w) ∷ m) p h = ground (arith, All-insert k v m p h.1)

    pub All-erase : (k : K) (m : Map K V) → All P m → All P (erase k m)
    unfolding erase
    All-erase k [] h = tt
    All-erase k ((j, w) ∷ m) h = ground (arith, All-erase k m h.1)
