-- ===== src/Prelude/KeySet.antt =====
-- std::set: the keys in their order, each once.
use mathlib.Core.Bool.{Bool, false, true, not, ◌&&◌, ◌||◌}
use mathlib.Core.List.{List, [], ◌∷◌}
use mathlib.Core.Path.{◌≡◌, refl}
use native.Mathlib.Omega.{arith}
use aqua_sim_ng.Prelude.Lists.{All}
use aqua_sim_ng.Prelude.Map.{Key}
use aqua_sim_ng.Prelude.Tests.{if◌then◌else◌}

abbrev pub KeySet {ℓ} : Type ℓ → Type ℓ
KeySet K = List K

module _ {ℓ} {K : Type ℓ} ⦃key : Key K⦄ where
  -- `find(k) != end()`
  unfoldable pub contains : K → KeySet K → Bool
  contains k [] = false
  contains k (j ∷ s) = key.eqb k j || contains k s

  -- `insert(k)`
  unfoldable pub include : K → KeySet K → KeySet K
  include k [] = k ∷ []
  include k (j ∷ s) =
      if key.eqb k j then j ∷ s else if key.ltb k j then k ∷ j ∷ s else j ∷ include k s

  -- `erase(k)`
  unfoldable pub exclude : K → KeySet K → KeySet K
  exclude k [] = []
  exclude k (j ∷ s) = if key.eqb k j then exclude k s else j ∷ exclude k s

  pub contains-include :
      (k j : K) (s : KeySet K) → contains j (include k s) ≡ (key.eqb k j || contains j s)
  unfolding contains include
  contains-include k j [] = ground (arith, key.eqb_iff k j, key.eqb_iff j k)
  contains-include k j (i ∷ s) = ground (
    arith,
    key.eqb_iff k j,
    key.eqb_iff j k,
    key.eqb_iff k i,
    key.eqb_iff j i,
    contains-include k j s,
  )

  pub contains-exclude :
      (k j : K) (s : KeySet K) → contains j (exclude k s) ≡ (not (key.eqb k j) && contains j s)
  unfolding contains exclude
  contains-exclude k j [] = ground (arith, key.eqb_iff k j)
  contains-exclude k j (i ∷ s) =
      ground (arith, key.eqb_iff k j, key.eqb_iff k i, key.eqb_iff j i, contains-exclude k j s)

  pub contains-exclude_self : (k : K) (s : KeySet K) → contains k (exclude k s) ≡ false
  contains-exclude_self k s = rw (contains-exclude k k s, (key.eqb_iff k k).1 refl)

  pub contains-include_self : (k : K) (s : KeySet K) → contains k (include k s) ≡ true
  contains-include_self k s = rw (contains-include k k s, (key.eqb_iff k k).1 refl)

  module _ {μ} (P : K → Type μ) where
    pub All-include : (k : K) (s : KeySet K) → P k → All P s → All P (include k s)
    unfolding include
    All-include k [] p h = (p, tt)
    All-include k (j ∷ s) p h = ground (arith, All-include k s p h.1)

    pub All-exclude : (k : K) (s : KeySet K) → All P s → All P (exclude k s)
    unfolding exclude
    All-exclude k [] h = tt
    All-exclude k (j ∷ s) h = ground (arith, All-exclude k s h.1)
