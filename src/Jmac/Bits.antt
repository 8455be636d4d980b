-- ===== src/Jmac/Bits.antt =====
-- The bits of the list of nodes.
use aqua_sim_ng.Jmac.{bit, get_node_bit, set_node_bit, shift_right}
use aqua_sim_ng.Prelude.{
  ==_iff, ap, arith, if◌then◌else◌, inl, inr, refl, some, suc, sym, zero, ℕ, ◌%◌, ◌*◌, ◌+◌, ◌-◌,
  ◌/◌, ◌<◌, ◌==◌, ◌^◌, ◌||◌, ◌∙◌, ◌≡◌, ◌≤◌, ◌⊎◌,
}

pub shift_next : (j n : ℕ) → shift_right (j + 1) n ≡ shift_right j n / 2
unfolding shift_right
shift_next zero n = refl
shift_next (suc j) n =
    let e : suc j + 1 ≡ suc (j + 1) = omega arith in
    ap (λ k. shift_right k n) e ∙ shift_next j (n / 2)

-- A bit that is 0 and becomes 1.
add_bit :
    (i j n : ℕ)
    → get_node_bit i n ≡ 0
    → get_node_bit j (n + bit i) ≡ (if j == i then 1 else get_node_bit j n)
unfolding get_node_bit shift_right bit
add_bit zero zero n h = ground arith
add_bit zero (suc j) n h =
    let e : (n + 1) / 2 ≡ n / 2 = omega (arith, h) in
    ground (arith, ap (λ m. shift_right j m % 2) e)
add_bit (suc i) zero n h = ground arith
add_bit (suc i) (suc j) n h =
    let e : (n + 2 * bit i) / 2 ≡ n / 2 + bit i = omega arith in
    ground (arith, ap (λ m. shift_right j m % 2) e, add_bit i j (n / 2) h)

pub bit_value : (j n : ℕ) → (get_node_bit j n ≡ 0) ⊎ (get_node_bit j n ≡ 1)
unfolding get_node_bit
bit_value j n = ground arith

get-set_node_bit :
    (id : ℕ) (node_list : ℕ)
    → id < 31
    → (bits : ℕ) × (set_node_bit id node_list ≡ some bits)
      × ((j : ℕ) → get_node_bit j bits ≡ (if j == id then 1 else get_node_bit j node_list))
unfolding set_node_bit
get-set_node_bit id node_list h = elim (bit_value id node_list) [
  | inl e ↦ (node_list + bit id, ground (arith, h, e), λ j. add_bit id j node_list e)
  | inr e ↦ (
    node_list,
    ground (arith, h, e),
    λ j. ground (arith, ==_iff j id, ap (λ i. get_node_bit i node_list), e),
  )
]

-- The number with so many low bits set.
ones : ℕ → ℕ
ones zero = 0
ones (suc k) = 1 + 2 * ones k

get-ones : (j k : ℕ) → j < k → get_node_bit j (ones k) ≡ 1
unfolding get_node_bit shift_right ones
get-ones j zero h = absurd (omega (arith, h))
get-ones zero (suc k) h = omega arith
get-ones (suc j) (suc k) h =
    let e : (1 + 2 * ones k) / 2 ≡ ones k = omega arith in
    ground (arith, ap (λ m. shift_right j m % 2) e, get-ones j k)

shift_twice : (i j n : ℕ) → shift_right (i + j) n ≡ shift_right j (shift_right i n)
unfolding shift_right
shift_twice zero j n = let e : 0 + j ≡ j = omega arith in ap (λ i. shift_right i n) e
shift_twice (suc i) j n =
    let e : suc i + j ≡ suc (i + j) = omega arith in
    ap (λ k. shift_right k n) e ∙ shift_twice i j (n / 2)

high_bits : (n : ℕ) → shift_right 31 (n % 2 ^ 31 + (2 ^ 64 - 2 ^ 31)) ≡ ones 33
unfolding shift_right ones
high_bits n = omega arith

get-set_node_bit_last :
    (node_list j : ℕ)
    → 31 ≤ j
    → j < 64
    → (bits : ℕ) × (set_node_bit 31 node_list ≡ some bits) × (get_node_bit j bits ≡ 1)
unfolding set_node_bit get_node_bit
get-set_node_bit_last node_list j low high =
    let bits = node_list % 2 ^ 31 + (2 ^ 64 - 2 ^ 31) in
    let place : 31 + (j - 31) ≡ j = omega (arith, low) in
    let shifted : shift_right j bits ≡ shift_right (j - 31) (ones 33) =
      ap (λ i. shift_right i bits) (sym place)
      ∙ shift_twice 31 (j - 31) bits
      ∙ ap (λ m. shift_right (j - 31) m) (high_bits node_list) in
    (bits, refl, ap (λ m. m % 2) shifted ∙ get-ones (j - 31) 33 (omega (arith, low, high)))

-- SetNodeBit of a node below 31 sets the node's bit and no other. SetNodeBit of node 31 sets the bit of
-- every node from 31 to 63.
pub set_node_bit-bits :
    (id node_list j : ℕ)
    → (id < 31) ⊎ ((id ≡ 31) × (31 ≤ j) × (j < 64))
    → (bits : ℕ) × (set_node_bit id node_list ≡ some bits)
      × (get_node_bit j bits ≡ (if j == id || id == 31 then 1 else get_node_bit j node_list))
set_node_bit-bits id node_list j (inl h) =
    let (bits, set, get) = get-set_node_bit id node_list h in (bits, set, ground (arith, get j, h))
set_node_bit-bits id node_list j (inr (e, low, high)) =
    let (bits, set, get) = get-set_node_bit_last node_list j low high in
    (bits, ap (λ i. set_node_bit i node_list) e ∙ set, ground (arith, get, e))
