-- ===== src/Jmac/Count.antt =====
-- GetNodesAmount counts the nodes of the list.
use aqua_sim_ng.Jmac.{bit, count_bits, get_node_bit, get_nodes_amount, shift_right}
use aqua_sim_ng.Jmac.Bits.{shift_next}
use aqua_sim_ng.Prelude.{
  ap, arith, count, refl, some, suc, sym, zero, ℕ, ◌%◌, ◌+◌, ◌/◌, ◌<◌, ◌^◌, ◌∙◌, ◌≡◌,
}

-- How many of the nodes from one on are in the list.
unfoldable pub nodes_from : ℕ → ℕ → ℕ → ℕ
nodes_from zero j node_list = 0
nodes_from (suc k) j node_list = get_node_bit j node_list + nodes_from k (j + 1) node_list

shift-small : (k n : ℕ) → n < bit k → shift_right k n ≡ 0
unfolding bit shift_right
shift-small zero n h = omega (arith, h)
shift-small (suc k) n h = shift-small k (n / 2) (omega (arith, h))

none_left : (k j n : ℕ) → shift_right j n ≡ 0 → nodes_from k j n ≡ 0
unfolding nodes_from get_node_bit
none_left zero j n h = refl
none_left (suc k) j n h = ground (arith, h, shift_next j n, none_left k (j + 1) n)

count_from :
    (k j count n : ℕ)
    → shift_right (j + k) n ≡ 0
    → count + k < 256
    → count_bits k count (shift_right j n) ≡ some (count + nodes_from k j n)
unfolding count_bits nodes_from get_node_bit
count_from zero j count n h small =
    let e : j + 0 ≡ j = omega arith in
    let z : shift_right j n ≡ 0 = ap (λ i. shift_right i n) (sym e) ∙ h in ground (arith, z)
count_from (suc k) j count n h small =
    let s = shift_right j n in
    let e : j + 1 + k ≡ j + suc k = omega arith in
    let rest =
      count_from k (j + 1) (count + s % 2) n (ap (λ i. shift_right i n) e ∙ h)
        (omega (arith, small)) in
    ground (
      arith,
      small,
      none_left k (j + 1) n,
      ap (λ m. count_bits k (count + s % 2) m) (sym (shift_next j n)) ∙ rest,
      shift_next j n,
    )

-- GetNodesAmount of a list of 64 bits is the number of nodes in it.
pub get_nodes_amount-nodes_from :
    (node_list : ℕ)
    → node_list < 2 ^ 64
    → get_nodes_amount node_list ≡ some (nodes_from 64 0 node_list)
unfolding get_nodes_amount shift_right bit
get_nodes_amount-nodes_from n h =
    let word : bit 64 ≡ 2 ^ 64 = refl in
    let e : 0 + nodes_from 64 0 n ≡ nodes_from 64 0 n = omega arith in
    count_from 64 0 0 n (shift-small 64 n (omega (arith, h, word))) (omega arith) ∙ ap some e
