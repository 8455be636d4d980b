-- ===== src/Address/Order.antt =====
-- An address and its integer.
use aqua_sim_ng.Address.{Address, allocate, broadcast, equal, get_as_int, less, of_int}
use aqua_sim_ng.Prelude.{arith, ltb, ℕ, ◌<◌, ◌==◌, ◌^◌, ◌≡◌, ◌≢◌}

-- Two bytes.
abbrev pub IsAddress : Address → Type 0
IsAddress a = (a.hi < 256) × (a.lo < 256)

pub get_as_int-of_int : (n : ℕ) → n < 2 ^ 16 → get_as_int (of_int n) ≡ n
unfolding get_as_int of_int
get_as_int-of_int n h = omega arith

of_int-get_as_int : (a : Address) → IsAddress a → of_int (get_as_int a) ≡ a
unfolding get_as_int of_int
of_int-get_as_int a h = ground arith

-- The order and the equality of the bytes are those of the integers.
pub less-get_as_int :
    (a b : Address)
    → IsAddress a
    → IsAddress b
    → (less a b ≡ ltb (get_as_int a) (get_as_int b)) × (equal a b ≡ (get_as_int a == get_as_int b))
unfolding less equal get_as_int
less-get_as_int a b ha hb = (ground arith, ground arith)

-- No value of the 16-bit counter yields the broadcast address.
allocate-ne-broadcast : (n : ℕ) → n < 2 ^ 16 → get_as_int (allocate n).1 ≢ broadcast
unfolding allocate get_as_int
allocate-ne-broadcast n h = ground arith
