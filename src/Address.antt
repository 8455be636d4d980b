-- ===== src/Address.antt =====
-- model/aqua-sim-address.h and .cc: a node's address is two bytes, compared by memcmp. The other
-- modules write an address as its `GetAsInt`; `Address/Order` justifies that.
pub mod Order
use aqua_sim_ng.Prelude.{==_iff, Bool, if◌then◌else◌, ltb, ℕ, ◌%◌, ◌&&◌, ◌*◌, ◌+◌, ◌/◌, ◌==◌, ◌^◌}
use aqua_sim_ng.Prelude.Map.{Key}

-- `m_address`
pub record Address : Type 0 where
  pub hi : ℕ
  pub lo : ℕ

-- `AquaSimAddress(uint16_t)`
unfoldable pub of_int : ℕ → Address
of_int addr = record { hi = addr / 2 ^ 8 % 256; lo = addr % 256 }

-- `GetAsInt`: the bytes do not overlap, so that `|` is a sum.
unfoldable pub get_as_int : Address → ℕ
get_as_int a = a.hi * 2 ^ 8 + a.lo % 256

-- memcmp on two bytes is below 0.
unfoldable pub less : Address → Address → Bool
less a b = if a.hi == b.hi then ltb a.lo b.lo else ltb a.hi b.hi

unfoldable pub equal : Address → Address → Bool
equal a b = a.hi == b.hi && a.lo == b.lo

-- `GetBroadcast`
abbrev pub broadcast : ℕ
broadcast = 255

-- `Allocate`: the static counter, and the address that the new value stands for.
unfoldable pub allocate : ℕ → ℕ × Address
unfolding of_int
allocate next_allocated =
    let n = (next_allocated + 1) % 2 ^ 16 in
    let n' = if n == 255 then (n + 1) % 2 ^ 16 else n in
    (n', record { hi = n' / 2 ^ 8 % 256; lo = n' % 256 })

-- Addresses as the keys of maps and sets.
instance abbrev pub address_key : Key ℕ
address_key = record { eqb = ◌==◌; ltb = ltb; eqb_iff = ==_iff }
