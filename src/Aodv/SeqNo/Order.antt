-- ===== src/Aodv/SeqNo/Order.antt =====
-- The order of sequence numbers.
use aqua_sim_ng.Aodv.SeqNo.{is_seq_no_newer}
use aqua_sim_ng.Prelude.{arith, false, true, ℕ, ◌%◌, ◌+◌, ◌-◌, ◌<◌, ◌^◌, ◌↔◌, ◌≡◌}

-- Exactly the numbers 1 to 2 ^ 31 - 1 steps ahead on the circle are newer, also past the wrap.
pub is_seq_no_newer_iff :
    (a b : ℕ)
    → a < 2 ^ 32
    → b < 2 ^ 32
    → (is_seq_no_newer a b ≡ true) ↔ ((k : ℕ) × (0 < k) × (k < 2 ^ 31) × (a ≡ (b + k) % 2 ^ 32))
unfolding is_seq_no_newer
is_seq_no_newer_iff a b ha hb = (
  λ h. ((a + 2 ^ 32 - b) % 2 ^ 32, ground arith, ground arith, omega arith),
  λ h. let (k, lo, hi, e) = h in ground arith,
)

-- Never both ways.
pub is_seq_no_newer-asymm :
    (a b : ℕ) → a < 2 ^ 32 → b < 2 ^ 32 → is_seq_no_newer a b ≡ true → is_seq_no_newer b a ≡ false
unfolding is_seq_no_newer
is_seq_no_newer-asymm a b ha hb h = ground arith
