-- ===== src/Aodv/SeqNo.antt =====
-- IsSeqNoNewer: sequence numbers of 32 bits on a circle.
pub mod Order
use aqua_sim_ng.Prelude.{Bool, ltb, ℕ, ◌%◌, ◌&&◌, ◌+◌, ◌-◌, ◌^◌}

-- `static_cast<int32_t>(x) > 0` for the bit pattern x of 32 bits.
abbrev pub positive_int32 : ℕ → Bool
positive_int32 x = ltb 0 x && ltb x (2 ^ 31)

-- `IsSeqNoNewer`
unfoldable pub is_seq_no_newer : ℕ → ℕ → Bool
is_seq_no_newer incoming current = positive_int32 ((incoming + 2 ^ 32 - current) % 2 ^ 32)
