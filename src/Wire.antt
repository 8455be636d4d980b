-- ===== src/Wire.antt =====
-- The bytes of packets, as the headers' Serialize and Deserialize use them.
-- Buffer::Iterator of ns-3: a write puts the bytes of a number down, a read takes them up again.
-- Documented of it: the reads give back what the writes of the same widths wrote, in order, and a
-- write of a w-bit number takes w / 8 bytes.
use aqua_sim_ng.Prelude.{ℕ, ◌+◌, ◌<◌, ◌^◌, ◌≡◌}

pub record Buffer : Type 1 where
  pub Bytes : Type 0
  pub append : Bytes → Bytes → Bytes
  pub size : Bytes → ℕ
  pub write_u8 : ℕ → Bytes
  pub write_u16 : ℕ → Bytes
  pub write_u32 : ℕ → Bytes
  pub write_u64 : ℕ → Bytes
  pub read_u8 : Bytes → ℕ × Bytes
  pub read_u16 : Bytes → ℕ × Bytes
  pub read_u32 : Bytes → ℕ × Bytes
  pub read_u64 : Bytes → ℕ × Bytes
  pub append_assoc : (a b c : Bytes) → append (append a b) c ≡ append a (append b c)
  pub size-append : (a b : Bytes) → size (append a b) ≡ size a + size b
  pub size-u8 : (n : ℕ) → size (write_u8 n) ≡ 1
  pub size-u16 : (n : ℕ) → size (write_u16 n) ≡ 2
  pub size-u32 : (n : ℕ) → size (write_u32 n) ≡ 4
  pub size-u64 : (n : ℕ) → size (write_u64 n) ≡ 8
  pub read-u8 : (n : ℕ) (b : Bytes) → n < 2 ^ 8 → read_u8 (append (write_u8 n) b) ≡ (n, b)
  pub read-u16 : (n : ℕ) (b : Bytes) → n < 2 ^ 16 → read_u16 (append (write_u16 n) b) ≡ (n, b)
  pub read-u32 : (n : ℕ) (b : Bytes) → n < 2 ^ 32 → read_u32 (append (write_u32 n) b) ≡ (n, b)
  pub read-u64 : (n : ℕ) (b : Bytes) → n < 2 ^ 64 → read_u64 (append (write_u64 n) b) ≡ (n, b)
