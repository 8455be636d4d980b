-- ===== src/Queues/Heap.antt =====
-- Cells behind ns-3's Ptr, which keeps a cell for as long as something points to it: cells are
-- never given back. A buffer creates its cells itself and shows them to nobody, so that each buffer
-- has a heap of its own.
pub mod Chain
use aqua_sim_ng.Prelude.{Option, if◌then◌else◌, none, some, ℕ, ◌==◌}

abbrev pub Ptr : Type 0
Ptr = ℕ

abbrev pub null : Ptr
null = 0

-- A packet as the buffers see it: which packet `Ptr<Packet>` points to, and the sender and number in
-- its VBHeader.
pub record QueuedPacket : Type 0 where
  pub packet : Ptr
  pub sender : ℕ
  pub pk_num : ℕ

-- `routing_buffer_cell` and `buffer_cell`. Their times are never read.
pub record Cell : Type 0 where
  pub item : QueuedPacket
  pub next : Ptr

abbrev pub Heap : Type 0
Heap = Ptr → Option Cell

unfoldable pub write : Ptr → Cell → Heap → Heap
write a c h p = if p == a then some c else h p

-- What a call comes to: a value, a null pointer followed, or more rounds than it was given.
pub data Outcome {ℓ} (A : Type ℓ) : Type ℓ where
  done : A → Outcome A
  null_followed : Outcome A
  out_of_fuel : Outcome A

infixl 5 ◌>>=◌
abbrev pub ◌>>=◌ {ℓ κ} : {A : Type ℓ} {B : Type κ} → Outcome A → (A → Outcome B) → Outcome B
done a >>= k = k a
null_followed >>= k = null_followed
out_of_fuel >>= k = out_of_fuel

-- `*p`
unfoldable pub load : Ptr → Heap → Outcome Cell
load p h =
    if p == null then null_followed else elim (h p) [ none ↦ null_followed | some c ↦ done c ]

-- `p->next = q`
unfoldable pub set_next : Ptr → Ptr → Heap → Outcome Heap
unfolding load
set_next p q h = do c ← load p h; done (write p (record c { next = q }) h)
