-- ===== src/Queues/Heap/Chain.antt =====
-- The packets that a chain of cells holds, with their addresses.
use aqua_sim_ng.Prelude.{
  Bool, List, [], arith, false, if◌then◌else◌, some, true, ◌==◌, ◌||◌, ◌∷◌, ◌≡◌, ◌≢◌,
}
use aqua_sim_ng.Queues.Heap.{Cell, Heap, Ptr, QueuedPacket, done, load, null, set_next, write}

abbrev pub Cells : Type 0
Cells = List (Ptr × QueuedPacket)

abbrev pub has : Ptr → Cells → Bool
has a [] = false
has a ((p, _) ∷ xs) = a == p || has a xs

-- From `p` the `next` pointers lead through the cells `xs`, at distinct addresses, to null.
abbrev pub Chain : Heap → Ptr → Cells → Type 0
Chain h p [] = p ≡ null
Chain h p ((a, x) ∷ xs) =
    (p ≡ a)
    × (a ≢ null)
    × (has a xs ≡ false)
    × (q : Ptr) × (h a ≡ some (record { item = x; next = q }))
    × Chain h q xs

-- The address of the last cell.
abbrev pub last_address : Cells → Ptr
last_address [] = null
last_address ((a, _) ∷ []) = a
last_address (_ ∷ x ∷ xs) = last_address (x ∷ xs)

pub last_address-has :
    (a : Ptr) (x : QueuedPacket) (xs : Cells)
    → has (last_address ((a, x) ∷ xs)) ((a, x) ∷ xs) ≡ true
last_address-has a x [] = ground arith
last_address-has a x ((b, y) ∷ xs) = ground (arith, last_address-has b y xs)

-- The tail pointer after the head is taken out.
pub tail_behind :
    (t q : Ptr) (h : Heap) (a : Ptr) (x : QueuedPacket) (xs : Cells)
    → Chain h q xs
    → t ≡ last_address ((a, x) ∷ xs)
    → (if q == null then null else t) ≡ last_address xs
tail_behind t q h a x [] c e = ground (arith, c)
tail_behind t q h a x ((d, y) ∷ xs) c e = ground (arith, c.0, c.1)

module _ (h : Heap) where
  pub load-Chain :
      (p a : Ptr) (x : QueuedPacket) (xs : Cells) (c : Chain h p ((a, x) ∷ xs))
      → load p h ≡ done (record { item = x; next = c.3 })
  unfolding load
  load-Chain p a x xs c = ground (arith, c.4)

  -- A chain survives a write elsewhere.
  pub Chain-write :
      (b : Ptr) (d : Cell) (p : Ptr) (xs : Cells)
      → has b xs ≡ false
      → Chain h p xs
      → Chain (write b d h) p xs
  unfolding write
  Chain-write b d p [] out c = c
  Chain-write b d p ((a, x) ∷ xs) out (e, ne, fresh, q, at, rest) =
      (e, ne, fresh, q, ground arith, Chain-write b d q xs (ground arith) rest)

  pub set_next-at :
      (p q : Ptr) (x : QueuedPacket) (r : Ptr)
      → p ≢ null
      → h p ≡ some (record { item = x; next = r })
      → set_next p q h ≡ done (write p (record { item = x; next = q }) h)
  unfolding set_next load
  set_next-at p q x r ne at = ground (arith, at)
