-- ===== src/Queues/RoutingBuffer/Add.antt =====
-- Dehead, LookupCopy, and the parts of AddNewPacket.
use aqua_sim_ng.Prelude.{
  Bool-cases, Option, [], ap, arith, false, if◌then◌else◌, inl, inr, length, length-append, none,
  refl, some, sym, true, ◌++◌, ◌+◌, ◌-◌, ◌==◌, ◌||◌, ◌∙◌, ◌∷◌, ◌≡◌, ◌≢◌,
}
use aqua_sim_ng.Queues.Heap.{Heap, Ptr, QueuedPacket, done, null, set_next, write, ◌>>=◌}
use aqua_sim_ng.Queues.Heap.Chain.{
  Cells, Chain, Chain-write, has, last_address, last_address-has, load-Chain, set_next-at,
  tail_behind,
}
use aqua_sim_ng.Queues.RoutingBuffer.{RoutingBuffer, append_cell, dehead, is_full, make_room}
use aqua_sim_ng.Queues.RoutingBuffer.Walk.{IsBuffer}

has-append : (p : Ptr) (xs ys : Cells) → has p (xs ++ ys) ≡ (has p xs || has p ys)
has-append p [] ys = refl
has-append p ((a, x) ∷ xs) ys = ground (arith, has-append p xs ys)

-- The cells behind the first.
abbrev pub behind : Cells → Cells
behind [] = []
behind (c ∷ xs) = xs

abbrev pub first_item : Cells → Option QueuedPacket
first_item [] = none
first_item ((a, x) ∷ xs) = some x

pub dehead-IsBuffer :
    (b : RoutingBuffer) (xs : Cells)
    → IsBuffer b xs
    → (b' : RoutingBuffer) × (dehead b ≡ done (b', first_item xs))
      × IsBuffer b' (behind xs)
      × (b'.maximum_size ≡ b.maximum_size)
unfolding dehead
dehead-IsBuffer b [] i =
    let empty : (b.head == null) ≡ true = ground (arith, i.chain) in (b, rw empty refl, i, refl)
dehead-IsBuffer b ((a, x) ∷ xs) i =
    let (e, ne, _, q, at, rest) = i.chain in
    let filled : (b.head == null) ≡ false = ground arith in
    (
      record b {
        head = q;
        num_of_packet = b.num_of_packet - 1;
        tail = if q == null then null else b.tail;
      },
      rw filled (rw (load-Chain b.heap b.head a x xs i.chain) refl),
      record {
        chain = rest;
        tail = tail_behind b.tail q b.heap a x xs rest i.tail;
        count = omega (arith, i.count);
      },
      refl,
    )

-- Pointing the last cell at a new one, which points nowhere, extends the chain by it.
module _ (fresh : Ptr) (x : QueuedPacket) (ne : fresh ≢ null) where
  link-Chain :
      (h : Heap) (p a : Ptr) (v : QueuedPacket) (ys : Cells)
      → Chain h p ((a, v) ∷ ys)
      → h fresh ≡ some (record { item = x; next = null })
      → has fresh ((a, v) ∷ ys) ≡ false
      → (h' : Heap) × (set_next (last_address ((a, v) ∷ ys)) fresh h ≡ done h')
        × Chain h' p ((a, v) ∷ ys ++ (fresh, x) ∷ [])
        × ((r : Ptr) → r ≢ last_address ((a, v) ∷ ys) → h' r ≡ h r)
  unfolding write
  link-Chain h p a v [] (e, na, _, q, at, _) made out = (
    write a (record { item = v; next = fresh }) h,
    set_next-at h a fresh v q na at,
    (e, na, ground arith, fresh, ground arith, (refl, ne, refl, null, ground arith, refl)),
    λ r o. ground arith,
  )
  link-Chain h p a v ((b, w) ∷ zs) (e, na, fr, q, at, rest) made out =
      let (h', ran, chain, same) = link-Chain h q b w zs rest made (ground arith) in
      (
        h',
        ran,
        (
          e,
          na,
          ground (arith, has-append a ((b, w) ∷ zs) ((fresh, x) ∷ [])),
          q,
          same a (λ l. absurd (ground (arith, last_address-has b w zs))) ∙ at,
          chain,
        ),
        same,
      )

  pub append_cell-IsBuffer :
      (b : RoutingBuffer) (xs : Cells)
      → IsBuffer b xs
      → has fresh xs ≡ false
      → (b' : RoutingBuffer) × (append_cell fresh x b ≡ done b')
        × IsBuffer b' (xs ++ (fresh, x) ∷ [])
        × (b'.maximum_size ≡ b.maximum_size)
  unfolding append_cell write
  append_cell-IsBuffer b [] i out =
      let empty : (b.head == null) ≡ true = ground (arith, i.chain) in
      let h = write fresh (record { item = x; next = null }) b.heap in
      (
        record b { heap = h; head = fresh; tail = fresh; num_of_packet = b.num_of_packet + 1 },
        rw empty refl,
        record {
          chain = (refl, ne, refl, null, ground arith, refl);
          tail = refl;
          count = omega (arith, i.count);
        },
        refl,
      )
  append_cell-IsBuffer b ((a, v) ∷ ys) i out =
      let h = write fresh (record { item = x; next = null }) b.heap in
      let filled : (b.head == null) ≡ false = ground (arith, i.chain.0, i.chain.1) in
      let c =
        Chain-write b.heap fresh (record { item = x; next = null }) b.head ((a, v) ∷ ys) out
          i.chain in
      let (h', ran, chain, _) = link-Chain h b.head a v ys c (ground arith) out in
      (
        record b { heap = h'; tail = fresh; num_of_packet = b.num_of_packet + 1 },
        rw filled (
            ap
              (λ t. set_next t fresh h >>= λ g.
                done (record b { heap = g; tail = fresh; num_of_packet = b.num_of_packet + 1 }))
              i.tail
            ∙ ap
                (λ r. r >>= λ g.
                  done (record b { heap = g; tail = fresh; num_of_packet = b.num_of_packet + 1 }))
                ran),
        record {
          chain = chain;
          tail = sym (last_address-append a v ys);
          count = ground (arith, i.count, length-append ys ((fresh, x) ∷ []));
        },
        refl,
      )
    where
      last_address-append :
          (a : Ptr) (v : QueuedPacket) (ys : Cells)
          → last_address ((a, v) ∷ ys ++ (fresh, x) ∷ []) ≡ fresh
      last_address-append a v [] = refl
      last_address-append a v ((b, w) ∷ zs) = last_address-append b w zs

pub make_room-IsBuffer :
    (b : RoutingBuffer) (xs : Cells)
    → IsBuffer b xs
    → (b' : RoutingBuffer) × (make_room b ≡ done b')
      × IsBuffer b' (if b.maximum_size == length xs then behind xs else xs)
      × (b'.maximum_size ≡ b.maximum_size)
unfolding make_room
make_room-IsBuffer b xs i = elim (Bool-cases (b.maximum_size == length xs)) [
  | inl e ↦
      let full : is_full b ≡ true = ground (arith, i.count) in
      let (b', ran, j, size) = dehead-IsBuffer b xs i in (b', rw full (rw ran refl), rw e j, size)
  | inr e ↦
      let room : is_full b ≡ false = ground (arith, i.count) in (b, rw room refl, rw e i, refl)
]
