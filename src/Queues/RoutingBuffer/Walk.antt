-- ===== src/Queues/RoutingBuffer/Walk.antt =====
-- The loop of DeQueue on the cells of a buffer.
-- The cells without the first that matches.
use aqua_sim_ng.Prelude.{
  Bool, Bool-cases, Option, [], ap, arith, false, if◌then◌else◌, inl, inr, is_some, length, none,
  refl, some, subst, suc, sym, true, zero, ℕ, ◌+◌, ◌-◌, ◌<◌, ◌==◌, ◌∙◌, ◌∷◌, ◌≡◌, ◌≢◌,
}
use aqua_sim_ng.Queues.Heap.{Outcome, Ptr, QueuedPacket, done, load, null, set_next, write}
use aqua_sim_ng.Queues.Heap.Chain.{
  Cells, Chain, Chain-write, has, last_address, last_address-has, load-Chain, set_next-at,
}
use aqua_sim_ng.Queues.RoutingBuffer.{RoutingBuffer, dequeue_loop, matches, take_out}

abbrev pub drop_cell : ℕ → ℕ → Cells → Cells
drop_cell s n [] = []
drop_cell s n ((a, x) ∷ xs) = if matches s n x then xs else (a, x) ∷ drop_cell s n xs

-- The first packet that matches.
abbrev pub first_match : ℕ → ℕ → Cells → Option QueuedPacket
first_match s n [] = none
first_match s n ((a, x) ∷ xs) = if matches s n x then some x else first_match s n xs

-- A buffer that holds the cells `xs`.
pub record IsBuffer (b : RoutingBuffer) (xs : Cells) : Type 0 where
  pub chain : Chain b.heap b.head xs
  pub tail : b.tail ≡ last_address xs
  pub count : b.num_of_packet ≡ length xs

module _ (s n : ℕ) where
  pub has-drop_cell : (p : Ptr) (xs : Cells) → has p xs ≡ false → has p (drop_cell s n xs) ≡ false
  has-drop_cell p [] h = refl
  has-drop_cell p ((a, x) ∷ xs) h = ground (arith, has-drop_cell p xs)

  pub length-drop_cell :
      (xs : Cells)
      → length xs ≡ length (drop_cell s n xs) + (if is_some (first_match s n xs) then 1 else 0)
  length-drop_cell [] = refl
  length-drop_cell ((a, x) ∷ xs) = ground (arith, length-drop_cell xs)

  -- What the loop leaves behind the cell `prev`, where the search starts.
  pub record Walked (b : RoutingBuffer) (prev : Ptr) (v : QueuedPacket) (xs : Cells)
      (b' : RoutingBuffer) : Type 0 where
    pub chain : Chain b'.heap prev ((prev, v) ∷ drop_cell s n xs)
    pub tail : b'.tail ≡ last_address ((prev, v) ∷ drop_cell s n xs)
    pub head : b'.head ≡ b.head
    pub count :
        b'.num_of_packet
        ≡ (if is_some (first_match s n xs) then b.num_of_packet - 1 else b.num_of_packet)
    pub size : b'.maximum_size ≡ b.maximum_size
    pub outside : (p : Ptr) → has p ((prev, v) ∷ xs) ≡ false → b'.heap p ≡ b.heap p

  -- Where the search stands: at the cell behind `prev`, with `xs` ahead.
  pub record Ahead (b : RoutingBuffer) (prev cur : Ptr) (v : QueuedPacket) (xs : Cells)
      : Type 0 where
    pub ne_null : prev ≢ null
    pub at : b.heap prev ≡ some (record { item = v; next = cur })
    pub fresh : has prev xs ≡ false
    pub rest : Chain b.heap cur xs
    pub start : has b.head xs ≡ false
    pub tail : b.tail ≡ last_address ((prev, v) ∷ xs)

  -- The tail pointer after a cell is taken out.
  tail_after :
      (t prev cur : Ptr) (v w : QueuedPacket) (xs : Cells)
      → has cur xs ≡ false
      → t ≡ last_address ((prev, v) ∷ (cur, w) ∷ xs)
      → (if cur == t then prev else t) ≡ last_address ((prev, v) ∷ xs)
  tail_after t prev cur v w [] out e = ground arith
  tail_after t prev cur v w ((d, y) ∷ xs) out e = ground (arith, last_address-has d y xs)

  take_out-Walked :
      (b : RoutingBuffer) (prev cur : Ptr) (v w : QueuedPacket) (xs : Cells)
      → (a : Ahead b prev cur v ((cur, w) ∷ xs)) → matches s n w ≡ true
      → (b' : RoutingBuffer) × (take_out prev cur (record { item = w; next = a.rest.3 }) b
          ≡ done (b', some w))
        × Walked b prev v ((cur, w) ∷ xs) b'
  unfolding take_out set_next load write
  take_out-Walked b prev cur v w xs a hit =
      let (_, ne, fresh, q, at, rest) = a.rest in
      let moved : (cur == b.head) ≡ false = ground (arith, a.start) in
      (
        record b {
          heap = write prev (record { item = v; next = q }) b.heap;
          tail = if cur == b.tail then prev else b.tail;
          num_of_packet = b.num_of_packet - 1;
        },
        rw moved (rw (set_next-at b.heap prev q v cur a.ne_null a.at) refl),
        record {
          chain = rw hit (
            refl,
            a.ne_null,
            ground (arith, a.fresh),
            q,
            ground arith,
            Chain-write b.heap prev _ q xs (ground (arith, a.fresh)) rest,
          );
          tail = rw hit (tail_after b.tail prev cur v w xs fresh a.tail);
          head = refl;
          count = rw hit refl;
          size = refl;
          outside = λ p o. ground arith;
        },
      )

  -- A step of the search over a cell that does not match.
  Ahead-next :
      (b : RoutingBuffer) (prev cur : Ptr) (v w : QueuedPacket) (xs : Cells)
      → (a : Ahead b prev cur v ((cur, w) ∷ xs)) → Ahead b cur a.rest.3 w xs
  Ahead-next b prev cur v w xs a =
      let (_, ne, fresh, q, at, rest) = a.rest in
      record {
        ne_null = ne;
        at = at;
        fresh = fresh;
        rest = rest;
        start = ground (arith, a.start);
        tail = a.tail;
      }

  Walked-cons :
      (b : RoutingBuffer) (prev cur : Ptr) (v w : QueuedPacket) (xs : Cells) (b' : RoutingBuffer)
      → Ahead b prev cur v ((cur, w) ∷ xs)
      → matches s n w ≡ false
      → Walked b cur w xs b'
      → Walked b prev v ((cur, w) ∷ xs) b'
  Walked-cons b prev cur v w xs b' a miss r = record {
    chain = rw miss (
      refl,
      a.ne_null,
      ground (arith, a.fresh, has-drop_cell prev xs),
      cur,
      r.outside prev (ground (arith, a.fresh)) ∙ a.at,
      r.chain,
    );
    tail = rw miss r.tail;
    head = r.head;
    count = rw miss r.count;
    size = r.size;
    outside = λ p o. r.outside p (ground arith);
  }

  -- One round of the loop.
  module _ (k : ℕ) (b : RoutingBuffer) (prev cur : Ptr) (w : QueuedPacket) (xs : Cells)
      (c : Chain b.heap cur ((cur, w) ∷ xs)) where
    -- What the round does, by the test.
    abbrev step : Bool → Outcome (RoutingBuffer × Option QueuedPacket)
    step true = take_out prev cur (record { item = w; next = c.3 }) b
    step false = dequeue_loop k s n cur c.3 b

    pub dequeue_hit :
        matches s n w ≡ true
        → dequeue_loop (suc k) s n prev cur b
          ≡ take_out prev cur (record { item = w; next = c.3 }) b
    unfolding dequeue_loop
    dequeue_hit hit =
        let going : (cur == null) ≡ false = ground (arith, c.1) in
        rw going (rw (load-Chain b.heap cur cur w xs c) (ap step hit))

    pub dequeue_miss :
        matches s n w ≡ false → dequeue_loop (suc k) s n prev cur b ≡ dequeue_loop k s n cur c.3 b
    unfolding dequeue_loop
    dequeue_miss miss =
        let going : (cur == null) ≡ false = ground (arith, c.1) in
        rw going (rw (load-Chain b.heap cur cur w xs c) (ap step miss))

  pub dequeue_loop-Walked :
      (k : ℕ) (b : RoutingBuffer) (prev cur : Ptr) (v : QueuedPacket) (xs : Cells)
      → Ahead b prev cur v xs
      → length xs < k
      → (b' : RoutingBuffer) × (dequeue_loop k s n prev cur b ≡ done (b', first_match s n xs))
        × Walked b prev v xs b'
  unfolding dequeue_loop
  dequeue_loop-Walked zero b prev cur v xs a fuel = absurd (omega arith)
  dequeue_loop-Walked (suc k) b prev cur v [] a fuel =
      let ended : (cur == null) ≡ true = ground (arith, a.rest) in
      (
        b,
        rw ended refl,
        record {
          chain = (refl, a.ne_null, refl, cur, a.at, a.rest);
          tail = a.tail;
          head = refl;
          count = refl;
          size = refl;
          outside = λ p o. refl;
        },
      )
  dequeue_loop-Walked (suc k) b prev cur v ((c, w) ∷ xs) a fuel =
      let a' = subst (λ x. Ahead b prev x v ((c, w) ∷ xs)) a.rest.0 a in
      let e = sym a.rest.0 in
      elim (Bool-cases (matches s n w)) [
        | inl hit ↦
            let (b', ran, r) = take_out-Walked b prev c v w xs a' hit in
            (
              b',
              ap (λ x. dequeue_loop (suc k) s n prev x b) (sym e)
                  ∙ dequeue_hit k b prev c w xs a'.rest hit
                  ∙ ran
                  ∙ rw hit refl,
              r,
            )
        | inr miss ↦
            let (b', ran, r) =
              dequeue_loop-Walked k b c _ w xs (Ahead-next b prev c v w xs a') (omega arith) in
            (
              b',
              ap (λ x. dequeue_loop (suc k) s n prev x b) (sym e)
                  ∙ dequeue_miss k b prev c w xs a'.rest miss
                  ∙ ran
                  ∙ rw miss refl,
              Walked-cons b prev c v w xs b' a' miss r,
            )
      ]
