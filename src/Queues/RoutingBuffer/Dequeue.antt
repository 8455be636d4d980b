-- ===== src/Queues/RoutingBuffer/Dequeue.antt =====
-- DeQueue.
use aqua_sim_ng.Prelude.{
  Bool-cases, [], ap, arith, false, if◌then◌else◌, inl, inr, length, refl, suc, true, ℕ, ◌+◌, ◌-◌,
  ◌==◌, ◌∙◌, ◌∷◌, ◌≡◌,
}
use aqua_sim_ng.Queues.Heap.{Ptr, QueuedPacket, done, null}
use aqua_sim_ng.Queues.Heap.Chain.{Cells, Chain, tail_behind}
use aqua_sim_ng.Queues.RoutingBuffer.{RoutingBuffer, dequeue, dequeue_loop, matches, take_out}
use aqua_sim_ng.Queues.RoutingBuffer.Walk.{
  IsBuffer, dequeue_hit, dequeue_loop-Walked, dequeue_miss, drop_cell, first_match,
  length-drop_cell,
}

module _ (s n : ℕ) where
  -- DeQueue as its loop at the head, with a round for each cell and one more.
  dequeue_starts :
      (b : RoutingBuffer) (a : Ptr) (x : QueuedPacket) (xs : Cells)
      → IsBuffer b ((a, x) ∷ xs)
      → dequeue s n b ≡ dequeue_loop (suc (suc (length xs))) s n a a b
  unfolding dequeue
  dequeue_starts b a x xs i =
      let filled : (b.num_of_packet == 0) ≡ false = ground (arith, i.count) in
      let rounds : b.num_of_packet + 1 ≡ suc (suc (length xs)) = omega (arith, i.count) in
      rw filled (
        ap (λ k. dequeue_loop k s n b.head b.head b) rounds
        ∙ ap (λ p. dequeue_loop (suc (suc (length xs))) s n p p b) i.chain.0)

  -- What DeQueue leaves.
  pub record Dequeued (b : RoutingBuffer) (xs : Cells) (b' : RoutingBuffer) : Type 0 where
    pub ran : dequeue s n b ≡ done (b', first_match s n xs)
    pub holds : IsBuffer b' (drop_cell s n xs)
    pub size : b'.maximum_size ≡ b.maximum_size

  pub dequeue-Dequeued :
      (b : RoutingBuffer) (xs : Cells) → IsBuffer b xs → (b' : RoutingBuffer) × Dequeued b xs b'
  unfolding dequeue take_out
  dequeue-Dequeued b [] i =
      let empty : (b.num_of_packet == 0) ≡ true = ground (arith, i.count) in
      (b, record { ran = rw empty refl; holds = i; size = refl })
  dequeue-Dequeued b ((a, x) ∷ xs) i = elim (Bool-cases (matches s n x)) [
    | inl hit ↦ (
      b0,
      record {
        ran =
            dequeue_starts b a x xs i
            ∙ dequeue_hit s n (suc (length xs)) b a a x xs chain hit
            ∙ rw at_head (rw hit refl);
        holds = rw hit (record {
          chain = chain.5;
          tail = tail_behind b.tail chain.3 b.heap a x xs chain.5 i.tail;
          count = omega (arith, i.count);
        });
        size = refl;
      },
    )
    | inr miss ↦
        let (b', ran, r) =
          dequeue_loop-Walked s n (suc (length xs)) b a chain.3 x xs
            (record {
              ne_null = chain.1;
              at = chain.4;
              fresh = chain.2;
              rest = chain.5;
              start = rw i.chain.0 chain.2;
              tail = i.tail;
            })
            (omega arith) in
        (
          b',
          record {
            ran =
                dequeue_starts b a x xs i
                ∙ dequeue_miss s n (suc (length xs)) b a a x xs chain miss
                ∙ ran
                ∙ rw miss refl;
            holds = rw miss (record {
              chain = rw (r.head, i.chain.0) r.chain;
              tail = r.tail;
              count = ground (arith, r.count, i.count, length-drop_cell s n xs);
            });
            size = r.size;
          },
        )
  ]
    where
      chain : Chain b.heap a ((a, x) ∷ xs)
      chain = (refl, i.chain.1, i.chain.2, i.chain.3, i.chain.4, i.chain.5)

      at_head : (a == b.head) ≡ true
      at_head = ground (arith, i.chain.0)

      b0 : RoutingBuffer
      b0 = record b {
        head = chain.3;
        tail = if chain.3 == null then null else b.tail;
        num_of_packet = b.num_of_packet - 1;
      }
