-- ===== src/Queues/RoutingBuffer/Dispose.antt =====
-- DoDispose of a buffer with packets and without.
use aqua_sim_ng.Prelude.{
  [], arith, false, inl, inr, length, refl, suc, ℕ, ◌+◌, ◌<◌, ◌==◌, ◌∷◌, ◌≡◌, ◌⊎◌,
}
use aqua_sim_ng.Queues.Heap.{Heap, done, load, null, null_followed}
use aqua_sim_ng.Queues.Heap.Chain.{Cells, load-Chain}
use aqua_sim_ng.Queues.RoutingBuffer.{
  RoutingBuffer, clear_packet, dispose_from_head, dispose_from_tail, do_dispose_buffer,
}
use aqua_sim_ng.Queues.RoutingBuffer.Walk.{IsBuffer}

rounds : (n : ℕ) → n + 1 ≡ suc n
rounds n = omega arith

-- A loop ends at once on a buffer without cells.
stops_at_head :
    (k tmp : ℕ) (b : RoutingBuffer)
    → b.head ≡ null
    → dispose_from_head (suc k) tmp b ≡ done (tmp, b)
unfolding dispose_from_head
stops_at_head k tmp b h = ground (arith, h)

stops_at_tail :
    (k tmp : ℕ) (b : RoutingBuffer)
    → b.tail ≡ null
    → dispose_from_tail (suc k) tmp b ≡ done (tmp, b)
unfolding dispose_from_tail
stops_at_tail k tmp b h = ground (arith, h)

clear_packet-null : (h : Heap) → clear_packet null h ≡ null_followed
unfolding clear_packet load
clear_packet-null h = refl

-- The first round of the first loop follows `tmp`, which is null.
fails_at_head :
    (k : ℕ) (b : RoutingBuffer) (xs : Cells)
    → 0 < length xs
    → IsBuffer b xs
    → dispose_from_head (suc k) null b ≡ null_followed
unfolding dispose_from_head
fails_at_head k b [] pos i = absurd (omega (arith, pos))
fails_at_head k b ((a, x) ∷ xs) pos i =
    let filled : (b.head == null) ≡ false = ground (arith, i.chain.0, i.chain.1) in
    rw filled (rw (load-Chain b.heap b.head a x xs i.chain) (rw (clear_packet-null b.heap) refl))

-- DoDispose ends where the buffer is empty and changes nothing, and follows a null pointer where the
-- buffer holds a packet.
pub do_dispose_buffer_lem :
    (b : RoutingBuffer) (xs : Cells)
    → IsBuffer b xs
    → ((xs ≡ []) × (do_dispose_buffer b ≡ done b))
      ⊎ ((0 < length xs) × (do_dispose_buffer b ≡ null_followed))
unfolding do_dispose_buffer
do_dispose_buffer_lem b [] i =
    let k = rounds b.num_of_packet in
    inl (
      refl,
      rw k (
          rw (stops_at_head b.num_of_packet null b i.chain)
            (rw k (rw (stops_at_tail b.num_of_packet null b i.tail) refl))),
    )
do_dispose_buffer_lem b ((a, x) ∷ xs) i = inr (
  omega arith,
  rw (rounds b.num_of_packet)
      (rw (fails_at_head b.num_of_packet b ((a, x) ∷ xs) (omega arith) i) refl),
)
