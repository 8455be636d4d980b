-- ===== src/Tests/Buffers.antt =====
-- The linked queues.
-- Packets of senders 1 and 2.
use aqua_sim_ng.Prelude.{[], arith, length, none, refl, some, suc, ◌++◌, ◌<◌, ◌∷◌, ◌≡◌, ◌≤◌, ◌⊎◌}
use aqua_sim_ng.Queues.Heap.{QueuedPacket, done, null, null_followed, write}
use aqua_sim_ng.Queues.Heap.Chain.{Cells}
use aqua_sim_ng.Queues.RoutingBuffer.{RoutingBuffer, add_new_packet, do_dispose_buffer, new_buffer}
use aqua_sim_ng.Queues.RoutingBuffer.Bounded.{NoTwins, add_new_packet_bounded}
use aqua_sim_ng.Queues.RoutingBuffer.Dispose.{do_dispose_buffer_lem}
use aqua_sim_ng.Queues.RoutingBuffer.Refine.{buffer_run-queue_run, items}
use aqua_sim_ng.Queues.RoutingBuffer.Spec.{
  add, buffer_run, look_at_head, look_up, take_head, take_packet,
}
use aqua_sim_ng.Queues.RoutingBuffer.Walk.{IsBuffer}

abbrev first : QueuedPacket
first = record { packet = 101; sender = 1; pk_num = 7 }

abbrev second : QueuedPacket
second = record { packet = 102; sender = 2; pk_num = 7 }

-- The first packet again, later.
abbrev again : QueuedPacket
again = record { packet = 103; sender = 1; pk_num = 7 }

-- Cells are made at 1, 2, 3 and so on.
buffer_run-queue_run_example :
    buffer_run
      (λ i. suc i)
      0
      (add first
        ∷ add second
        ∷ add again
        ∷ take_head
        ∷ look_up 1 7
        ∷ take_packet 1 7
        ∷ look_at_head
        ∷ [])
      (new_buffer 2)
    ≡ done (none ∷ none ∷ none ∷ some second ∷ some again ∷ some again ∷ none ∷ [])
buffer_run-queue_run_example =
    buffer_run-queue_run (λ i. suc i) (λ i. omega arith) (λ i j e. omega arith) 2
      (add first
        ∷ add second
        ∷ add again
        ∷ take_head
        ∷ look_up 1 7
        ∷ take_packet 1 7
        ∷ look_at_head
        ∷ [])

-- A buffer for one packet that holds the first, in the cell at 1.
abbrev holding : RoutingBuffer
holding = record (new_buffer 1) {
  heap = write 1 (record { item = first; next = null }) (λ _. none);
  head = 1;
  tail = 1;
  num_of_packet = 1;
}

holding-IsBuffer : IsBuffer holding ((1, first) ∷ [])
unfolding write
holding-IsBuffer = record {
  chain = (refl, omega arith, refl, null, refl, refl);
  tail = refl;
  count = refl;
}

do_dispose_buffer_lem_example :
    let xs : Cells = (1, first) ∷ [] in
    ((xs ≡ []) × (do_dispose_buffer holding ≡ done holding))
    ⊎ ((0 < length xs) × (do_dispose_buffer holding ≡ null_followed))
do_dispose_buffer_lem_example = do_dispose_buffer_lem holding ((1, first) ∷ []) holding-IsBuffer

add_new_packet_bounded_example :
    (b' : RoutingBuffer) × (ys : Cells) × (add_new_packet 2 second holding ≡ done b')
    × IsBuffer b' (ys ++ (2, second) ∷ [])
    × (length (ys ++ (2, second) ∷ []) ≤ b'.maximum_size)
    × NoTwins (items (ys ++ (2, second) ∷ []))
add_new_packet_bounded_example =
    add_new_packet_bounded 2 second holding ((1, first) ∷ []) (omega arith) refl holding-IsBuffer
      (omega arith) (omega arith) (refl, tt)
