-- ===== src/Queues/RoutingBuffer/Spec.antt =====
-- AquaSimRoutingBuffer as a queue of packets, whatever its cells.
-- The packets that wait, the oldest first.
use aqua_sim_ng.Prelude.{
  List, Option, [], if◌then◌else◌, length, none, some, suc, ℕ, ◌++◌, ◌==◌, ◌∷◌,
}
use aqua_sim_ng.Queues.Heap.{Outcome, Ptr, QueuedPacket, done, ◌>>=◌}
use aqua_sim_ng.Queues.RoutingBuffer.{
  RoutingBuffer, add_new_packet, dehead, dequeue, lookup_copy, matches, peek_head,
}

abbrev pub Queue : Type 0
Queue = List QueuedPacket

-- The queue without the first packet of a sender with a number.
abbrev pub drop_match : ℕ → ℕ → Queue → Queue
drop_match s n [] = []
drop_match s n (x ∷ q) = if matches s n x then q else x ∷ drop_match s n q

abbrev pub find_match : ℕ → ℕ → Queue → Option QueuedPacket
find_match s n [] = none
find_match s n (x ∷ q) = if matches s n x then some x else find_match s n q

abbrev pub but_oldest : Queue → Queue
but_oldest [] = []
but_oldest (x ∷ q) = q

abbrev pub oldest : Queue → Option QueuedPacket
oldest [] = none
oldest (x ∷ q) = some x

-- A full queue loses its oldest packet.
abbrev pub trim : ℕ → Queue → Queue
trim size q = if size == length q then but_oldest q else q

-- A packet goes behind the others, in place of one with its sender and number.
abbrev pub put : ℕ → QueuedPacket → Queue → Queue
put size x q = trim size (drop_match x.sender x.pk_num q) ++ x ∷ []

pub data Op : Type 0 where
  add : QueuedPacket → Op
  take_packet : ℕ → ℕ → Op
  take_head : Op
  look_up : ℕ → ℕ → Op
  look_at_head : Op

-- A call, and what it returns.
abbrev pub queue_step : ℕ → Op → Queue → Queue × Option QueuedPacket
queue_step size (add x) q = (put size x q, none)
queue_step size (take_packet s n) q = (drop_match s n q, find_match s n q)
queue_step size take_head q = (but_oldest q, oldest q)
queue_step size (look_up s n) q = (q, find_match s n q)
queue_step size look_at_head q = (q, oldest q)

abbrev pub queue_run : ℕ → List Op → Queue → List (Option QueuedPacket)
queue_run size [] q = []
queue_run size (op ∷ ops) q = let (q', out) = queue_step size op q in out ∷ queue_run size ops q'

-- `address i` is where the i-th call makes its cell.
module _ (address : ℕ → Ptr) where
  abbrev pub buffer_step : ℕ → Op → RoutingBuffer → Outcome (RoutingBuffer × Option QueuedPacket)
  buffer_step i (add x) b = do b' ← add_new_packet (address i) x b; done (b', none)
  buffer_step i (take_packet s n) b = dequeue s n b
  buffer_step i take_head b = dehead b
  buffer_step i (look_up s n) b = do x ← lookup_copy s n b; done (b, x)
  buffer_step i look_at_head b = do x ← peek_head b; done (b, x)

  unfoldable pub buffer_run : ℕ → List Op → RoutingBuffer → Outcome (List (Option QueuedPacket))
  buffer_run i [] b = done []
  buffer_run i (op ∷ ops) b = do
    r ← buffer_step i op b
    outs ← buffer_run (suc i) ops r.0
    done (r.1 ∷ outs)
