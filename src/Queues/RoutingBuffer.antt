-- ===== src/Queues/RoutingBuffer.antt =====
-- model/aqua-sim-routing-buffer.h and .cc, class AquaSimRoutingBuffer. What a method reads of a
-- packet's headers is a field of `QueuedPacket`: taking headers off to look at them and putting them
-- back changes nothing.
pub mod Walk
pub mod Dequeue
pub mod Lookup
pub mod Add
pub mod Spec
pub mod Refine
pub mod Dispose
pub mod Bounded
use aqua_sim_ng.Prelude.{
  Bool, Option, false, if◌then◌else◌, none, some, suc, true, zero, ℕ, ◌&&◌, ◌+◌, ◌-◌, ◌==◌,
}
use aqua_sim_ng.Queues.Heap.{
  Cell, Heap, Outcome, Ptr, QueuedPacket, done, load, null, out_of_fuel, set_next, write, ◌>>=◌,
}

-- `m_numOfPacket` counts cells and is not negative; `m_maximumSize` is taken to be not negative.
pub record RoutingBuffer : Type 0 where
  pub heap : Heap
  pub head : Ptr
  pub tail : Ptr
  pub num_of_packet : ℕ
  pub maximum_size : ℕ

-- The constructor.
abbrev pub new_buffer : ℕ → RoutingBuffer
new_buffer size = record {
  heap = λ _. none;
  head = null;
  tail = null;
  num_of_packet = 0;
  maximum_size = size;
}

-- `IsEmpty`
abbrev pub buffer_is_empty : RoutingBuffer → Bool
buffer_is_empty b = b.num_of_packet == 0

-- `IsFull`
abbrev pub is_full : RoutingBuffer → Bool
is_full b = b.maximum_size == b.num_of_packet

-- `Head`
unfoldable pub peek_head : RoutingBuffer → Outcome (Option QueuedPacket)
peek_head b = if b.head == null then done none else do c ← load b.head b.heap; done (some c.item)

-- `Dehead`
unfoldable pub dehead : RoutingBuffer → Outcome (RoutingBuffer × Option QueuedPacket)
dehead b = if b.head == null then done (b, none) else do
  c ← load b.head b.heap
  done (
    record b {
      head = c.next;
      num_of_packet = b.num_of_packet - 1;
      tail = if c.next == null then null else b.tail;
    },
    some c.item,
  )

-- The test of `DeQueue` and `LookupCopy`.
abbrev pub matches : ℕ → ℕ → QueuedPacket → Bool
matches sender num x = x.sender == sender && x.pk_num == num

-- The body of the loop of `DeQueue` at the cell that it looks for.
unfoldable pub take_out :
    Ptr → Ptr → Cell → RoutingBuffer → Outcome (RoutingBuffer × Option QueuedPacket)
take_out previous current c b =
    if current == b.head
    then done (
      record b {
        head = c.next;
        tail = if c.next == null then null else b.tail;
        num_of_packet = b.num_of_packet - 1;
      },
      some c.item,
    )
    else do
      h ← set_next previous c.next b.heap
      done (
        record b {
          heap = h;
          tail = if current == b.tail then previous else b.tail;
          num_of_packet = b.num_of_packet - 1;
        },
        some c.item,
      )

-- The loop of `DeQueue`.
unfoldable pub dequeue_loop :
    ℕ → ℕ → ℕ → Ptr → Ptr → RoutingBuffer → Outcome (RoutingBuffer × Option QueuedPacket)
unfolding take_out
dequeue_loop zero sender num previous current b = out_of_fuel
dequeue_loop (suc k) sender num previous current b = if current == null then done (b, none) else do
  c ← load current b.heap
  elim (matches sender num c.item) [
    | true ↦ take_out previous current c b
    | false ↦ dequeue_loop k sender num current c.next b
  ]

-- `DeQueue`, with one round for each cell and one more.
unfoldable pub dequeue : ℕ → ℕ → RoutingBuffer → Outcome (RoutingBuffer × Option QueuedPacket)
unfolding dequeue_loop
dequeue sender num b =
    if buffer_is_empty b
    then done (b, none)
    else dequeue_loop (b.num_of_packet + 1) sender num b.head b.head b

-- The loop of `LookupCopy`.
unfoldable pub lookup_loop : ℕ → ℕ → ℕ → Ptr → RoutingBuffer → Outcome (Option QueuedPacket)
lookup_loop zero sender num current b = out_of_fuel
lookup_loop (suc k) sender num current b = if current == null then done none else do
  c ← load current b.heap
  elim (matches sender num c.item) [
    | true ↦ done (some c.item)
    | false ↦ lookup_loop k sender num c.next b
  ]

-- `LookupCopy`
unfoldable pub lookup_copy : ℕ → ℕ → RoutingBuffer → Outcome (Option QueuedPacket)
unfolding lookup_loop
lookup_copy sender num b =
    if buffer_is_empty b then done none else lookup_loop (b.num_of_packet + 1) sender num b.head b

-- The end of `AddNewPacket` and of `CopyNewPacket`: the new cell goes behind the last one.
unfoldable pub append_cell : Ptr → QueuedPacket → RoutingBuffer → Outcome RoutingBuffer
append_cell fresh x b =
    let h = write fresh (record { item = x; next = null }) b.heap in
    if b.head == null
    then done
        (record b { heap = h; head = fresh; tail = fresh; num_of_packet = b.num_of_packet + 1 })
    else do
      h' ← set_next b.tail fresh h
      done (record b { heap = h'; tail = fresh; num_of_packet = b.num_of_packet + 1 })

-- `if (IsFull()) Dehead()`
unfoldable pub make_room : RoutingBuffer → Outcome RoutingBuffer
unfolding dehead
make_room b = if is_full b then (do r ← dehead b; done r.0) else done b

-- `AddNewPacket`, at the address where the new cell is made.
unfoldable pub add_new_packet : Ptr → QueuedPacket → RoutingBuffer → Outcome RoutingBuffer
unfolding dequeue make_room append_cell
add_new_packet fresh x b = do
  r ← dequeue x.sender x.pk_num b
  b' ← make_room r.0
  append_cell fresh x b'

-- `CopyNewPacket`, with the packet that `Copy` makes.
abbrev pub copy_new_packet : Ptr → ℕ → QueuedPacket → RoutingBuffer → Outcome RoutingBuffer
unfolding add_new_packet
copy_new_packet fresh copy x b = add_new_packet fresh (record x { packet = copy }) b

-- `tmp->packet = 0`
unfoldable pub clear_packet : Ptr → Heap → Outcome Heap
clear_packet p h = do
  c ← load p h
  done (write p (record c { item = record (c.item) { packet = null } }) h)

-- The first loop of `DoDispose`: `tmp` after it, and the buffer.
unfoldable pub dispose_from_head : ℕ → Ptr → RoutingBuffer → Outcome (Ptr × RoutingBuffer)
unfolding clear_packet
dispose_from_head zero tmp b = out_of_fuel
dispose_from_head (suc k) tmp b = if b.head == null then done (tmp, b) else do
  c ← load b.head b.heap
  h ← clear_packet tmp b.heap
  dispose_from_head k c.next (record b { heap = h; head = c.next })

-- The second loop.
unfoldable pub dispose_from_tail : ℕ → Ptr → RoutingBuffer → Outcome (Ptr × RoutingBuffer)
unfolding clear_packet
dispose_from_tail zero tmp b = out_of_fuel
dispose_from_tail (suc k) tmp b = if b.tail == null then done (tmp, b) else do
  c ← load b.tail b.heap
  h ← clear_packet tmp b.heap
  dispose_from_tail k c.next (record b { heap = h; tail = c.next })

-- `DoDispose`, with one round of each loop for each cell and one more. `tmp` is null at first.
unfoldable pub do_dispose_buffer : RoutingBuffer → Outcome RoutingBuffer
unfolding dispose_from_head dispose_from_tail
do_dispose_buffer b = do
  r ← dispose_from_head (b.num_of_packet + 1) null b
  r' ← dispose_from_tail (r.1.num_of_packet + 1) r.0 r.1
  done r'.1
