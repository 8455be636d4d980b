-- ===== src/Queues/RoutingBuffer/Refine.antt =====
-- The calls of AquaSimRoutingBuffer against those of the queue.
use aqua_sim_ng.Prelude.{
  All, All-append, Bool-cases, List, [], ap, ap₂, arith, false, if◌then◌else◌, inl, inr, length,
  refl, subst, suc, ℕ, ◌++◌, ◌<◌, ◌==◌, ◌∙◌, ◌∷◌, ◌≡◌, ◌≢◌,
}
use aqua_sim_ng.Prelude.Cases.{if_both}
use aqua_sim_ng.Queues.Heap.{Ptr, QueuedPacket, done, null}
use aqua_sim_ng.Queues.Heap.Chain.{Cells, has}
use aqua_sim_ng.Queues.RoutingBuffer.{RoutingBuffer, add_new_packet, matches, new_buffer}
use aqua_sim_ng.Queues.RoutingBuffer.Add.{
  append_cell-IsBuffer, behind, dehead-IsBuffer, first_item, make_room-IsBuffer,
}
use aqua_sim_ng.Queues.RoutingBuffer.Dequeue.{dequeue-Dequeued}
use aqua_sim_ng.Queues.RoutingBuffer.Lookup.{lookup_copy-first_match, peek_head-first_item}
use aqua_sim_ng.Queues.RoutingBuffer.Spec.{
  Op, Queue, add, buffer_run, buffer_step, but_oldest, drop_match, find_match, look_at_head,
  look_up, oldest, put, queue_run, queue_step, take_head, take_packet, trim,
}
use aqua_sim_ng.Queues.RoutingBuffer.Walk.{IsBuffer, drop_cell, first_match, has-drop_cell}

abbrev pub items : Cells → Queue
items [] = []
items ((a, x) ∷ xs) = x ∷ items xs

items-drop_cell : (s n : ℕ) (xs : Cells) → items (drop_cell s n xs) ≡ drop_match s n (items xs)
items-drop_cell s n [] = refl
items-drop_cell s n ((a, x) ∷ xs) = ground (arith, items-drop_cell s n xs)

first_match-items : (s n : ℕ) (xs : Cells) → first_match s n xs ≡ find_match s n (items xs)
first_match-items s n [] = refl
first_match-items s n ((a, x) ∷ xs) = ground (arith, first_match-items s n xs)

items-append : (xs ys : Cells) → items (xs ++ ys) ≡ items xs ++ items ys
items-append [] ys = refl
items-append ((a, x) ∷ xs) ys = ap (λ q. x ∷ q) (items-append xs ys)

pub length-items : (xs : Cells) → length (items xs) ≡ length xs
length-items [] = refl
length-items ((a, x) ∷ xs) = ap suc (length-items xs)

items-behind : (xs : Cells) → items (behind xs) ≡ but_oldest (items xs)
items-behind [] = refl
items-behind (c ∷ xs) = refl

first_item-items : (xs : Cells) → first_item xs ≡ oldest (items xs)
first_item-items [] = refl
first_item-items (c ∷ xs) = refl

items-trim :
    (size : ℕ) (ys : Cells)
    → items (if size == length ys then behind ys else ys) ≡ trim size (items ys)
items-trim size ys = elim (Bool-cases (size == length ys)) [
  | inl e ↦ rw (length-items ys, e) (items-behind ys)
  | inr e ↦ rw (length-items ys, e) refl
]

module _ (P : Ptr × QueuedPacket → Type 0) where
  All-drop_cell : (s n : ℕ) (xs : Cells) → All P xs → All P (drop_cell s n xs)
  All-drop_cell s n [] h = tt
  All-drop_cell s n ((a, x) ∷ xs) h =
      if_both (All P) (matches s n x) xs ((a, x) ∷ drop_cell s n xs) h.1
        (h.0, All-drop_cell s n xs h.1)

  All-behind : (xs : Cells) → All P xs → All P (behind xs)
  All-behind [] h = tt
  All-behind (c ∷ xs) h = h.1

-- The cells that AddNewPacket leaves before the new one.
abbrev pub kept_cells : ℕ → QueuedPacket → Cells → Cells
kept_cells size x xs =
    let ys = drop_cell x.sender x.pk_num xs in if size == length ys then behind ys else ys

pub items-kept_cells :
    (size : ℕ) (x : QueuedPacket) (xs : Cells) (c : Ptr × QueuedPacket)
    → items (kept_cells size x xs ++ c ∷ [])
      ≡ trim size (drop_match x.sender x.pk_num (items xs)) ++ c.1 ∷ []
items-kept_cells size x xs c =
    let ys = drop_cell x.sender x.pk_num xs in
    items-append (kept_cells size x xs) (c ∷ [])
    ∙ ap (λ r. r ++ c.1 ∷ [])
        (items-trim size ys ∙ ap (trim size) (items-drop_cell x.sender x.pk_num xs))

pub All-kept_cells :
    (P : Ptr × QueuedPacket → Type 0) (size : ℕ) (x : QueuedPacket) (xs : Cells)
    → All P xs
    → All P (kept_cells size x xs)
All-kept_cells P size x xs h =
    let ys = drop_cell x.sender x.pk_num xs in
    let e = All-drop_cell P x.sender x.pk_num xs h in
    if_both (All P) (size == length ys) (behind ys) ys (All-behind P ys e) e

has-behind : (p : Ptr) (xs : Cells) → has p xs ≡ false → has p (behind xs) ≡ false
has-behind p [] h = refl
has-behind p (c ∷ xs) h = ground arith

has-kept_cells :
    (size : ℕ) (p : Ptr) (x : QueuedPacket) (xs : Cells)
    → has p xs ≡ false
    → has p (kept_cells size x xs) ≡ false
has-kept_cells size p x xs out =
    let ys = drop_cell x.sender x.pk_num xs in
    let e = has-drop_cell x.sender x.pk_num p xs out in
    if_both (λ zs. has p zs ≡ false) (size == length ys) (behind ys) ys (has-behind p ys e) e

-- AddNewPacket, at an address where the buffer has no cell.
pub add-IsBuffer :
    (fresh : Ptr) (x : QueuedPacket)
    → fresh ≢ null
    → (b : RoutingBuffer) (xs : Cells) → IsBuffer b xs
    → has fresh xs ≡ false
    → (b' : RoutingBuffer) × (add_new_packet fresh x b ≡ done b')
      × IsBuffer b' (kept_cells b.maximum_size x xs ++ (fresh, x) ∷ [])
      × (b'.maximum_size ≡ b.maximum_size)
unfolding add_new_packet
add-IsBuffer fresh x ne b xs i out =
    let ys = drop_cell x.sender x.pk_num xs in
    let (b1, d) = dequeue-Dequeued x.sender x.pk_num b xs i in
    let (b2, ran2, h2, size2) = make_room-IsBuffer b1 ys d.holds in
    let h2' = subst (λ m. IsBuffer b2 (if m == length ys then behind ys else ys)) d.size h2 in
    let out' = has-kept_cells b.maximum_size fresh x xs out in
    let (b3, ran3, h3, size3) =
      append_cell-IsBuffer fresh x ne b2 (kept_cells b.maximum_size x xs) h2' out' in
    (b3, rw d.ran (rw ran2 ran3), h3, size3 ∙ size2 ∙ d.size)

module _ (address : ℕ → Ptr) (made : (i : ℕ) → address i ≢ null)
    (distinct : (i j : ℕ) → address i ≡ address j → i ≡ j) where
  -- A cell of one of the first `i` calls.
  abbrev IsEarlier : ℕ → Ptr × QueuedPacket → Type 0
  IsEarlier i c = (j : ℕ) × (j < i) × (c.0 ≡ address j)

  earlier_fresh : (i : ℕ) (xs : Cells) → All (IsEarlier i) xs → has (address i) xs ≡ false
  earlier_fresh i [] h = refl
  earlier_fresh i ((a, x) ∷ xs) ((j, l, e), h) = ground (arith, earlier_fresh i xs h, distinct i j)

  IsEarlier-later : (i : ℕ) (xs : Cells) → All (IsEarlier i) xs → All (IsEarlier (suc i)) xs
  IsEarlier-later i [] h = tt
  IsEarlier-later i (c ∷ xs) ((j, l, e), h) = ((j, omega arith, e), IsEarlier-later i xs h)

  -- A buffer that stands for a queue, with room for `size` packets, before call `i`.
  record Represents (i size : ℕ) (q : Queue) (b : RoutingBuffer) : Type 0 where
    cells : Cells
    holds : IsBuffer b cells
    earlier : All (IsEarlier i) cells
    contents : items cells ≡ q
    size_same : b.maximum_size ≡ size

  add-Represents :
      (i size : ℕ) (x : QueuedPacket) (q : Queue) (b : RoutingBuffer)
      → Represents i size q b
      → (b' : RoutingBuffer) × (add_new_packet (address i) x b ≡ done b')
        × Represents (suc i) size (put size x q) b'
  unfolding add_new_packet
  add-Represents i size x q b r =
      let (b', ran, holds, same) =
        add-IsBuffer (address i) x (made i) b r.cells r.holds (earlier_fresh i r.cells r.earlier) in
      let ys = kept_cells b.maximum_size x r.cells in
      (
        b',
        ran,
        record {
          cells = ys ++ (address i, x) ∷ [];
          holds = holds;
          earlier =
              All-append (IsEarlier (suc i)) ys ((address i, x) ∷ [])
                (IsEarlier-later i ys
                  (All-kept_cells (IsEarlier i) b.maximum_size x r.cells r.earlier))
                ((i, omega arith, refl), tt);
          contents =
              items-kept_cells b.maximum_size x r.cells (address i, x)
              ∙ ap₂ (λ m q'. put m x q') r.size_same r.contents;
          size_same = same ∙ r.size_same;
        },
      )

  -- Calls that only look, or take a packet out.
  kept :
      (i size : ℕ) (q : Queue) (b : RoutingBuffer)
      → Represents i size q b
      → Represents (suc i) size q b
  kept i size q b r = record {
    cells = r.cells;
    holds = r.holds;
    earlier = IsEarlier-later i r.cells r.earlier;
    contents = r.contents;
    size_same = r.size_same;
  }

  buffer_step-Represents :
      (i size : ℕ) (op : Op) (q : Queue) (b : RoutingBuffer)
      → Represents i size q b
      → (b' : RoutingBuffer) × (buffer_step address i op b ≡ done (b', (queue_step size op q).1))
        × Represents (suc i) size (queue_step size op q).0 b'
  buffer_step-Represents i size (add x) q b r =
      let (b', ran, r') = add-Represents i size x q b r in (b', rw ran refl, r')
  buffer_step-Represents i size (take_packet s n) q b r =
      let (b', d) = dequeue-Dequeued s n b r.cells r.holds in
      (
        b',
        d.ran
            ∙ ap (λ o. done (b', o))
                (first_match-items s n r.cells ∙ ap (find_match s n) r.contents),
        record {
          cells = drop_cell s n r.cells;
          holds = d.holds;
          earlier = IsEarlier-later i _ (All-drop_cell (IsEarlier i) s n r.cells r.earlier);
          contents = items-drop_cell s n r.cells ∙ ap (drop_match s n) r.contents;
          size_same = d.size ∙ r.size_same;
        },
      )
  buffer_step-Represents i size take_head q b r =
      let (b', ran, holds, same) = dehead-IsBuffer b r.cells r.holds in
      (
        b',
        ran ∙ ap (λ o. done (b', o)) (first_item-items r.cells ∙ ap oldest r.contents),
        record {
          cells = behind r.cells;
          holds = holds;
          earlier = IsEarlier-later i _ (All-behind (IsEarlier i) r.cells r.earlier);
          contents = items-behind r.cells ∙ ap but_oldest r.contents;
          size_same = same ∙ r.size_same;
        },
      )
  buffer_step-Represents i size (look_up s n) q b r = (
    b,
    rw (lookup_copy-first_match s n b r.cells r.holds)
        (ap (λ o. done (b, o)) (first_match-items s n r.cells ∙ ap (find_match s n) r.contents)),
    kept i size q b r,
  )
  buffer_step-Represents i size look_at_head q b r = (
    b,
    rw (peek_head-first_item b r.cells r.holds)
        (ap (λ o. done (b, o)) (first_item-items r.cells ∙ ap oldest r.contents)),
    kept i size q b r,
  )

  run-Represents :
      (i size : ℕ) (ops : List Op) (q : Queue) (b : RoutingBuffer)
      → Represents i size q b
      → buffer_run address i ops b ≡ done (queue_run size ops q)
  unfolding buffer_run
  run-Represents i size [] q b r = refl
  run-Represents i size (op ∷ ops) q b r =
      let (b', ran, r') = buffer_step-Represents i size op q b r in
      rw ran (rw (run-Represents (suc i) size ops (queue_step size op q).0 b' r') refl)

  -- A new buffer, whatever is called on it and in whatever order, follows no null pointer, ends
  -- each loop, and returns what the queue of packets returns: a packet that is added goes behind
  -- the others in place of the one with its sender and number, and the oldest leaves a full queue.
  -- No two calls make their cells at one address, and none at null.
  pub buffer_run-queue_run :
      (size : ℕ) (ops : List Op)
      → buffer_run address 0 ops (new_buffer size) ≡ done (queue_run size ops [])
  buffer_run-queue_run size ops = run-Represents 0 size ops [] (new_buffer size) (record {
    cells = [];
    holds = record { chain = refl; tail = refl; count = refl };
    earlier = tt;
    contents = refl;
    size_same = refl;
  })
