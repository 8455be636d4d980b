-- ===== src/Queues/RoutingBuffer/Bounded.antt =====
-- The size of the queue, and the packets that it may hold together.
-- No two packets have one sender and one number.
use aqua_sim_ng.Address.{less}
use aqua_sim_ng.Prelude.{
  ==_iff, Bool-cases, [], arith, false, inl, inr, length, length-append, none, refl, subst, sym, ℕ,
  ◌++◌, ◌-◌, ◌<◌, ◌==◌, ◌∷◌, ◌≡◌, ◌≢◌, ◌≤◌,
}
use aqua_sim_ng.Queues.Heap.{Ptr, QueuedPacket, done, null}
use aqua_sim_ng.Queues.Heap.Chain.{Cells, has}
use aqua_sim_ng.Queues.RoutingBuffer.{RoutingBuffer, add_new_packet, matches}
use aqua_sim_ng.Queues.RoutingBuffer.Refine.{
  add-IsBuffer, items, items-kept_cells, kept_cells, length-items,
}
use aqua_sim_ng.Queues.RoutingBuffer.Spec.{Queue, but_oldest, drop_match, find_match, put}
use aqua_sim_ng.Queues.RoutingBuffer.Walk.{IsBuffer}

abbrev pub NoTwins : Queue → Type 0
NoTwins [] = Unit
NoTwins (x ∷ q) = (find_match x.sender x.pk_num q ≡ none) × NoTwins q

find-drop :
    (s n t m : ℕ) (q : Queue) → find_match t m q ≡ none → find_match t m (drop_match s n q) ≡ none
find-drop s n t m [] h = refl
find-drop s n t m (x ∷ q) h = ground (arith, find-drop s n t m q)

NoTwins-drop :
    (s n : ℕ) (q : Queue)
    → NoTwins q
    → NoTwins (drop_match s n q) × (find_match s n (drop_match s n q) ≡ none)
NoTwins-drop s n [] h = (tt, refl)
NoTwins-drop s n (x ∷ q) (out, h) =
    ground (arith, NoTwins-drop s n q h, find-drop s n x.sender x.pk_num q out)

length-drop_match : (s n : ℕ) (q : Queue) → length (drop_match s n q) ≤ length q
length-drop_match s n [] = omega arith
length-drop_match s n (x ∷ q) = ground (arith, length-drop_match s n q)

find-snoc :
    (s n : ℕ) (q : Queue) (x : QueuedPacket)
    → find_match s n q ≡ none
    → matches s n x ≡ false
    → find_match s n (q ++ x ∷ []) ≡ none
find-snoc s n [] x h out = ground arith
find-snoc s n (y ∷ q) x h out = ground (arith, find-snoc s n q x)

NoTwins-but_oldest :
    (s n : ℕ) (q : Queue)
    → NoTwins q
    → find_match s n q ≡ none
    → NoTwins (but_oldest q)
      × (find_match s n (but_oldest q) ≡ none)
      × (length (but_oldest q) ≡ length q - 1)
NoTwins-but_oldest s n [] h out = (tt, refl, refl)
NoTwins-but_oldest s n (y ∷ q) h out = (h.1, ground arith, omega arith)

NoTwins-snoc :
    (q : Queue) (x : QueuedPacket)
    → NoTwins q
    → find_match x.sender x.pk_num q ≡ none
    → NoTwins (q ++ x ∷ [])
NoTwins-snoc [] x h out = (refl, tt)
NoTwins-snoc (y ∷ q) x (alone, h) out =
    (find-snoc y.sender y.pk_num q x alone (ground arith), NoTwins-snoc q x h (ground arith))

put_bounded :
    (size : ℕ) (x : QueuedPacket) (q : Queue)
    → 0 < size
    → length q ≤ size
    → NoTwins q
    → (length (put size x q) ≤ size) × NoTwins (put size x q)
put_bounded size x q room short h =
    let s = x.sender in
    let n = x.pk_num in
    let r = drop_match s n q in
    let (kept, gone) = NoTwins-drop s n q h in
    let (kept', gone', less) = NoTwins-but_oldest s n r kept gone in
    let bound = length-drop_match s n q in
    elim (Bool-cases (size == length r)) [
      | inl e ↦ rw e (
        omega (arith, length-append (but_oldest r) (x ∷ []), (==_iff size (length r)).0 e),
        NoTwins-snoc (but_oldest r) x kept' gone',
      )
      | inr e ↦ rw e (ground (arith, length-append r (x ∷ [])), NoTwins-snoc r x kept gone)
    ]

-- AddNewPacket, at an address where the buffer has no cell, keeps a buffer that has room for a packet
-- within its maximal size and leaves no two packets with one sender and one number. The packet is
-- the last.
pub add_new_packet_bounded :
    (fresh : Ptr) (x : QueuedPacket) (b : RoutingBuffer) (xs : Cells)
    → fresh ≢ null
    → has fresh xs ≡ false
    → IsBuffer b xs
    → 0 < b.maximum_size
    → length xs ≤ b.maximum_size
    → NoTwins (items xs)
    → (b' : RoutingBuffer) × (ys : Cells) × (add_new_packet fresh x b ≡ done b')
      × IsBuffer b' (ys ++ (fresh, x) ∷ [])
      × (length (ys ++ (fresh, x) ∷ []) ≤ b'.maximum_size)
      × NoTwins (items (ys ++ (fresh, x) ∷ []))
add_new_packet_bounded fresh x b xs ne out i room short h =
    let (b', ran, holds, size) = add-IsBuffer fresh x ne b xs i out in
    let ys = kept_cells b.maximum_size x xs in
    let e = items-kept_cells b.maximum_size x xs (fresh, x) in
    let (bound, alone) =
      put_bounded b.maximum_size x (items xs) room (rw (length-items xs) short) h in
    (
      b',
      ys,
      ran,
      holds,
      ground (arith, size, bound, e, length-items (ys ++ (fresh, x) ∷ [])),
      subst NoTwins (sym e) alone,
    )
