-- ===== src/Queues/RoutingBuffer/Lookup.antt =====
-- Head and LookupCopy.
use aqua_sim_ng.Prelude.{
  ==_iff, Bool, Bool-cases, Option, [], ap, arith, false, inl, inr, length, nil_of_length, refl,
  some, suc, sym, true, zero, ℕ, ◌+◌, ◌<◌, ◌==◌, ◌∙◌, ◌∷◌, ◌≡◌,
}
use aqua_sim_ng.Queues.Heap.{Outcome, Ptr, QueuedPacket, done, null}
use aqua_sim_ng.Queues.Heap.Chain.{Cells, Chain, load-Chain}
use aqua_sim_ng.Queues.RoutingBuffer.{RoutingBuffer, lookup_copy, lookup_loop, matches, peek_head}
use aqua_sim_ng.Queues.RoutingBuffer.Add.{first_item}
use aqua_sim_ng.Queues.RoutingBuffer.Walk.{IsBuffer, first_match}

pub peek_head-first_item :
    (b : RoutingBuffer) (xs : Cells) → IsBuffer b xs → peek_head b ≡ done (first_item xs)
unfolding peek_head
peek_head-first_item b [] i =
    let empty : (b.head == null) ≡ true = ground (arith, i.chain) in rw empty refl
peek_head-first_item b ((a, x) ∷ xs) i =
    let filled : (b.head == null) ≡ false = ground (arith, i.chain.0, i.chain.1) in
    rw filled (rw (load-Chain b.heap b.head a x xs i.chain) refl)

module _ (s n : ℕ) (b : RoutingBuffer) where
  -- What a round of the loop does at a cell, by the test.
  abbrev step : ℕ → Ptr → QueuedPacket → Bool → Outcome (Option QueuedPacket)
  step k q x true = done (some x)
  step k q x false = lookup_loop k s n q b

  lookup_loop-first_match :
      (k : ℕ) (p : Ptr) (xs : Cells)
      → Chain b.heap p xs
      → length xs < k
      → lookup_loop k s n p b ≡ done (first_match s n xs)
  unfolding lookup_loop
  lookup_loop-first_match zero p xs c fuel = absurd (omega arith)
  lookup_loop-first_match (suc k) p [] c fuel =
      let ended : (p == null) ≡ true = ground arith in rw ended refl
  lookup_loop-first_match (suc k) p ((a, x) ∷ xs) c fuel =
      let going : (p == null) ≡ false = ground (arith, c.0, c.1) in
      rw going (
        rw (load-Chain b.heap p a x xs c) (elim (Bool-cases (matches s n x)) [
          | inl hit ↦ ap (step k c.3 x) hit ∙ rw hit refl
          | inr miss ↦
              ap (step k c.3 x) miss
              ∙ lookup_loop-first_match k c.3 xs c.5 (omega arith)
              ∙ rw miss refl
        ]))

  pub lookup_copy-first_match :
      (xs : Cells) → IsBuffer b xs → lookup_copy s n b ≡ done (first_match s n xs)
  unfolding lookup_copy
  lookup_copy-first_match xs i = elim (Bool-cases (b.num_of_packet == 0)) [
    | inl e ↦ rw e (
        ap (λ ys. done (first_match s n ys))
          (sym (nil_of_length xs (omega (arith, i.count, (==_iff b.num_of_packet 0).0 e)))))
    | inr e ↦
        rw e
          (lookup_loop-first_match (b.num_of_packet + 1) b.head xs i.chain (omega (arith, i.count)))
  ]
