-- ===== src/Aodv/Reply/Best.antt =====
-- IsBetterRreqCandidate as an order.
use aqua_sim_ng.Aodv.Reply.{is_better_rreq_candidate}
use aqua_sim_ng.Aodv.SeqNo.{is_seq_no_newer}
use aqua_sim_ng.Aodv.State.{RreqCandidate}
use aqua_sim_ng.Prelude.{
  Bool, arith, false, if◌then◌else◌, inl, inr, ltb, not, sym, true, ℕ, ◌%◌, ◌+◌, ◌<◌, ◌==◌, ◌^◌,
  ◌∙◌, ◌≡◌, ◌≤◌, ◌⊎◌,
}

-- A candidate whose origin's number is at most half a circle past `base`.
abbrev pub IsNear : ℕ → RreqCandidate → Type 0
IsNear base c = (k : ℕ) × (k < 2 ^ 31) × (c.origin_seq_no ≡ (base + k) % 2 ^ 32)

near_newer :
    (base i j : ℕ)
    → i < 2 ^ 31
    → j < 2 ^ 31
    → is_seq_no_newer ((base + i) % 2 ^ 32) ((base + j) % 2 ^ 32) ≡ ltb j i
unfolding is_seq_no_newer
near_newer base i j hi hj = ground arith

near_same :
    (base i j : ℕ)
    → i < 2 ^ 31
    → j < 2 ^ 31
    → ((base + i) % 2 ^ 32 == (base + j) % 2 ^ 32) ≡ (i == j)
near_same base i j hi hj = ground arith

-- The order by the number past the base, then the hops, then the time.
abbrev is_better_at : ℕ → ℕ → RreqCandidate → RreqCandidate → Bool
is_better_at i j a b =
    if ltb j i
    then true
    else if not (i == j)
    then false
    else if ltb a.hop_count b.hop_count
    then true
    else if ltb b.hop_count a.hop_count
    then false
    else ltb a.receive_time b.receive_time

near_better :
    (base i j : ℕ) (a b : RreqCandidate)
    → i < 2 ^ 31
    → j < 2 ^ 31
    → a.origin_seq_no ≡ (base + i) % 2 ^ 32
    → b.origin_seq_no ≡ (base + j) % 2 ^ 32
    → is_better_rreq_candidate a b ≡ is_better_at i j a b
unfolding is_better_rreq_candidate
near_better base i j a b hi hj ea eb =
    rw (is_better_rreq_candidate, ea, eb, near_newer base i j hi hj, near_same base i j hi hj)
      (ground arith)

-- Among near candidates, what a candidate does not beat, a better one's loser does not beat.
pub is_better_trans :
    (base : ℕ) (a b c : RreqCandidate)
    → IsNear base a
    → IsNear base b
    → IsNear base c
    → is_better_rreq_candidate a b ≡ false
    → is_better_rreq_candidate c b ≡ true
    → is_better_rreq_candidate a c ≡ false
is_better_trans base a b c (i, hi, ea) (j, hj, eb) (k, hk, ec) h g = ground (
  arith,
  near_better base i j a b hi hj ea eb,
  near_better base k j c b hk hj ec eb,
  near_better base i k a c hi hk ea ec,
)

-- At least as good: a newer number of the origin, or the same and fewer hops, or as many and no
-- later.
abbrev pub IsAsGood : RreqCandidate → RreqCandidate → Type 0
IsAsGood a b =
    (is_seq_no_newer a.origin_seq_no b.origin_seq_no ≡ true)
    ⊎ ((a.origin_seq_no ≡ b.origin_seq_no)
        × ((a.hop_count < b.hop_count)
            ⊎ ((a.hop_count ≡ b.hop_count) × (a.receive_time ≤ b.receive_time))))

near_as_good :
    (i j : ℕ) (a b : RreqCandidate)
    → is_better_at j i b a ≡ false
    → (j < i)
      ⊎ ((i ≡ j)
          × ((a.hop_count < b.hop_count)
              ⊎ ((a.hop_count ≡ b.hop_count) × (a.receive_time ≤ b.receive_time))))
near_as_good i j a b h = ground arith

-- What a near candidate does not beat is at least as good.
pub unbeaten-IsAsGood :
    (base : ℕ) (a b : RreqCandidate)
    → IsNear base a
    → IsNear base b
    → is_better_rreq_candidate b a ≡ false
    → IsAsGood a b
unbeaten-IsAsGood base a b (i, hi, ea) (j, hj, eb) h =
    elim (near_as_good i j a b (sym (near_better base j i b a hj hi eb ea) ∙ h)) [
      | inl newer ↦ inl (rw (ea, eb, near_newer base i j hi hj) (ground arith))
      | inr (same, rest) ↦ inr (ea ∙ rw same (sym eb), rest)
    ]
