-- ===== src/Ndn/Payload/Split.antt =====
-- GetInterestAndDataStr on what CreateData makes.
use aqua_sim_ng.Ndn.Payload.{
  bar, data_payload, end_token, interest_and_data, skip_bars, strtok, write_nul, written_to,
}
use aqua_sim_ng.Prelude.{All, List, Option, [], arith, none, refl, some, ℕ, ◌+◌, ◌∷◌, ◌≡◌, ◌≢◌}

-- No NUL and no delimiter.
abbrev pub IsPlain : List ℕ → Type 0
IsPlain name = All (λ b. (b ≢ 0) × (b ≢ 124)) name

-- A token that ends at the delimiter.
end_plain :
    (start i : ℕ) (name data' : List ℕ)
    → IsPlain name
    → (w : Option ℕ) × (n : ℕ) × (end_token start i (data_payload name data')
        ≡ some
            (record { start = some start; written = w; next = n; bytes = bar ∷ bar ∷ 0 ∷ data' }))
unfolding end_token
end_plain start i [] data' h = (some i, i + 1, refl)
end_plain start i (b ∷ name) data' h =
    let (w, n, e) = end_plain start (i + 1) name data' h.1 in (w, n, ground (arith, h.0, e))

skip_plain : (b : ℕ) (bs : List ℕ) → b ≢ 124 → skip_bars 0 (b ∷ bs) ≡ some (0, b ∷ bs)
unfolding skip_bars
skip_plain b bs h = ground (arith, h)

-- A data packet of a name without NUL and '|', as CreateData makes it, cannot be split: both pointers are
-- the null pointer, whatever the name and the data.
pub interest_and_data-data_payload :
    (base : ℕ) (name data' : List ℕ)
    → IsPlain name
    → (left : List ℕ) × (interest_and_data base (data_payload name data') ≡ some (0, 0, left))
unfolding interest_and_data strtok skip_bars written_to
interest_and_data-data_payload base [] data' h = (data_payload [] data', refl)
interest_and_data-data_payload base (b ∷ name) data' h =
    let (w, n, e) = end_plain 0 0 (b ∷ name) data' h in
    (
      elim w [
        | none ↦ data_payload (b ∷ name) data'
        | some i ↦ write_nul i (data_payload (b ∷ name) data')
      ],
      ground (arith, h.0, e),
    )
