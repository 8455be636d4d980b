-- ===== src/Ndn/Payload/Total.antt =====
-- Splitting a buffer that has a NUL does not read past its end.
use aqua_sim_ng.Ndn.Payload.{
  Token, end_token, interest_and_data, last_slash, pointer, shorten_name_prefix, skip_bars, strtok,
  write_nul, written_to,
}
use aqua_sim_ng.Prelude.{
  Bool-cases, List, Option, Option-cases, [], arith, if◌then◌else◌, inl, inr, none, some, ℕ, ◌+◌,
  ◌==◌, ◌∷◌, ◌≡◌, ◌⊎◌,
}

abbrev pub HasNul : List ℕ → Type 0
HasNul [] = ⊥
HasNul (b ∷ bs) = (b ≡ 0) ⊎ HasNul bs

skip-HasNul :
    (i : ℕ) (bs : List ℕ)
    → HasNul bs
    → (j : ℕ) × (b : ℕ) × (rest : List ℕ) × (skip_bars i bs ≡ some (j, b ∷ rest))
      × HasNul (b ∷ rest)
unfolding skip_bars
skip-HasNul i [] h = absurd h
skip-HasNul i (b ∷ bs) h = elim (Bool-cases (b == 124)) [
  | inl e ↦
      let later : HasNul bs = elim h [ inl z ↦ absurd (ground (arith, e, z)) | inr n ↦ n ] in
      let (j, c, rest, skipped, n) = skip-HasNul (i + 1) bs later in
      (j, c, rest, ground (arith, e, skipped), n)
  | inr e ↦ (i, b, bs, ground (arith, e), h)
]

end_token-HasNul :
    (start i : ℕ) (bs : List ℕ)
    → HasNul bs
    → (t : Token) × (end_token start i bs ≡ some t) × HasNul t.bytes
unfolding end_token
end_token-HasNul start i [] h = absurd h
end_token-HasNul start i (b ∷ bs) h = elim h [
  | inl z ↦ (
    record { start = some start; written = none; next = i; bytes = b ∷ bs },
    ground (arith, z),
    inl z,
  )
  | inr n ↦
      let (t, ended, m) = end_token-HasNul start (i + 1) bs n in
      elim (Bool-cases (b == 0)) [
        | inl z ↦ (
          record { start = some start; written = none; next = i; bytes = b ∷ bs },
          ground (arith, z),
          inr n,
        )
        | inr z ↦ elim (Bool-cases (b == 124)) [
          | inl e ↦ (
            record { start = some start; written = some i; next = i + 1; bytes = bs },
            ground (arith, z, e),
            n,
          )
          | inr e ↦ (t, ground (arith, z, e, ended), m)
        ]
      ]
]

strtok-HasNul :
    (i : ℕ) (bs : List ℕ) → HasNul bs → (t : Token) × (strtok i bs ≡ some t) × HasNul t.bytes
unfolding strtok
strtok-HasNul i bs h =
    let (j, b, rest, skipped, n) = skip-HasNul i bs h in
    let (t, ended, m) = end_token-HasNul j j (b ∷ rest) n in
    elim (Bool-cases (b == 0)) [
      | inl z ↦ (
        record { start = none; written = none; next = j; bytes = b ∷ rest },
        ground (arith, skipped, z),
        n,
      )
      | inr z ↦ (t, ground (arith, skipped, z, ended), m)
    ]

pub interest_and_data-HasNul :
    (base : ℕ) (bs : List ℕ)
    → HasNul bs
    → (r : ℕ × ℕ × List ℕ) × (interest_and_data base bs ≡ some r)
unfolding interest_and_data
interest_and_data-HasNul base bs h =
    let (t, first, n) = strtok-HasNul 0 bs h in
    let (u, second, m) = strtok-HasNul t.next t.bytes n in
    elim (Option-cases u.start) [
      | inl e ↦
          ((0, 0, written_to u.written (written_to t.written bs)), ground (arith, first, second, e))
      | inr (j, e) ↦ (
        (pointer base t.start, base + j, written_to u.written (written_to t.written bs)),
        ground (arith, first, second, e),
      )
    ]

last_slash-HasNul :
    (i : ℕ) (bs : List ℕ) → HasNul bs → (place : Option ℕ) × (last_slash i bs ≡ some place)
unfolding last_slash
last_slash-HasNul i [] h = absurd h
last_slash-HasNul i (b ∷ bs) h = elim (Bool-cases (b == 0)) [
  | inl e ↦ (none, ground (arith, e))
  | inr e ↦
      let later : HasNul bs = elim h [ inl z ↦ absurd (ground (arith, e, z)) | inr n ↦ n ] in
      let (place, found) = last_slash-HasNul (i + 1) bs later in
      elim (Option-cases place) [
        | inl p ↦ (if b == 47 then some i else none, ground (arith, e, found, p))
        | inr (j, p) ↦ (some j, ground (arith, e, found, p))
      ]
]

pub shorten_name_prefix-HasNul :
    (bs : List ℕ) → HasNul bs → (left : List ℕ) × (shorten_name_prefix bs ≡ some left)
unfolding shorten_name_prefix
shorten_name_prefix-HasNul bs h =
    let (place, found) = last_slash-HasNul 0 bs h in
    elim (Option-cases place) [
      | inl p ↦ (bs, ground (arith, found, p))
      | inr (i, p) ↦ (write_nul i bs, ground (arith, found, p))
    ]
