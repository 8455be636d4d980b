-- ===== src/Ndn/Payload.antt =====
-- model/ndn/named-data.h and .cc: the bytes of a data packet and how GetInterestAndDataStr splits
-- them. A pointer is a number, 0 the null pointer; none is a read past the end of a buffer.
pub mod Split
pub mod Total
use aqua_sim_ng.Prelude.{List, Option, [], if◌then◌else◌, none, some, ℕ, ◌++◌, ◌+◌, ◌-◌, ◌==◌, ◌∷◌}

-- The character of DELIMITER.
abbrev pub bar : ℕ
bar = 124

-- The bytes that `sizeof(DELIMITER)` counts.
abbrev pub delimiter : List ℕ
delimiter = bar ∷ bar ∷ bar ∷ 0 ∷ []

-- The bytes of the packet that `CreateData` makes.
abbrev pub data_payload : List ℕ → List ℕ → List ℕ
data_payload name data' = name ++ delimiter ++ data'

-- `strlen`
unfoldable pub strlen : List ℕ → Option ℕ
strlen [] = none
strlen (b ∷ bs) =
    let rest = strlen bs in
    if b == 0 then some 0 else elim rest [ none ↦ none | some n ↦ some (n + 1) ]

-- A byte that becomes NUL.
unfoldable pub write_nul : ℕ → List ℕ → List ℕ
write_nul i [] = []
write_nul i (b ∷ bs) = let rest = write_nul (i - 1) bs in if i == 0 then 0 ∷ bs else b ∷ rest

-- The first byte of `strtok` that is no delimiter, and the bytes from there.
unfoldable pub skip_bars : ℕ → List ℕ → Option (ℕ × List ℕ)
skip_bars i [] = none
skip_bars i (b ∷ bs) =
    let rest = skip_bars (i + 1) bs in if b == bar then rest else some (i, b ∷ bs)

-- The end of a token: the place of a delimiter, which becomes NUL, where the next call starts, and the
-- bytes from there.
pub record Token : Type 0 where
  pub start : Option ℕ
  pub written : Option ℕ
  pub next : ℕ
  pub bytes : List ℕ

unfoldable pub end_token : ℕ → ℕ → List ℕ → Option Token
end_token start i [] = none
end_token start i (b ∷ bs) =
    let later = end_token start (i + 1) bs in
    if b == 0
    then some (record { start = some start; written = none; next = i; bytes = b ∷ bs })
    else if b == bar
    then some (record { start = some start; written = some i; next = i + 1; bytes = bs })
    else later

-- `strtok` from a place on; the null pointer is none.
unfoldable pub strtok : ℕ → List ℕ → Option Token
unfolding skip_bars end_token
strtok i bs = elim (skip_bars i bs) [
  | none ↦ none
  | some (j, rest) ↦ elim rest [
    | [] ↦ none
    | b ∷ more ↦
        if b == 0
        then some (record { start = none; written = none; next = j; bytes = b ∷ more })
        else end_token j j (b ∷ more)
  ]
]

abbrev pub pointer : ℕ → Option ℕ → ℕ
pointer base o = elim o [ none ↦ 0 | some i ↦ base + i ]

unfoldable pub written_to : Option ℕ → List ℕ → List ℕ
unfolding write_nul
written_to o bs = elim o [ none ↦ bs | some i ↦ write_nul i bs ]

-- `GetInterestAndDataStr` on the buffer at an address: the two pointers, and the buffer after it.
unfoldable pub interest_and_data : ℕ → List ℕ → Option (ℕ × ℕ × List ℕ)
unfolding strtok written_to
interest_and_data base bs = elim (strtok 0 bs) [
  | none ↦ none
  | some t ↦ elim (strtok t.next t.bytes) [
    | none ↦ none
    | some u ↦
        let left = written_to u.written (written_to t.written bs) in
        elim u.start [
          | none ↦ some (0, 0, left)
          | some j ↦ some (pointer base t.start, base + j, left)
        ]
  ]
]

-- The place of the last '/' before the NUL, if there is one.
unfoldable pub last_slash : ℕ → List ℕ → Option (Option ℕ)
last_slash i [] = none
last_slash i (b ∷ bs) =
    let later = last_slash (i + 1) bs in
    if b == 0 then some none else elim later [
      | none ↦ none
      | some place ↦ elim place [
        | none ↦ if b == 47 then some (some i) else some none
        | some j ↦ some (some j)
      ]
    ]

-- `ShortenNamePrefix`
unfoldable pub shorten_name_prefix : List ℕ → Option (List ℕ)
unfolding last_slash write_nul
shorten_name_prefix bs = elim (last_slash 0 bs) [
  | none ↦ none
  | some place ↦ elim place [ none ↦ some bs | some i ↦ some (write_nul i bs) ]
]
