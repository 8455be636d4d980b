-- ===== src/Ndn/Pit/Requesters.antt =====
-- Who is recorded for a name after any requests.
use aqua_sim_ng.Address.{address_key}
use aqua_sim_ng.Ndn.Pit.{
  Pit, add_pit_entry, get_pit_entry, insert_sorted, new_pit, sort, unique, unique_from,
}
use aqua_sim_ng.Prelude.{
  ==_iff, Bool, List, Option-cases, [], arith, false, if◌then◌else◌, inl, inr, refl, ℕ, ◌++◌, ◌+◌,
  ◌<◌, ◌==◌, ◌||◌, ◌∙◌, ◌∷◌, ◌≡◌, ◌≤◌,
}
use aqua_sim_ng.Prelude.Map.{find, find-insert}

abbrev pub has : ℕ → List ℕ → Bool
has a [] = false
has a (b ∷ bs) = a == b || has a bs

-- Each address is below the next.
abbrev pub Ascends : List ℕ → Type 0
Ascends [] = Unit
Ascends (a ∷ []) = Unit
Ascends (a ∷ b ∷ bs) = (a < b) × Ascends (b ∷ bs)

-- No address is above the next.
abbrev pub IsSorted : List ℕ → Type 0
IsSorted [] = Unit
IsSorted (a ∷ []) = Unit
IsSorted (a ∷ b ∷ bs) = (a ≤ b) × IsSorted (b ∷ bs)

insert-IsSorted : (a : ℕ) (bs : List ℕ) → IsSorted bs → IsSorted (insert_sorted a bs)
unfolding insert_sorted
insert-IsSorted a [] h = tt
insert-IsSorted a (b ∷ []) h = ground arith
insert-IsSorted a (b ∷ c ∷ bs) h = ground (arith, insert-IsSorted a (c ∷ bs) h.1)

sort-IsSorted : (xs : List ℕ) → IsSorted (sort xs)
unfolding sort
sort-IsSorted [] = tt
sort-IsSorted (a ∷ xs) = insert-IsSorted a (sort xs) (sort-IsSorted xs)

has-insert : (x a : ℕ) (bs : List ℕ) → has x (insert_sorted a bs) ≡ has x (a ∷ bs)
unfolding insert_sorted
has-insert x a [] = refl
has-insert x a (b ∷ bs) = ground (arith, has-insert x a bs)

has-sort : (x : ℕ) (xs : List ℕ) → has x (sort xs) ≡ has x xs
unfolding sort
has-sort x [] = refl
has-sort x (a ∷ xs) = ground (arith, has-insert x a (sort xs), has-sort x xs)

unique_from-Ascends : (a : ℕ) (bs : List ℕ) → IsSorted (a ∷ bs) → Ascends (a ∷ unique_from a bs)
unfolding unique_from
unique_from-Ascends a [] h = tt
unique_from-Ascends a (b ∷ []) h = ground arith
unique_from-Ascends a (b ∷ c ∷ bs) h =
    ground (arith, unique_from-Ascends a (c ∷ bs), unique_from-Ascends b (c ∷ bs) h.1)

has-unique_from : (x a : ℕ) (bs : List ℕ) → has x (a ∷ unique_from a bs) ≡ has x (a ∷ bs)
unfolding unique_from
has-unique_from x a [] = refl
has-unique_from x a (b ∷ bs) =
    ground (arith, has-unique_from x a bs, has-unique_from x b bs, ==_iff a b)

has-append : (x : ℕ) (xs bs : List ℕ) → has x (xs ++ bs) ≡ (has x xs || has x bs)
has-append x [] bs = refl
has-append x (a ∷ xs) bs = ground (arith, has-append x xs bs)

-- One more address among those recorded, as AddEntry puts it there.
abbrev joined : ℕ → List ℕ → List ℕ
joined a xs = unique (sort (xs ++ a ∷ []))

unique-Ascends : (xs : List ℕ) → IsSorted xs → Ascends (unique xs)
unique-Ascends [] h = tt
unique-Ascends (a ∷ xs) h = unique_from-Ascends a xs h

has-unique : (x : ℕ) (xs : List ℕ) → has x (unique xs) ≡ has x xs
has-unique x [] = refl
has-unique x (a ∷ xs) = has-unique_from x a xs

joined-Ascends : (a : ℕ) (xs : List ℕ) → Ascends (joined a xs)
joined-Ascends a xs = unique-Ascends (sort (xs ++ a ∷ [])) (sort-IsSorted (xs ++ a ∷ []))

has-joined : (x a : ℕ) (xs : List ℕ) → has x (joined a xs) ≡ (has x xs || x == a)
has-joined x a xs =
    has-unique x (sort (xs ++ a ∷ []))
    ∙ has-sort x (xs ++ a ∷ [])
    ∙ has-append x xs (a ∷ [])
    ∙ ground arith

-- A request: the time, the name and the address.
abbrev pub Request : Type 0
Request = ℕ × ℕ × ℕ

unfoldable pub add_requests : List Request → Pit → Pit
add_requests [] t = t
add_requests ((now, name, address) ∷ rs) t = add_requests rs (add_pit_entry now name address t).0

-- The addresses that asked for a name.
unfoldable pub askers : ℕ → List Request → List ℕ
askers name [] = []
askers name ((now, k, address) ∷ rs) =
    let later = askers name rs in if name == k then address ∷ later else later

get-add_pit_entry :
    (now k address name : ℕ) (t : Pit)
    → get_pit_entry name (add_pit_entry now k address t).0
      ≡ (if name == k then joined address (get_pit_entry k t) else get_pit_entry name t)
unfolding get_pit_entry add_pit_entry sort insert_sorted unique_from
get-add_pit_entry now k address name t = elim (Option-cases (find k t.table)) [
  | inl e ↦ ground (
    arith,
    e,
    ==_iff name k,
    ==_iff k name,
    find-insert k name (record { address = address ∷ []; due = now + t.timeout }) t.table,
  )
  | inr (v, e) ↦ ground (
    arith,
    e,
    ==_iff name k,
    ==_iff k name,
    find-insert k name (record v { address = joined address v.address }) t.table,
  )
]

requests-Ascends :
    (name : ℕ) (rs : List Request) (t : Pit)
    → Ascends (get_pit_entry name t)
    → Ascends (get_pit_entry name (add_requests rs t))
unfolding add_requests
requests-Ascends name [] t h = h
requests-Ascends name ((now, k, address) ∷ rs) t h =
    requests-Ascends name rs (add_pit_entry now k address t).0 (
      ground
        (arith, get-add_pit_entry now k address name t, joined-Ascends address (get_pit_entry k t)))

has-requests :
    (x name : ℕ) (rs : List Request) (t : Pit)
    → has x (get_pit_entry name (add_requests rs t))
      ≡ (has x (get_pit_entry name t) || has x (askers name rs))
unfolding add_requests askers
has-requests x name [] t = ground arith
has-requests x name ((now, k, address) ∷ rs) t = ground (
  arith,
  has-requests x name rs (add_pit_entry now k address t).0,
  get-add_pit_entry now k address name t,
  has-joined x address (get_pit_entry k t),
)

-- After any requests to a new table, and no expiry between them, the addresses recorded for a name are in
-- increasing order, none twice, and are those that asked for the name and no others.
pub add_requests-askers :
    (timeout name : ℕ) (rs : List Request)
    → Ascends (get_pit_entry name (add_requests rs (new_pit timeout)))
      × ((x : ℕ)
          → has x (get_pit_entry name (add_requests rs (new_pit timeout))) ≡ has x (askers name rs))
unfolding get_pit_entry find
add_requests-askers timeout name rs =
    (requests-Ascends name rs (new_pit timeout) tt, λ x. has-requests x name rs (new_pit timeout))
