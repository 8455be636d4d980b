-- ===== src/Ndn/Pit.antt =====
-- model/ndn/pit.h and .cc, class Pit: who asked for a name. A name is a pointer.
pub mod Requesters
use aqua_sim_ng.Address.{address_key}
use aqua_sim_ng.Prelude.{
  Bool, List, [], false, if◌then◌else◌, leb, none, some, true, ℕ, ◌++◌, ◌+◌, ◌==◌, ◌∷◌,
}
use aqua_sim_ng.Prelude.Map.{Map, erase, find, insert}

-- The addresses that asked, and when the timer removes them.
pub record PitEntry : Type 0 where
  pub address : List ℕ
  pub due : ℕ

pub record Pit : Type 0 where
  pub table : Map ℕ PitEntry
  pub timeout : ℕ

abbrev pub new_pit : ℕ → Pit
new_pit timeout = record { table = []; timeout = timeout }

-- `std::list::sort` of addresses.
unfoldable pub insert_sorted : ℕ → List ℕ → List ℕ
insert_sorted a [] = a ∷ []
insert_sorted a (b ∷ bs) = if leb a b then a ∷ b ∷ bs else b ∷ insert_sorted a bs

unfoldable pub sort : List ℕ → List ℕ
unfolding insert_sorted
sort [] = []
sort (a ∷ xs) = insert_sorted a (sort xs)

-- `std::list::unique`: of equal neighbours the first stays.
unfoldable pub unique_from : ℕ → List ℕ → List ℕ
unique_from a [] = []
unique_from a (b ∷ bs) =
    let kept = unique_from b bs in if a == b then unique_from a bs else b ∷ kept

abbrev pub unique : List ℕ → List ℕ
unique [] = []
unique (a ∷ xs) = a ∷ unique_from a xs

-- `AddEntry`, and whether the entry is new.
unfoldable pub add_pit_entry : ℕ → ℕ → ℕ → Pit → Pit × Bool
unfolding sort unique_from
add_pit_entry now name address t = elim (find name t.table) [
  | none ↦ (
    record t {
      table = insert name (record { address = address ∷ []; due = now + t.timeout }) t.table;
    },
    true,
  )
  | some e ↦ (
    record t {
      table =
          insert name (record e { address = unique (sort (e.address ++ address ∷ [])) }) t.table;
    },
    false,
  )
]

-- `RemoveEntry`, which also stands for the expiry of the timer, and `RemoveEntryByI` of what `find` gives.
unfoldable pub remove_pit_entry : ℕ → Pit → Pit × Bool
remove_pit_entry name t = elim (find name t.table) [
  | none ↦ (t, false)
  | some e ↦ (record t { table = erase name t.table }, true)
]

-- `GetEntry`
unfoldable pub get_pit_entry : ℕ → Pit → List ℕ
get_pit_entry name t = elim (find name t.table) [ none ↦ [] | some e ↦ e.address ]
