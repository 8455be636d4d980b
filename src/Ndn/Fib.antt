-- ===== src/Ndn/Fib.antt =====
-- model/ndn/fib.h and .cc, class Fib: where to ask for a name. A name is a pointer.
pub mod Hops
use aqua_sim_ng.Address.{address_key}
use aqua_sim_ng.Prelude.{
  Bool, List, [], false, if◌then◌else◌, length, ltb, none, some, true, ℕ, ◌++◌, ◌==◌, ◌∷◌,
}
use aqua_sim_ng.Prelude.Map.{Map, erase, find, insert}

pub data ForwardStrategy : Type 0 where
  best_route : ForwardStrategy
  multicast : ForwardStrategy

-- An address and its cost. Costs are not negative.
abbrev pub FibEntry : Type 0
FibEntry = ℕ × ℕ

pub record Fib : Type 0 where
  pub table : Map ℕ (List FibEntry)
  pub strategy : ForwardStrategy

abbrev pub new_fib : Fib
new_fib = record { table = []; strategy = multicast }

-- The loop of BEST_ROUTE.
unfoldable pub best_from : FibEntry → List FibEntry → FibEntry
best_from best [] = best
best_from best (e ∷ es) = best_from (if ltb best.1 e.1 then e else best) es

-- The loop of MULTICAST.
unfoldable pub hops : List FibEntry → List ℕ
hops [] = []
hops (e ∷ es) = e.0 ∷ hops es

-- `InterestRecv`. `front` of a list without elements, which is undefined, gives no address.
unfoldable pub interest_recv : ℕ → Fib → List ℕ
unfolding best_from hops
interest_recv name t = elim (find name t.table) [
  | none ↦ []
  | some es ↦ elim t.strategy [
    | best_route ↦ elim es [ [] ↦ [] | e ∷ rest ↦ (best_from e (e ∷ rest)).0 ∷ [] ]
    | multicast ↦ hops es
  ]
]

-- `AddEntry`
unfoldable pub add_fib_entry : ℕ → ℕ → ℕ → Fib → Fib
add_fib_entry name address cost t = elim (find name t.table) [
  | none ↦ record t { table = insert name ((address, cost) ∷ []) t.table }
  | some es ↦ record t { table = insert name (es ++ (address, cost) ∷ []) t.table }
]

-- The loop of `RemoveEntry`.
unfoldable pub erase_first : ℕ → List FibEntry → List FibEntry × Bool
erase_first address [] = ([], false)
erase_first address (e ∷ es) =
    let (rest, found) = erase_first address es in
    if e.0 == address then (es, true) else (e ∷ rest, found)

-- `RemoveEntry`: a name's only address goes whichever it is.
unfoldable pub remove_fib_entry : ℕ → ℕ → Fib → Fib × Bool
unfolding erase_first
remove_fib_entry name address t = elim (find name t.table) [
  | none ↦ (t, false)
  | some es ↦
      let (rest, found) = erase_first address es in
      if ltb 1 (length es)
      then (if found then (record t { table = insert name rest t.table }, true) else (t, false))
      else (record t { table = erase name t.table }, true)
]

-- `SetForwardStrategy`
unfoldable pub set_forward_strategy : ForwardStrategy → Fib → Fib
set_forward_strategy s t = record t { strategy = s }
