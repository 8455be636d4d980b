-- ===== src/Ndn/Fib/Hops.antt =====
-- Which addresses a name's entry answers with.
use mathlib.Core.List.{append-nil, append_assoc}
use aqua_sim_ng.Address.{address_key}
use aqua_sim_ng.Ndn.Fib.{
  Fib, FibEntry, add_fib_entry, best_from, best_route, hops, interest_recv, new_fib,
  set_forward_strategy,
}
use aqua_sim_ng.Prelude.{
  ==_iff, All, Bool-cases, List, Option-cases, [], arith, if◌then◌else◌, inl, inr, ltb, none, refl,
  some, subst, sym, ℕ, ◌++◌, ◌==◌, ◌∷◌, ◌≡◌, ◌≤◌, ◌⊎◌,
}
use aqua_sim_ng.Prelude.Map.{find, find-insert}

-- An entry that a call of AddEntry adds: the name, the address and the cost.
abbrev pub Route : Type 0
Route = ℕ × ℕ × ℕ

unfoldable pub add_routes : List Route → Fib → Fib
add_routes [] t = t
add_routes ((name, address, cost) ∷ rs) t = add_routes rs (add_fib_entry name address cost t)

-- The addresses and costs of a name, in the order of the calls.
unfoldable pub routes_of : ℕ → List Route → List FibEntry
routes_of name [] = []
routes_of name ((k, address, cost) ∷ rs) =
    let later = routes_of name rs in if name == k then (address, cost) ∷ later else later

-- The entry of a name, empty where there is none.
abbrev entry_of : ℕ → Fib → List FibEntry
entry_of name t = elim (find name t.table) [ none ↦ [] | some es ↦ es ]

entry-add_fib_entry :
    (name k address cost : ℕ) (t : Fib)
    → entry_of name (add_fib_entry k address cost t)
      ≡ (if name == k then entry_of k t ++ (address, cost) ∷ [] else entry_of name t)
unfolding add_fib_entry
entry-add_fib_entry name k address cost t = elim (Option-cases (find k t.table)) [
  | inl e ↦
      ground
        (arith, e, ==_iff name k, ==_iff k name, find-insert k name ((address, cost) ∷ []) t.table)
  | inr (es, e) ↦ ground (
    arith,
    e,
    ==_iff name k,
    ==_iff k name,
    find-insert k name (es ++ (address, cost) ∷ []) t.table,
  )
]

entry-add_routes :
    (name : ℕ) (rs : List Route) (t : Fib)
    → entry_of name (add_routes rs t) ≡ entry_of name t ++ routes_of name rs
unfolding add_routes routes_of
entry-add_routes name [] t = sym (append-nil (entry_of name t))
entry-add_routes name ((k, address, cost) ∷ rs) t = ground (
  arith,
  ==_iff name k,
  entry-add_routes name rs (add_fib_entry k address cost t),
  entry-add_fib_entry name k address cost t,
  append_assoc (entry_of k t) ((address, cost) ∷ []) (routes_of name rs),
)

strategy-add_routes : (rs : List Route) (t : Fib) → (add_routes rs t).strategy ≡ t.strategy
unfolding add_routes add_fib_entry
strategy-add_routes [] t = refl
strategy-add_routes ((k, address, cost) ∷ rs) t =
    ground (
      arith,
      strategy-add_routes rs (add_fib_entry k address cost t),
      Option-cases (find k t.table),
    )

-- One of the entries is that one.
abbrev pub Among : FibEntry → List FibEntry → Type 0
Among x [] = ⊥
Among x (e ∷ es) = (x ≡ e) ⊎ Among x es

-- What the loop gives when it starts with `b`.
abbrev Highest : FibEntry → List FibEntry → FibEntry → Type 0
Highest b es r = ((r ≡ b) ⊎ Among r es) × (b.1 ≤ r.1) × All (λ e. e.1 ≤ r.1) es

best_from-Highest : (b : FibEntry) (es : List FibEntry) → Highest b es (best_from b es)
unfolding best_from
best_from-Highest b [] = (inl refl, omega arith, tt)
best_from-Highest b (e ∷ es) = elim (Bool-cases (ltb b.1 e.1)) [
  | inl h ↦
      let (among, above, all) = best_from-Highest e es in
      let chosen : e ≡ (if ltb b.1 e.1 then e else b) = ground (arith, h) in
      subst (λ c. Highest b (e ∷ es) (best_from c es)) chosen
        (inr among, ground (arith, above, h), (above, all))
  | inr h ↦
      let (among, above, all) = best_from-Highest b es in
      let chosen : b ≡ (if ltb b.1 e.1 then e else b) = ground (arith, h) in
      subst (λ c. Highest b (e ∷ es) (best_from c es)) chosen
        (elim among [ inl m ↦ inl m | inr m ↦ inr (inr m) ], above, (ground (arith, above, h), all))
]

Among-head :
    (b : FibEntry) (es : List FibEntry)
    → (best_from b (b ∷ es) ≡ b) ⊎ Among (best_from b (b ∷ es)) (b ∷ es)
    → Among (best_from b (b ∷ es)) (b ∷ es)
Among-head b es (inl h) = inl h
Among-head b es (inr h) = h

-- After any calls of AddEntry on a new table that is set to BEST_ROUTE, a name with entries is answered
-- with one address: that of an entry of the name, and no entry of the name has a higher cost.
pub interest_recv-best_route :
    (name : ℕ) (rs : List Route) (e : FibEntry) (es : List FibEntry)
    → routes_of name rs ≡ e ∷ es
    → (best : FibEntry) × (interest_recv name
          (add_routes rs (set_forward_strategy best_route new_fib))
        ≡ best.0 ∷ [])
      × Among best (e ∷ es)
      × All (λ x. x.1 ≤ best.1) (e ∷ es)
unfolding interest_recv set_forward_strategy find
interest_recv-best_route name rs e es h =
    let t = add_routes rs (set_forward_strategy best_route new_fib) in
    let entry = entry-add_routes name rs (set_forward_strategy best_route new_fib) in
    let strategy = strategy-add_routes rs (set_forward_strategy best_route new_fib) in
    let (among, _, all) = best_from-Highest e (e ∷ es) in
    (
      best_from e (e ∷ es),
      ground (arith, h, entry, strategy, Option-cases (find name t.table)),
      Among-head e es among,
      all,
    )

-- After any calls of AddEntry on a new table, which is set to MULTICAST, a name is answered with the
-- addresses of its entries, in the order of the calls.
pub interest_recv-multicast :
    (name : ℕ) (rs : List Route)
    → interest_recv name (add_routes rs new_fib) ≡ hops (routes_of name rs)
unfolding interest_recv find hops
interest_recv-multicast name rs = ground (
  arith,
  entry-add_routes name rs new_fib,
  strategy-add_routes rs new_fib,
  Option-cases (find name (add_routes rs new_fib).table),
)
