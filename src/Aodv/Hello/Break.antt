-- ===== src/Aodv/Hello/Break.antt =====
-- InvalidateRoutesViaNeighbor, route by route.
use aqua_sim_ng.Address.{address_key}
use aqua_sim_ng.Aodv.Hello.{
  affected_destinations, break_route, break_routes, invalidate_routes_via_neighbor,
}
use aqua_sim_ng.Aodv.Rerr.{forward_rerr}
use aqua_sim_ng.Aodv.Rerr.Targets.{forward_rerr-SameState}
use aqua_sim_ng.Aodv.State.{Env, Node, RouteEntry, inc32}
use aqua_sim_ng.Aodv.State.Frame.{
  SameButRoutes, SameButRoutes-trans, SameState-refl, SameState-routes,
}
use aqua_sim_ng.Aodv.Table.{invalidate_route, invalidated}
use aqua_sim_ng.Aodv.Table.Frame.{invalidate_route-routes}
use aqua_sim_ng.Aodv.Table.Invalidate.{
  invalidate_route_found, invalidate_route_missing, lookup_route-invalidate_route,
}
use aqua_sim_ng.Prelude.{
  Bool, Bool-cases, List, Option, Option-cases, [], ap, arith, false, if◌then◌else◌, inl, inr, none,
  some, subst, true, ℕ, ℕ_discrete, ◌&&◌, ◌==◌, ◌∙◌, ◌∷◌, ◌≡◌, ◌≢◌, ◌⊎◌,
}
use aqua_sim_ng.Prelude.KeySet.{KeySet, contains}
use aqua_sim_ng.Prelude.Map.{Map, find, find-insert_self}

-- Whether an entry is a valid route through a neighbour.
abbrev pub via : ℕ → Option RouteEntry → Bool
via neighbor none = false
via neighbor (some e) = e.valid && e.next_hop == neighbor

-- Whether the table has a valid route to `d` through a neighbour.
abbrev pub uses : ℕ → ℕ → Map ℕ RouteEntry → Bool
uses neighbor d table = via neighbor (find d table)

uses-invalidate_route :
    (now a d seq_no : ℕ) (n : Node)
    → uses a d (invalidate_route now d seq_no true n).0.route_table ≡ false
unfolding invalidated
uses-invalidate_route now a d seq_no n = elim (Option-cases (find d n.route_table)) [
  | inl e ↦ rw (invalidate_route_missing now d seq_no true n e) (rw e)
  | inr (x, e) ↦
      rw (invalidate_route_found now d seq_no true n x e) (rw find-insert_self (ground arith))
]

module _ (env : Env) where
  pub break_route_cases :
      (d : ℕ) (n : Node)
      → ((break_route env d n ≡ n) × ((a : ℕ) → uses a d n.route_table ≡ false))
        ⊎ ((s : ℕ) × (ps : KeySet ℕ) × (break_route env d n
              ≡ forward_rerr env d s ps (invalidate_route env.now d s true n).0))
  unfolding break_route
  break_route_cases d n = elim (Option-cases (find d n.route_table)) [
    | inl e ↦ inl (rw (e, break_route), λ a. rw e)
    | inr (x, e) ↦ elim (Bool-cases x.valid) [
      | inl v ↦
          let s = if x.valid_seq_no then inc32 x.dest_seq_no else n.sequence_number in
          inr (s, (invalidate_route env.now d s true n).1, rw (e, break_route) (rw v))
      | inr v ↦ inl (rw (e, break_route) (rw v), λ a. rw e (rw v))
    ]
  ]

  break_route-routes : (d : ℕ) (n : Node) → SameButRoutes n (break_route env d n)
  break_route-routes d n = elim (break_route_cases d n) [
    | inl (same, _) ↦ rw same (SameState-routes (SameState-refl n))
    | inr (s, ps, e) ↦ rw e (
        SameButRoutes-trans (invalidate_route-routes env.now d s true n) (
          SameState-routes
            (forward_rerr-SameState env d s ps (invalidate_route env.now d s true n).0)))
  ]

  uses-break_route : (a d : ℕ) (n : Node) → uses a d (break_route env d n).route_table ≡ false
  uses-break_route a d n = elim (break_route_cases d n) [
    | inl (same, h) ↦ rw same (h a)
    | inr (s, ps, e) ↦ rw e (
        ap (uses a d)
          (forward_rerr-SameState env d s ps (invalidate_route env.now d s true n).0).route_table
        ∙ uses-invalidate_route env.now a d s n)
  ]

  find-break_route :
      (d k : ℕ) (n : Node) → d ≢ k → find k (break_route env d n).route_table ≡ find k n.route_table
  find-break_route d k n h = elim (break_route_cases d n) [
    | inl (same, _) ↦ rw same
    | inr (s, ps, e) ↦ rw e (
        ap (find k)
          (forward_rerr-SameState env d s ps (invalidate_route env.now d s true n).0).route_table
        ∙ (lookup_route-invalidate_route env.now d s true n).1 k h)
  ]

  -- What is broken stays broken.
  uses-break_route_mono :
      (a d k : ℕ) (n : Node)
      → uses a k n.route_table ≡ false
      → uses a k (break_route env d n).route_table ≡ false
  uses-break_route_mono a d k n h = elim (ℕ_discrete d k) [
    | yes e ↦
        subst (λ j. uses a j (break_route env d n).route_table ≡ false) e (uses-break_route a d n)
    | no ne ↦ ap (via a) (find-break_route d k n ne) ∙ h
  ]

  pub break_routes-routes : (ds : List ℕ) (n : Node) → SameButRoutes n (break_routes env ds n)
  unfolding break_routes
  break_routes-routes [] n = SameState-routes (SameState-refl n)
  break_routes-routes (d ∷ ds) n =
      SameButRoutes-trans (break_route-routes d n) (break_routes-routes ds (break_route env d n))

  uses-break_routes_mono :
      (a k : ℕ) (ds : List ℕ) (n : Node)
      → uses a k n.route_table ≡ false
      → uses a k (break_routes env ds n).route_table ≡ false
  unfolding break_routes
  uses-break_routes_mono a k [] n h = h
  uses-break_routes_mono a k (d ∷ ds) n h =
      uses-break_routes_mono a k ds _ (uses-break_route_mono a d k n h)

  uses-break_routes :
      (a k : ℕ) (ds : List ℕ) (n : Node)
      → contains k ds ≡ true
      → uses a k (break_routes env ds n).route_table ≡ false
  unfolding break_routes contains
  uses-break_routes a k [] n h = cc
  uses-break_routes a k (d ∷ ds) n h = elim (ℕ_discrete d k) [
    | yes e ↦
        uses-break_routes_mono a k ds _ (
          subst (λ j. uses a j (break_route env d n).route_table ≡ false) e
            (uses-break_route a d n))
    | no ne ↦ uses-break_routes a k ds _ (ground arith)
  ]

  -- The table's valid routes through a neighbour are all affected.
  contains-affected :
      (a k : ℕ) (table : Map ℕ RouteEntry)
      → uses a k table ≡ true
      → contains k (affected_destinations a table) ≡ true
  unfolding affected_destinations find contains
  contains-affected a k [] h = ground arith
  contains-affected a k ((d, e) ∷ t) h = ground (arith, contains-affected a k t)

  pub uses-invalidate_routes :
      (a k : ℕ) (n : Node) → uses a k (invalidate_routes_via_neighbor env a n).route_table ≡ false
  unfolding invalidate_routes_via_neighbor
  uses-invalidate_routes a k n = elim (Bool-cases (uses a k n.route_table)) [
    | inl h ↦ uses-break_routes a k _ n (contains-affected a k n.route_table h)
    | inr h ↦ uses-break_routes_mono a k _ n h
  ]

  pub invalidate_routes-routes :
      (a : ℕ) (n : Node) → SameButRoutes n (invalidate_routes_via_neighbor env a n)
  unfolding invalidate_routes_via_neighbor
  invalidate_routes-routes a n = break_routes-routes (affected_destinations a n.route_table) n

  pub uses-invalidate_routes_mono :
      (a b k : ℕ) (n : Node)
      → uses a k n.route_table ≡ false
      → uses a k (invalidate_routes_via_neighbor env b n).route_table ≡ false
  unfolding invalidate_routes_via_neighbor
  uses-invalidate_routes_mono a b k n h =
      uses-break_routes_mono a k (affected_destinations b n.route_table) n h
