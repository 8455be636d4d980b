-- ===== src/Aodv/Invariant/Neighbors.antt =====
-- Neighbours and their loss.
use aqua_sim_ng.Address.{address_key, broadcast}
use aqua_sim_ng.Aodv.Hello.{
  affected_destinations, break_route, break_routes, drop_neighbors, invalidate_routes_via_neighbor,
  maybe_start_hello, purge_dead_neighbors, recv_hello, send_hello, update_neighbor,
}
use aqua_sim_ng.Aodv.Hello.Break.{break_route_cases}
use aqua_sim_ng.Aodv.Invariant.{Inv, Inv2, IsSent, with_effect}
use aqua_sim_ng.Aodv.Invariant.Routes.{invalidate_route-Inv}
use aqua_sim_ng.Aodv.Invariant.Sends.{forward_rerr-Inv}
use aqua_sim_ng.Aodv.State.{Env, Node}
use aqua_sim_ng.Prelude.{Bool-cases, List, [], arith, inl, inr, not, refl, true, ℕ, ◌==◌, ◌||◌, ◌∷◌}
use aqua_sim_ng.Prelude.Cases.{if_both}
use aqua_sim_ng.Prelude.Map.{erase}

module _ (o : Node) where
  pub maybe_start_hello-Inv : (env : Env) (n : Node) → Inv o n → Inv o (maybe_start_hello env n)
  unfolding maybe_start_hello IsSent
  maybe_start_hello-Inv env n i = elim (Bool-cases (not n.enable_hello || n.hello_started)) [
    | inl e ↦ rw e i
    | inr e ↦ rw e (with_effect i _ tt)
  ]

  pub update_neighbor-Inv : (now a : ℕ) (n : Node) → Inv o n → Inv o (update_neighbor now a n)
  unfolding update_neighbor
  update_neighbor-Inv now a n i =
      if_both (Inv o) (not n.enable_hello || (a == n.address || a == broadcast)) n _ i i

  break_route-Inv : (env : Env) (d : ℕ) (n : Node) → Inv o n → Inv o (break_route env d n)
  break_route-Inv env d n i = elim (break_route_cases env d n) [
    | inl (e, _) ↦ rw e i
    | inr (s, ps, e) ↦
        rw e (forward_rerr-Inv o env d s ps _ (invalidate_route-Inv o env.now d s true n i))
  ]

  break_routes-Inv : (env : Env) (ds : List ℕ) (n : Node) → Inv o n → Inv o (break_routes env ds n)
  unfolding break_routes
  break_routes-Inv env [] n i = i
  break_routes-Inv env (d ∷ ds) n i =
      break_routes-Inv env ds (break_route env d n) (break_route-Inv env d n i)

  drop_neighbors-Inv :
      (env : Env) (ns : List ℕ) (n : Node) → Inv o n → Inv o (drop_neighbors env ns n)
  unfolding drop_neighbors invalidate_routes_via_neighbor
  drop_neighbors-Inv env [] n i = i
  drop_neighbors-Inv env (a ∷ as') n i =
      let m = record n { neighbors = erase a n.neighbors } in
      drop_neighbors-Inv env as' (invalidate_routes_via_neighbor env a m)
        (break_routes-Inv env (affected_destinations a n.route_table) m i)

  purge_dead_neighbors-Inv : (env : Env) (n : Node) → Inv o n → Inv o (purge_dead_neighbors env n)
  unfolding purge_dead_neighbors
  purge_dead_neighbors-Inv env n i =
      if_both (Inv o) (not n.enable_hello) n (drop_neighbors env _ n) i
        (drop_neighbors-Inv env _ n i)

  pub send_hello-Inv : (env : Env) (n : Node) → Inv o n → Inv o (send_hello env n)
  unfolding send_hello IsSent
  send_hello-Inv env n i =
      let j = purge_dead_neighbors-Inv env n i in
      elim (Bool-cases (not n.enable_hello)) [
        | inl e ↦ rw e i
        | inr e ↦ rw e (with_effect (with_effect j _ (j.address_same, refl, ground arith)) _ tt)
      ]

  pub recv_hello-Inv : (env : Env) (a : ℕ) (n : Node) → Inv o n → Inv2 o (recv_hello env a n)
  unfolding recv_hello
  recv_hello-Inv env a n i = update_neighbor-Inv env.now a n i
