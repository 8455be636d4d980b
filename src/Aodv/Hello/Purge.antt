-- ===== src/Aodv/Hello/Purge.antt =====
-- PurgeDeadNeighbors.
use aqua_sim_ng.Address.{address_key}
use aqua_sim_ng.Aodv.Hello.{
  drop_neighbors, invalidate_routes_via_neighbor, lost_neighbors, purge_dead_neighbors,
}
use aqua_sim_ng.Aodv.Hello.Break.{
  invalidate_routes-routes, uses, uses-invalidate_routes, uses-invalidate_routes_mono,
}
use aqua_sim_ng.Aodv.State.{Env, Node}
use aqua_sim_ng.Prelude.{
  List, [], ap, arith, false, none, some, subst, sym, true, ℕ, ℕ_discrete, ◌-◌, ◌<◌, ◌∙◌, ◌∷◌, ◌≡◌,
}
use aqua_sim_ng.Prelude.KeySet.{contains}
use aqua_sim_ng.Prelude.Map.{Map, erase, find, find-erase, find-erase_self}

module _ (env : Env) where
  -- One round of the loop over the lost neighbours.
  drop_neighbor : ℕ → Node → Node
  drop_neighbor a n =
      invalidate_routes_via_neighbor env a (record n { neighbors = erase a n.neighbors })

  drop_neighbor_gone :
      (a b : ℕ) (n : Node) → find b n.neighbors ≡ none → find b (drop_neighbor a n).neighbors ≡ none
  unfolding drop_neighbor
  drop_neighbor_gone a b n h =
      rw ((invalidate_routes-routes env a (record n { neighbors = erase a n.neighbors })).neighbors)
        (ground (arith, find-erase a b n.neighbors))

  drop_neighbors_mono :
      (a : ℕ) (lost : List ℕ) (n : Node)
      → find a n.neighbors ≡ none
      → ((k : ℕ) → uses a k n.route_table ≡ false)
      → let m = drop_neighbors env lost n in
        (find a m.neighbors ≡ none) × ((k : ℕ) → uses a k m.route_table ≡ false)
  unfolding drop_neighbors drop_neighbor
  drop_neighbors_mono a [] n h u = (h, u)
  drop_neighbors_mono a (b ∷ lost) n h u =
      drop_neighbors_mono a lost (drop_neighbor b n) (drop_neighbor_gone b a n h) (λ k.
        uses-invalidate_routes_mono env a b k (record n { neighbors = erase b n.neighbors }) (u k))

  drop_neighbors_gone :
      (a : ℕ) (lost : List ℕ) (n : Node)
      → contains a lost ≡ true
      → let m = drop_neighbors env lost n in
        (find a m.neighbors ≡ none) × ((k : ℕ) → uses a k m.route_table ≡ false)
  unfolding drop_neighbors contains drop_neighbor
  drop_neighbors_gone a [] n h = cc
  drop_neighbors_gone a (b ∷ lost) n h = elim (ℕ_discrete b a) [
    | yes e ↦
        let n' = record n { neighbors = erase a n.neighbors } in
        subst
          (λ j.
            (find a (drop_neighbors env lost (drop_neighbor j n)).neighbors ≡ none)
            × ((k : ℕ)
                → uses a k (drop_neighbors env lost (drop_neighbor j n)).route_table ≡ false))
          (sym e)
          (drop_neighbors_mono a lost (drop_neighbor a n)
            ((ap (find a) (invalidate_routes-routes env a n').neighbors)
              ∙ find-erase_self a n.neighbors)
            (λ k. uses-invalidate_routes env a k n'))
    | no ne ↦ drop_neighbors_gone a lost (drop_neighbor b n) (ground arith)
  ]

  contains-lost :
      (a allowed heard : ℕ) (m : Map ℕ ℕ)
      → find a m ≡ some heard
      → allowed < env.now - heard
      → contains a (lost_neighbors env.now allowed m) ≡ true
  unfolding lost_neighbors find contains
  contains-lost a allowed heard [] h late = cc
  contains-lost a allowed heard ((b, t) ∷ m) h late =
      ground (arith, contains-lost a allowed heard m)

  -- With HELLO packets enabled, PurgeDeadNeighbors drops every neighbour that was last heard of
  -- longer ago than allowed, and no valid route through it is left in the table.
  pub purge_dead_neighbors_gone :
      (a heard : ℕ) (n : Node)
      → n.enable_hello ≡ true
      → find a n.neighbors ≡ some heard
      → env.scale_seconds n.hello_interval n.allowed_hello_loss < env.now - heard
      → let m = purge_dead_neighbors env n in
        (find a m.neighbors ≡ none) × ((d : ℕ) → uses a d m.route_table ≡ false)
  unfolding purge_dead_neighbors
  purge_dead_neighbors_gone a heard n on found late =
      simp (on, purge_dead_neighbors)
        (drop_neighbors_gone a _ n (contains-lost a _ heard n.neighbors found late))
