-- ===== src/Aodv/Invariant/Routes.antt =====
-- The operations on the route table.
use aqua_sim_ng.Address.{address_key, broadcast}
use aqua_sim_ng.Aodv.Invariant.{Inv, IsTable, with_table}
use aqua_sim_ng.Aodv.State.{Node, RouteEntry}
use aqua_sim_ng.Aodv.Table.{add_precursor, invalidate_route, update_route, write_entry}
use aqua_sim_ng.Prelude.{
  Bool, Bool-cases, Option, ap, arith, inl, inr, none, some, ℕ, ◌==◌, ◌||◌, ◌∙◌, ◌≡◌, ◌≢◌,
}
use aqua_sim_ng.Prelude.Cases.{if_both, option_both}
use aqua_sim_ng.Prelude.KeySet.{KeySet}
use aqua_sim_ng.Prelude.Map.{Map, find, find-insert_ne, insert}

module _ (o : Node) where
  -- An entry for another destination, or a new one for a destination that has one.
  IsTable-insert :
      (d : ℕ) (e : RouteEntry) (t : Map ℕ RouteEntry)
      → d ≢ o.address
      → d ≢ broadcast
      → IsTable o t
      → IsTable o (insert d e t)
  IsTable-insert d e t a b h =
      (find-insert_ne d o.address e t a ∙ h.0, find-insert_ne d broadcast e t b ∙ h.1)

  IsTable-replace :
      (d : ℕ) (e e' : RouteEntry) (t : Map ℕ RouteEntry)
      → find d t ≡ some e
      → IsTable o t
      → IsTable o (insert d e' t)
  IsTable-replace d e e' t found h =
      IsTable-insert d e' t (λ same. absurd (ground (arith, ap (λ x. find x t) same)))
        (λ same. absurd (ground (arith, ap (λ x. find x t) same))) h

  write_entry-Inv :
      (d : ℕ) (x : Option RouteEntry) (n : Node)
      → d ≢ o.address
      → d ≢ broadcast
      → Inv o n
      → Inv o (write_entry d x n)
  write_entry-Inv d none n a b i = i
  write_entry-Inv d (some e) n a b i =
      with_table i _ (IsTable-insert d e n.route_table a b i.table_good)

  pub update_route-Inv :
      (now d next_hop hop_count seq_no : ℕ) (valid_seq_no : Bool) (lifetime : ℕ) (n : Node)
      → Inv o n
      → Inv o (update_route now d next_hop hop_count seq_no valid_seq_no lifetime n)
  unfolding update_route
  update_route-Inv now d next_hop hop_count seq_no valid_seq_no lifetime n i =
      elim (Bool-cases (d == broadcast || d == n.address)) [
        | inl e ↦ rw e i
        | inr e ↦ rw e (write_entry-Inv d _ n (ground (arith, i.address_same)) (ground arith) i)
      ]

  pub add_precursor-Inv : (d p : ℕ) (n : Node) → Inv o n → Inv o (add_precursor d p n)
  unfolding add_precursor
  add_precursor-Inv d p n i = if_both (Inv o) _ _ _ i (
      option_both (Inv o) (find d n.route_table) _ _ (λ _. i)
        (λ e h. with_table i _ (IsTable-replace d e _ n.route_table h i.table_good)))

  pub invalidate_route-Inv :
      (now d s : ℕ) (v : Bool) (n : Node) → Inv o n → Inv o (invalidate_route now d s v n).0
  unfolding invalidate_route
  invalidate_route-Inv now d s v n i =
      option_both (λ (r : Node × KeySet ℕ). Inv o r.0) (find d n.route_table) _ _ (λ _. i)
        (λ e h. with_table i _ (IsTable-replace d e _ n.route_table h i.table_good))
