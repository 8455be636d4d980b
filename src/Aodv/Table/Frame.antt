-- ===== src/Aodv/Table/Frame.antt =====
-- What the operations on the route table do to one entry, and what they leave alone.
use aqua_sim_ng.Address.{address_key}
use aqua_sim_ng.Aodv.State.{Node, RouteEntry}
use aqua_sim_ng.Aodv.State.Frame.{SameButRoutes}
use aqua_sim_ng.Aodv.Table.{
  add_precursor, invalidate_route, lookup_route, update_route, write_entry,
}
use aqua_sim_ng.Prelude.{Bool, Option, arith, get_or, none, refl, some, ℕ, ◌≡◌, ◌≢◌}
use aqua_sim_ng.Prelude.Map.{find, find-insert_ne, find-insert_self}

module _ (d : ℕ) where
  pub find-write_entry_self :
      (o : Option RouteEntry) (n : Node) (e : RouteEntry)
      → find d n.route_table ≡ some e
      → find d (write_entry d o n).route_table ≡ some (get_or o e)
  find-write_entry_self none n e found = found
  find-write_entry_self (some e') n e found = find-insert_self d e' n.route_table

  pub find-write_entry_ne :
      (k : ℕ) (o : Option RouteEntry) (n : Node)
      → d ≢ k
      → find k (write_entry d o n).route_table ≡ find k n.route_table
  find-write_entry_ne k none n h = refl
  find-write_entry_ne k (some e') n h = find-insert_ne d k e' n.route_table h

pub lookup_route_same :
    (t d : ℕ) (n m : Node) → m.route_table ≡ n.route_table → lookup_route t d m ≡ lookup_route t d n
unfolding lookup_route
lookup_route_same t d n m same = rw (same, lookup_route) refl

module _ (now d : ℕ) where
  pub invalidate_route-routes :
      (seq_no : ℕ) (valid_seq_no : Bool) (n : Node)
      → SameButRoutes n (invalidate_route now d seq_no valid_seq_no n).0
  unfolding invalidate_route
  invalidate_route-routes seq_no valid_seq_no n = ground arith

  pub update_route-routes :
      (next_hop hop_count seq_no : ℕ) (valid_seq_no : Bool) (lifetime : ℕ) (n : Node)
      → SameButRoutes n (update_route now d next_hop hop_count seq_no valid_seq_no lifetime n)
  unfolding update_route
  update_route-routes next_hop hop_count seq_no valid_seq_no lifetime n = ground arith

pub add_precursor-routes : (d p : ℕ) (n : Node) → SameButRoutes n (add_precursor d p n)
unfolding add_precursor
add_precursor-routes d p n = ground arith
