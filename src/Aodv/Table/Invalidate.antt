-- ===== src/Aodv/Table/Invalidate.antt =====
-- InvalidateRoute and ShouldAcceptRerr.
use aqua_sim_ng.Address.{address_key}
use aqua_sim_ng.Aodv.State.{Node, RouteEntry}
use aqua_sim_ng.Aodv.Table.{invalidate_route, invalidated, lookup_route, should_accept_rerr}
use aqua_sim_ng.Prelude.{
  Bool, Option-cases, [], arith, false, inl, inr, none, refl, some, true, ℕ, ◌↔◌, ◌≡◌, ◌≢◌,
}
use aqua_sim_ng.Prelude.Map.{find, find-insert_ne, find-insert_self, insert}

-- The node and the precursors, where there is an entry.
pub invalidate_route_found :
    (now d seq_no : ℕ) (valid_seq_no : Bool) (n : Node) (e : RouteEntry)
    → find d n.route_table ≡ some e
    → invalidate_route now d seq_no valid_seq_no n ≡ (
      record n { route_table = insert d (invalidated now seq_no valid_seq_no e) n.route_table },
      e.precursors,
    )
unfolding invalidate_route
invalidate_route_found now d seq_no valid_seq_no n e found = rw (found, invalidate_route)

pub invalidate_route_missing :
    (now d seq_no : ℕ) (valid_seq_no : Bool) (n : Node)
    → find d n.route_table ≡ none
    → invalidate_route now d seq_no valid_seq_no n ≡ (n, [])
unfolding invalidate_route
invalidate_route_missing now d seq_no valid_seq_no n missing = rw (missing, invalidate_route)

module _ (now d seq_no : ℕ) (valid_seq_no : Bool) (n : Node) where
  -- After InvalidateRoute no lookup of the destination gives a route, at any time, and every other
  -- entry is as it was.
  pub lookup_route-invalidate_route :
      let m = (invalidate_route now d seq_no valid_seq_no n).0 in
      ((t : ℕ) → lookup_route t d m ≡ none)
      × ((k : ℕ) → d ≢ k → find k m.route_table ≡ find k n.route_table)
  unfolding lookup_route invalidated
  lookup_route-invalidate_route = elim (Option-cases (find d n.route_table)) [
    | inl e ↦
        rw (invalidate_route_missing now d seq_no valid_seq_no n e)
          (λ t. rw (e, lookup_route), λ k h. refl)
    | inr (x, e) ↦ rw (invalidate_route_found now d seq_no valid_seq_no n x e) (
      λ t. rw (find-insert_self, lookup_route) (ground arith),
      λ k h. find-insert_ne d k _ n.route_table h,
    )
  ]

-- Exactly the errors that name the known sequence number or a newer one are accepted, and all
-- errors about an entry with no known number; then the entry is kept as invalid under the number of
-- the error.
pub should_accept_rerr_iff :
    (d seq_no : ℕ) (n : Node)
    → (should_accept_rerr d seq_no n ≡ true) ↔ (
        (e : RouteEntry) × (find d n.route_table ≡ some e)
        × ((now : ℕ)
            → invalidated now seq_no true e ≡ record e {
              valid = false;
              expire = now;
              dest_seq_no = seq_no;
              valid_seq_no = true;
            }))
unfolding should_accept_rerr invalidated
should_accept_rerr_iff d seq_no n = elim (Option-cases (find d n.route_table)) [
  | inl e ↦ (λ h. absurd (ground arith), λ h. absurd (ground arith))
  | inr (x, e) ↦ (λ h. (x, e, λ now. ground arith), λ h. ground (arith, h.2 0))
]
