-- ===== src/Aodv/Data/Report.antt =====
-- The branch of ForwardDataPacket with no usable route.
use aqua_sim_ng.Address.{address_key}
use aqua_sim_ng.Aodv.Data.{report_stale_route}
use aqua_sim_ng.Aodv.Rerr.{forward_rerr}
use aqua_sim_ng.Aodv.Rerr.Targets.{forward_rerr-SameState}
use aqua_sim_ng.Aodv.State.{Env, Node}
use aqua_sim_ng.Aodv.State.Frame.{
  SameButRoutes, SameButRoutes-trans, SameState-refl, SameState-routes,
}
use aqua_sim_ng.Aodv.Table.{invalidate_route}
use aqua_sim_ng.Aodv.Table.Frame.{invalidate_route-routes}
use aqua_sim_ng.Prelude.{Bool, Bool-cases, Option-cases, inl, inr, ℕ, ◌≡◌, ◌⊎◌}
use aqua_sim_ng.Prelude.KeySet.{KeySet}
use aqua_sim_ng.Prelude.Map.{find}

module _ (env : Env) (d : ℕ) (n : Node) where
  report_cases :
      (report_stale_route env d n ≡ n)
      ⊎ ((s : ℕ) × (v : Bool) × (ps : KeySet ℕ) × (report_stale_route env d n
            ≡ forward_rerr env d s ps (invalidate_route env.now d s v n).0))
  unfolding report_stale_route
  report_cases = elim (Option-cases (find d n.route_table)) [
    | inl e ↦ inl (rw (e, report_stale_route))
    | inr (x, e) ↦ elim (Bool-cases x.valid) [
      | inl v ↦ inr (
        x.dest_seq_no,
        x.valid_seq_no,
        (invalidate_route env.now d x.dest_seq_no x.valid_seq_no n).1,
        rw (e, report_stale_route) (rw v),
      )
      | inr v ↦ inl (rw (e, report_stale_route) (rw v))
    ]
  ]

  -- Only the route and the effects change.
  pub report-routes : SameButRoutes n (report_stale_route env d n)
  report-routes = elim report_cases [
    | inl same ↦ rw same (SameState-routes (SameState-refl n))
    | inr (s, v, ps, e) ↦ rw e (
        SameButRoutes-trans (invalidate_route-routes env.now d s v n) (
          SameState-routes
            (forward_rerr-SameState env d s ps (invalidate_route env.now d s v n).0)))
  ]

  -- What holds of a node and survives an invalidation and the errors survives the report.
  pub report_induction {ℓ} :
      (P : Node → Type ℓ)
      → P n
      → ((s : ℕ) (v : Bool) (ps : KeySet ℕ)
          → P (forward_rerr env d s ps (invalidate_route env.now d s v n).0))
      → P (report_stale_route env d n)
  report_induction P same errors = elim report_cases [
    | inl e ↦ rw e same
    | inr (s, v, ps, e) ↦ rw e (errors s v ps)
  ]
