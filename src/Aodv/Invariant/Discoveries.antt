-- ===== src/Aodv/Invariant/Discoveries.antt =====
-- Route discovery.
use aqua_sim_ng.Address.{address_key}
use aqua_sim_ng.Aodv.Data.{send_queued_packets}
use aqua_sim_ng.Aodv.Discovery.{
  end_discovery, next_hop_limit, route_request_timeout, send_rreq, start_route_discovery,
  touch_attempts,
}
use aqua_sim_ng.Aodv.Discovery.HopLimit.{net_bound-le, next_hop_limit-le}
use aqua_sim_ng.Aodv.Header.{set_unknown_dest_seq_no}
use aqua_sim_ng.Aodv.Invariant.{Inv, IsAttempt, IsSent, with_attempts, with_effect, with_limits}
use aqua_sim_ng.Aodv.Invariant.Sends.{drop_queued_packets-Inv, send_queued_packets-Inv}
use aqua_sim_ng.Aodv.State.{Config, Env, Node, inc32}
use aqua_sim_ng.Aodv.Table.{has_valid_route}
use aqua_sim_ng.Prelude.{
  Bool-cases, Option-cases, ap, arith, get_or, inl, inr, ltb, not, refl, true, ℕ, ◌==◌, ◌||◌, ◌≡◌,
  ◌≤◌,
}
use aqua_sim_ng.Prelude.Cases.{if_both}
use aqua_sim_ng.Prelude.KeySet.{contains, include}
use aqua_sim_ng.Prelude.Map.{All-erase, All-find, All-insert, find, find-insert_self, insert}

module _ (o : Node) where
  -- The number of requests that were made, as `operator[]` reads it.
  rreq_attempts-IsAttempt :
      (d : ℕ) (n : Node) → Inv o n → IsAttempt o (d, get_or (find d n.rreq_attempts) 0)
  rreq_attempts-IsAttempt d n i = elim (Option-cases (find d n.rreq_attempts)) [
    | inl e ↦ rw e (inl (omega arith))
    | inr (a, e) ↦ rw e (All-find (IsAttempt o) d a n.rreq_attempts i.attempts_good e)
  ]

  next_hop_limit-bound : (d a : ℕ) (n : Node) → Inv o n → next_hop_limit d a n ≤ o.max_hop_count
  next_hop_limit-bound d a n i =
      omega (arith, next_hop_limit-le d a n, net_bound-le n, ap Config.max_hop_count i.config_same)

  -- SendRreq after fewer requests than are allowed.
  pub send_rreq-Inv :
      (env : Env) (d : ℕ) (n : Node)
      → IsAttempt o (d, inc32 (get_or (find d n.rreq_attempts) 0))
      → Inv o n
      → Inv o (send_rreq env d n)
  unfolding send_rreq IsSent set_unknown_dest_seq_no
  send_rreq-Inv env d n h i =
      let a = inc32 (get_or (find d n.rreq_attempts) 0) in
      let l = next_hop_limit d a n in
      let counted =
        with_attempts i _ (All-insert (IsAttempt o) d a n.rreq_attempts h i.attempts_good) in
      let limited = with_limits counted _ (
        All-insert (λ x. x.1 ≤ o.max_hop_count) d l n.rreq_hop_limits (next_hop_limit-bound d a n i)
          i.limits_good) in
      with_effect (with_effect limited _ (i.address_same, refl, ground arith)) _ tt

  pub start_route_discovery-Inv :
      (env : Env) (d : ℕ) (n : Node) → Inv o n → Inv o (start_route_discovery env d n)
  unfolding start_route_discovery
  start_route_discovery-Inv env d n i =
      let m = record n {
        active_discoveries = include d n.active_discoveries;
        rreq_attempts = insert d 0 n.rreq_attempts;
      } in
      send_rreq-Inv env d m (rw (find-insert_self d 0 n.rreq_attempts) (inl (omega arith))) (
        with_attempts i _
          (All-insert (IsAttempt o) d 0 n.rreq_attempts (inl (omega arith)) i.attempts_good))

  pub end_discovery-Inv : (d : ℕ) (n : Node) → Inv o n → Inv o (end_discovery d n)
  end_discovery-Inv d n i =
      with_limits (with_attempts i _ (All-erase (IsAttempt o) d n.rreq_attempts i.attempts_good)) _
        (All-erase (λ x. x.1 ≤ o.max_hop_count) d n.rreq_hop_limits i.limits_good)

  touch_attempts-Inv : (d : ℕ) (n : Node) → Inv o n → Inv o (touch_attempts d n)
  touch_attempts-Inv d n i =
      with_attempts i _ (
        All-insert (IsAttempt o) d _ n.rreq_attempts (rreq_attempts-IsAttempt d n i)
          i.attempts_good)

  -- A retry counts one more than before.
  retry-IsAttempt :
      (d attempt : ℕ) (n : Node)
      → Inv o n
      → (get_or (find d n.rreq_attempts) 0 == attempt) ≡ true
      → ltb attempt n.max_rreq_attempts ≡ true
      → IsAttempt o (d, inc32 (get_or (find d (touch_attempts d n).rreq_attempts) 0))
  retry-IsAttempt d attempt n i same fewer =
      rw find-insert_self (inr (ground (arith, ap Config.max_rreq_attempts i.config_same)))

  pub route_request_timeout-Inv :
      (env : Env) (d attempt : ℕ) (n : Node)
      → Inv o n
      → Inv o (route_request_timeout env d attempt n)
  unfolding route_request_timeout
  route_request_timeout-Inv env d attempt n i =
      let m = touch_attempts d n in
      let j = touch_attempts-Inv d n i in
      if_both (Inv o) (not (contains d n.active_discoveries) || has_valid_route env.now d n)
        (send_queued_packets env d n) _ (send_queued_packets-Inv o env d n i)
        (elim (Bool-cases (get_or (find d n.rreq_attempts) 0 == attempt)) [
          | inr e ↦ rw e (send_queued_packets-Inv o env d m j)
          | inl e ↦ rw e (elim (Bool-cases (ltb attempt n.max_rreq_attempts)) [
            | inl f ↦ rw f (send_rreq-Inv env d m (retry-IsAttempt d attempt n i e f) j)
            | inr f ↦
                rw f (drop_queued_packets-Inv o d (end_discovery d m) (end_discovery-Inv d m j))
          ])
        ])
