-- ===== src/Aodv/Discovery/Ends.antt =====
-- A discovery from its start.
use aqua_sim_ng.Address.{address_key}
use aqua_sim_ng.Aodv.Discovery.{start_route_discovery}
use aqua_sim_ng.Aodv.Discovery.Request.{send_rreq-routes, send_rreq_lem}
use aqua_sim_ng.Aodv.Discovery.Retries.{
  IsOpen, IsOver, IsOver-same, messages-send_rreq, timeouts, timeouts_end,
}
use aqua_sim_ng.Aodv.Rerr.Targets.{messages}
use aqua_sim_ng.Aodv.State.{AodvPacket, Config, Env, Node}
use aqua_sim_ng.Aodv.Table.{lookup_route}
use aqua_sim_ng.Aodv.Table.Frame.{lookup_route_same}
use aqua_sim_ng.Prelude.{
  List, ap, arith, length, none, refl, some, suc, ℕ, ◌+◌, ◌-◌, ◌<◌, ◌^◌, ◌∙◌, ◌≡◌,
}
use aqua_sim_ng.Prelude.KeySet.{contains, contains-include_self, include}
use aqua_sim_ng.Prelude.Map.{find, find-insert_self, insert}

module _ (env : Env) (d : ℕ) (n : Node) where
  -- The node as StartRouteDiscovery hands it to SendRreq.
  abbrev started : Node
  started = record n {
    active_discoveries = include d n.active_discoveries;
    rreq_attempts = insert d 0 n.rreq_attempts;
  }

  start-IsOpen : ((t : ℕ) → lookup_route t d n ≡ none) → IsOpen d 1 (start_route_discovery env d n)
  unfolding start_route_discovery
  start-IsOpen no_route =
      let frame = send_rreq-routes env d started in
      record {
        active = ap (contains d) frame.4 ∙ contains-include_self d n.active_discoveries;
        attempts = (send_rreq_lem env d started).3 ∙ rw find-insert_self refl;
        no_route = λ t. lookup_route_same t d n _ frame.2 ∙ no_route t;
      }

  start-frame :
      let m = start_route_discovery env d n in
      (m.config ≡ n.config)
      × (m.pending_queue ≡ n.pending_queue)
      × (m.stats.no_route_drops ≡ n.stats.no_route_drops)
      × (length (messages m.out) ≡ length (messages n.out) + 1)
  unfolding start_route_discovery
  start-frame =
      let frame = send_rreq-routes env d started in
      (frame.1, frame.3, frame.6, messages-send_rreq d env started)

-- A discovery that finds no route ends: after StartRouteDiscovery and as many timeouts as requests
-- are allowed (but at least one), exactly that many requests were sent, the discovery is no longer
-- active, its counters are gone, and the packets that waited for it are dropped and counted.
pub discovery_ends :
    (env : Env) (envs : List Env) (d : ℕ) (n : Node) (q : List AodvPacket)
    → find d n.pending_queue ≡ some q
    → ((t : ℕ) → lookup_route t d n ≡ none)
    → n.max_rreq_attempts < 2 ^ 32
    → length envs ≡ suc (n.max_rreq_attempts - 1)
    → let m = timeouts envs d 1 (start_route_discovery env d n) in
      IsOver d q n m
      × (length (messages m.out) ≡ length (messages n.out) + suc (n.max_rreq_attempts - 1))
discovery_ends env envs d n q waiting no_route wide rounds =
    let frame = start-frame env d n in
    let cfg = ap (λ (c : Config). c.max_rreq_attempts) frame.0 in
    let ends =
      timeouts_end d envs 1 (start_route_discovery env d n) q (start-IsOpen env d n no_route)
        (ap (find d) frame.1 ∙ waiting) (omega arith) (omega arith) in
    (
      IsOver-same d q n (start_route_discovery env d n) _ frame.2 ends.0,
      omega (arith, ends.1, frame.3),
    )
