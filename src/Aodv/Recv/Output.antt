-- ===== src/Aodv/Recv/Output.antt =====
-- A packet from above for a destination that is not known.
use aqua_sim_ng.Address.{address_key, broadcast}
use aqua_sim_ng.Aodv.Data.{forward_data_packet, pending, report_stale_route}
use aqua_sim_ng.Aodv.Discovery.{get_rreq_timeout, next_hop_limit, send_rreq, start_route_discovery}
use aqua_sim_ng.Aodv.Discovery.Request.{send_rreq-routes, send_rreq_lem}
use aqua_sim_ng.Aodv.Discovery.Stuck.{enqueued, forward_missing}
use aqua_sim_ng.Aodv.Header.{uwaodv_rreq}
use aqua_sim_ng.Aodv.Recv.{output_packet}
use aqua_sim_ng.Aodv.State.{AodvPacket, Env, Node, inc32, schedule_timeout, transmit}
use aqua_sim_ng.Aodv.Table.{is_broadcast_destination, lookup_route}
use aqua_sim_ng.Prelude.{
  [], arith, false, get_or, length, none, refl, some, true, ℕ, ◌++◌, ◌<◌, ◌==◌, ◌∙◌, ◌∷◌, ◌≡◌, ◌≢◌,
}
use aqua_sim_ng.Prelude.KeySet.{contains, contains-include_self, include}
use aqua_sim_ng.Prelude.Map.{find, find-insert_self, insert}

module _ (env : Env) (p : AodvPacket) (d : ℕ) (n : Node) where
  -- The node with the packet in the queue, before the request.
  abbrev searching : Node
  searching = record n {
    pending_queue = insert d (pending d n ++ p ∷ []) n.pending_queue;
    stats = record (n.stats) { queued_packets = inc32 n.stats.queued_packets };
    active_discoveries = include d n.active_discoveries;
    rreq_attempts = insert d 0 n.rreq_attempts;
  }

  forward_unknown : find d n.route_table ≡ none → forward_data_packet env p d n ≡ (n, false)
  unfolding lookup_route report_stale_route
  forward_unknown unknown =
      rw (forward_missing env p d n (rw (unknown, lookup_route) refl))
        (rw (unknown, report_stale_route) refl)

  output_searches :
      d ≢ n.address
      → is_broadcast_destination d ≡ false
      → find d n.route_table ≡ none
      → contains d n.active_discoveries ≡ false
      → length (pending d n) < n.max_queue_len
      → output_packet env p d n ≡ (send_rreq env d searching, true)
  unfolding output_packet start_route_discovery
  output_searches away unicast unknown idle room =
      let elsewhere : (d == n.address) ≡ false = ground arith in
      rw (elsewhere, output_packet)
        (rw unicast (rw (forward_unknown unknown) (rw (enqueued d p n room) (rw idle refl))))

  -- The first packet from above for another node that is not in the table joins the queue, if there
  -- is room, and starts a discovery: one request for that node is handed down to every neighbour,
  -- and its timeout as the first attempt is scheduled.
  pub output_packet_lem :
      d ≢ n.address
      → is_broadcast_destination d ≡ false
      → find d n.route_table ≡ none
      → contains d n.active_discoveries ≡ false
      → length (pending d n) < n.max_queue_len
      → let r = output_packet env p d n in
        (r.1 ≡ true)
        × (find d r.0.pending_queue ≡ some (pending d n ++ p ∷ []))
        × (contains d r.0.active_discoveries ≡ true)
        × (find d r.0.rreq_attempts ≡ some 1)
        × (wait delay : ℕ) × (q : AodvPacket) × (r.0.out
            ≡ schedule_timeout wait d 1 ∷ transmit delay q ∷ n.out)
        × (q.aodv.type ≡ uwaodv_rreq)
        × (q.aodv.destination ≡ d)
        × (q.ash.next_hop ≡ broadcast)
  output_packet_lem away unicast unknown idle room =
      let (delay, q, out, attempts, _, everyone, _, type, _, destination, _, _, _, _, _, _) =
        send_rreq_lem env d searching in
      let (_, _, _, queue, active, _, _) = send_rreq-routes env d searching in
      let first : inc32 (get_or (find d searching.rreq_attempts) 0) ≡ 1 =
        rw (find-insert_self d 0 n.rreq_attempts) refl in
      rw (output_searches away unicast unknown idle room) (
        refl,
        rw queue (find-insert_self d (pending d n ++ p ∷ []) n.pending_queue),
        rw active (contains-include_self d n.active_discoveries),
        attempts ∙ rw first refl,
        get_rreq_timeout (next_hop_limit d 1 searching) searching,
        delay,
        q,
        out ∙ rw first refl,
        type,
        destination,
        everyone,
      )
