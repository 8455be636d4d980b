-- ===== src/Aodv/Recv/Reply.antt =====
-- A route reply at the node that asked for the route.
use aqua_sim_ng.Address.{address_key, broadcast}
use aqua_sim_ng.Aodv.Data.{send_queued_packets}
use aqua_sim_ng.Aodv.Data.Flush.{push_sent, push_sent_same, send_queued_packets_lem}
use aqua_sim_ng.Aodv.Discovery.{end_discovery}
use aqua_sim_ng.Aodv.Recv.{recv_rrep}
use aqua_sim_ng.Aodv.Send.{from_milliseconds}
use aqua_sim_ng.Aodv.State.{AodvPacket, Env, Node, RouteEntry, inc16}
use aqua_sim_ng.Aodv.Table.{lookup_route, update_route}
use aqua_sim_ng.Aodv.Table.Frame.{lookup_route_same, update_route-routes}
use aqua_sim_ng.Aodv.Table.Freshness.{lookup_route-update_route}
use aqua_sim_ng.Prelude.{
  ==_iff, List, ap, arith, count, false, none, refl, some, sym, true, ℕ, ◌∙◌, ◌≡◌, ◌≢◌,
}
use aqua_sim_ng.Prelude.KeySet.{contains, contains-exclude_self}
use aqua_sim_ng.Prelude.Map.{find, find-erase_self}

module _ (env : Env) (p : AodvPacket) (previous_hop : ℕ) (q : List AodvPacket) (n : Node) where
  abbrev learned : Node
  learned =
      update_route env.now p.aodv.destination previous_hop (inc16 p.aodv.hop_count)
        p.aodv.dest_seq_no true (from_milliseconds p.aodv.lifetime_ms) n

  abbrev flushed : Node
  flushed = send_queued_packets env p.aodv.destination learned

  learned-out : learned.out ≡ n.out
  unfolding update_route
  learned-out = ground arith

  recv_rrep_here :
      p.aodv.origin ≡ flushed.address
      → recv_rrep env p previous_hop n ≡ (end_discovery p.aodv.destination flushed, true)
  unfolding recv_rrep
  recv_rrep_here h = rw (h, recv_rrep) (rw ((==_iff flushed.address flushed.address).1 refl) refl)

  -- A reply to this node about a destination to which it has no usable route, which is neither the node
  -- itself nor the broadcast address and for which packets wait in a queue, makes the route through
  -- the neighbour it came from, and the packets are handed down along it, in order. Then no queue is
  -- left for the destination, and its discovery is over.
  pub recv_rrep_delivers :
      p.aodv.origin ≡ n.address
      → p.aodv.destination ≢ broadcast
      → p.aodv.destination ≢ n.address
      → lookup_route env.now p.aodv.destination n ≡ none
      → find p.aodv.destination n.pending_queue ≡ some q
      → let d = p.aodv.destination in
        let r = recv_rrep env p previous_hop n in
        (route : RouteEntry) × (lookup_route env.now d r.0 ≡ some route)
        × (route.next_hop ≡ previous_hop)
        × (route.hop_count ≡ inc16 p.aodv.hop_count)
        × (route.dest_seq_no ≡ p.aodv.dest_seq_no)
        × (r.1 ≡ true)
        × (r.0.out ≡ push_sent route n q n.out)
        × (find d r.0.pending_queue ≡ none)
        × (contains d r.0.active_discoveries ≡ false)
        × (find d r.0.rreq_attempts ≡ none)
        × (find d r.0.rreq_hop_limits ≡ none)
  recv_rrep_delivers here unicast away missing waiting =
      let d = p.aodv.destination in
      let hops = inc16 p.aodv.hop_count in
      let lifetime = from_milliseconds p.aodv.lifetime_ms in
      let u = update_route-routes env.now d previous_hop hops p.aodv.dest_seq_no true lifetime n in
      let (route, found, hop, count, seq, _, _) =
        lookup_route-update_route env.now d previous_hop hops p.aodv.dest_seq_no true lifetime n
          unicast away missing in
      let (sent, empty, _) =
        send_queued_packets_lem env d route q learned (rw u.pending_queue waiting) found in
      let routes = ap (λ m. m.route_table) sent in
      let address = ap (λ m. m.address) sent in
      rw (recv_rrep_here (here ∙ sym (address ∙ u.address))) (
        route,
        lookup_route_same env.now d learned _ routes ∙ found,
        hop,
        count,
        seq,
        refl,
        ap (λ m. m.out) sent
            ∙ push_sent_same route n learned q learned.out u.address u.sequence_number
            ∙ ap (push_sent route n q) learned-out,
        empty,
        contains-exclude_self d flushed.active_discoveries,
        find-erase_self d flushed.rreq_attempts,
        find-erase_self d flushed.rreq_hop_limits,
      )
