-- ===== src/Aodv/Discovery/Request.antt =====
-- What SendRreq does.
use aqua_sim_ng.Address.{address_key, broadcast}
use aqua_sim_ng.Aodv.Discovery.{
  get_rreq_timeout, known_dest_seq_no, next_hop_limit, rreq_packet, send_rreq,
}
use aqua_sim_ng.Aodv.Header.{is_unknown_dest_seq_no, set_unknown_dest_seq_no, uwaodv_rreq}
use aqua_sim_ng.Aodv.Send.{get_rreq_jitter}
use aqua_sim_ng.Aodv.State.{AodvPacket, Env, Node, inc32, request_key, schedule_timeout, transmit}
use aqua_sim_ng.Prelude.{arith, get_or, is_some, not, refl, some, ℕ, ◌∷◌, ◌≡◌}
use aqua_sim_ng.Prelude.Map.{find, find-insert_self}

pub send_rreq-routes :
    (env : Env) (d : ℕ) (n : Node)
    → let m = send_rreq env d n in
      (m.address ≡ n.address)
      × (m.config ≡ n.config)
      × (m.route_table ≡ n.route_table)
      × (m.pending_queue ≡ n.pending_queue)
      × (m.active_discoveries ≡ n.active_discoveries)
      × (m.seen_rreqs ≡ n.seen_rreqs)
      × (m.stats.no_route_drops ≡ n.stats.no_route_drops)
unfolding send_rreq
send_rreq-routes env d n = ground arith

-- The packet that SendRreq hands down.
abbrev sent_request : Env → ℕ → ℕ → Node → AodvPacket
sent_request env d hop_limit n =
    rreq_packet env
      (record n { sequence_number = inc32 n.sequence_number; next_rreq_id = inc32 n.next_rreq_id })
      d hop_limit (record { uid = env.uid n.created; size = 0 })

pub send_rreq_lem :
    (env : Env) (d : ℕ) (n : Node)
    → let attempt = inc32 (get_or (find d n.rreq_attempts) 0) in
      let hop_limit = next_hop_limit d attempt n in
      let m = send_rreq env d n in
      (delay : ℕ) × (p : AodvPacket) × (m.out
        ≡ schedule_timeout (get_rreq_timeout hop_limit n) d attempt ∷ transmit delay p ∷ n.out)
      × (find d m.rreq_attempts ≡ some attempt)
      × (find d m.rreq_hop_limits ≡ some hop_limit)
      × (p.ash.next_hop ≡ broadcast)
      × (p.ash.s_addr ≡ n.address)
      × (p.aodv.type ≡ uwaodv_rreq)
      × (p.aodv.origin ≡ n.address)
      × (p.aodv.destination ≡ d)
      × (p.aodv.hop_count ≡ 0)
      × (p.aodv.hop_limit ≡ hop_limit)
      × (p.aodv.request_id ≡ inc32 n.next_rreq_id)
      × (p.aodv.origin_seq_no ≡ inc32 n.sequence_number)
      × (is_unknown_dest_seq_no p.aodv ≡ not (is_some (known_dest_seq_no d n)))
      × (p.aodv.dest_seq_no ≡ get_or (known_dest_seq_no d n) 0)
unfolding send_rreq next_hop_limit get_rreq_timeout known_dest_seq_no set_unknown_dest_seq_no
    is_unknown_dest_seq_no
send_rreq_lem env d n =
    let attempt = inc32 (get_or (find d n.rreq_attempts) 0) in
    let h = next_hop_limit d attempt n in
    (
      (get_rreq_jitter env n).1,
      sent_request env d h n,
      ground arith,
      find-insert_self d attempt n.rreq_attempts,
      find-insert_self d h n.rreq_hop_limits,
      refl,
      refl,
      ground arith,
      ground arith,
      ground arith,
      ground arith,
      ground arith,
      ground arith,
      ground arith,
      ground arith,
      ground arith,
    )
