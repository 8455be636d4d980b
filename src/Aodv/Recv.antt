-- ===== src/Aodv/Recv.antt =====
-- The entry points: Recv, RecvAodvPacket, RouteOutput, RecvData, RecvRreq, RecvRrep, ForwardRreq,
-- DoDispose.
pub mod Reply
pub mod Output
pub mod Answer
use aqua_sim_ng.Address.{address_key, broadcast}
use aqua_sim_ng.Aodv.Data.{
  broadcast_data_packet, deliver_data_packet, enqueue_packet, forward_data_packet,
  prepare_data_packet, send_queued_packets,
}
use aqua_sim_ng.Aodv.Discovery.{end_discovery, start_route_discovery}
use aqua_sim_ng.Aodv.Header.{
  AodvHeader, is_unknown_dest_seq_no, uwaodv_data, uwaodv_hello, uwaodv_rerr, uwaodv_rrep,
  uwaodv_rreq,
}
use aqua_sim_ng.Aodv.Hello.{maybe_start_hello, recv_hello, update_neighbor}
use aqua_sim_ng.Aodv.Reply.{
  count_no_route, forward_rrep, queue_rrep_candidate, send_rrep, send_rrep_via,
}
use aqua_sim_ng.Aodv.Rerr.{recv_rerr}
use aqua_sim_ng.Aodv.Send.{from_milliseconds, get_rreq_jitter, send_down}
use aqua_sim_ng.Aodv.SeqNo.{is_seq_no_newer}
use aqua_sim_ng.Aodv.State.{
  AodvPacket, Env, Node, Packet, RequestKey, inc16, inc32, plain, request_key, tagged,
}
use aqua_sim_ng.Aodv.Table.{
  add_precursor, is_broadcast_destination, lookup_route, route_is_fresh_enough, update_route,
}
use aqua_sim_ng.Packet.{AquaSimHeader, Payload, down}
use aqua_sim_ng.Prelude.{
  Bool, Option, [], false, get_or, if◌then◌else◌, is_some, leb, ltb, none, not, some, true, ℕ, ◌&&◌,
  ◌==◌, ◌||◌,
}
use aqua_sim_ng.Prelude.KeySet.{contains, include}
use aqua_sim_ng.Prelude.Map.{find}

-- `RecvData`. The packet's headers are taken off and put back, so that it is one record.
unfoldable pub recv_data : Env → AodvPacket → Node → Node × Bool
recv_data env p n =
    let m =
      update_route env.now p.aodv.origin p.ash.s_addr (inc16 p.aodv.hop_count) p.aodv.origin_seq_no
        true n.route_lifetime n in
    if p.aodv.destination == m.address || is_broadcast_destination p.aodv.destination
    then deliver_data_packet p m
    else if leb m.max_hop_count p.ash.num_forwards
    then (count_no_route m, false)
    else forward_data_packet env
        (record p {
          ash = record (p.ash) { num_forwards = inc16 p.ash.num_forwards };
          aodv = record (p.aodv) { hop_count = inc16 p.aodv.hop_count };
        })
        p.aodv.destination (add_precursor p.aodv.destination p.ash.s_addr m)

-- `ForwardRreq`
unfoldable pub forward_rreq : Env → AodvPacket → Node → Node
unfolding get_rreq_jitter send_down
forward_rreq env p n =
    let m = record n { stats = record (n.stats) { rreq_tx = inc32 n.stats.rreq_tx } } in
    let (m', jitter) = get_rreq_jitter env m in
    (send_down
      (record p {
        aodv = record (p.aodv) { hop_count = inc16 p.aodv.hop_count };
        ash = record (p.ash) {
          direction = down;
          next_hop = broadcast;
          s_addr = n.address;
          d_addr = broadcast;
          num_forwards = inc16 p.ash.num_forwards;
        };
      })
      broadcast jitter m').0

-- `RequestKey key(origin, requestId)`
abbrev pub key_of : AodvHeader → RequestKey
key_of aodv = record { first = aodv.origin; second = aodv.request_id }

-- `effectiveHopLimit`
unfoldable pub effective_hop_limit : AodvHeader → Node → ℕ
effective_hop_limit aodv n =
    let limit = if aodv.hop_limit == 0 then n.max_hop_count else aodv.hop_limit in
    if ltb n.max_hop_count limit then n.max_hop_count else limit

-- `m_sequenceNumber` after a request for this node.
unfoldable pub catch_up : AodvHeader → Node → Node
catch_up aodv n =
    if not (is_unknown_dest_seq_no aodv)
      && (aodv.dest_seq_no == n.sequence_number
          || is_seq_no_newer aodv.dest_seq_no n.sequence_number)
    then record n { sequence_number = inc32 aodv.dest_seq_no }
    else n

-- The end of `RecvRreq` at the destination.
unfoldable pub answer_rreq : Env → AodvHeader → ℕ → Node → Node × Bool
unfolding catch_up
answer_rreq env aodv previous_hop n =
    let m = catch_up aodv n in
    if m.enable_rreq_collection
    then (queue_rrep_candidate env (key_of aodv) aodv previous_hop m, true)
    else (
      send_rrep_via env aodv.origin m.address previous_hop
          (record m { seen_rreqs = include (key_of aodv) m.seen_rreqs }),
      true,
    )

-- `LookupRoute(destination, route) && RouteIsFreshEnough(route, rreq)`
unfoldable pub has_fresh_route : ℕ → AodvHeader → Node → Bool
has_fresh_route now aodv n = elim (lookup_route now aodv.destination n) [
  | none ↦ false
  | some route ↦ route_is_fresh_enough now route aodv
]

-- The end of `RecvRreq` at another node: an answer from the table, or the request goes on.
unfoldable pub relay_rreq : Env → AodvPacket → Node → Node × Bool
unfolding effective_hop_limit
relay_rreq env p n = elim (has_fresh_route env.now p.aodv n) [
  | true ↦ (send_rrep env p.aodv.origin p.aodv.destination n, true)
  | false ↦
      if leb (effective_hop_limit p.aodv n) p.aodv.hop_count
      then (n, false)
      else (forward_rreq env p n, true)
]

-- Whether `RecvRreq` drops a request as a duplicate.
unfoldable pub is_duplicate_rreq : AodvHeader → Node → Bool
is_duplicate_rreq aodv n =
    let seen = contains (key_of aodv) n.seen_rreqs in
    if aodv.destination == n.address && n.enable_rreq_collection
    then seen && not (is_some (find (key_of aodv) n.rreq_collections))
    else seen

-- `RecvRreq`
unfoldable pub recv_rreq : Env → AodvPacket → ℕ → Node → Node × Bool
recv_rreq env p previous_hop n =
    if is_duplicate_rreq p.aodv n
    then (n, false)
    else (let is_destination = p.aodv.destination == n.address in
        let m =
          if is_destination && n.enable_rreq_collection
          then n
          else record n { seen_rreqs = include (key_of p.aodv) n.seen_rreqs } in
        if p.aodv.origin == n.address
        then (m, false)
        else (let m' =
              update_route env.now p.aodv.origin previous_hop (inc16 p.aodv.hop_count)
                p.aodv.origin_seq_no true m.route_lifetime m in
            if is_destination then answer_rreq env p.aodv previous_hop m' else relay_rreq env p m'))

-- `RecvRrep`
unfoldable pub recv_rrep : Env → AodvPacket → ℕ → Node → Node × Bool
recv_rrep env p previous_hop n =
    let m = send_queued_packets env p.aodv.destination (
      update_route env.now p.aodv.destination previous_hop (inc16 p.aodv.hop_count)
        p.aodv.dest_seq_no true (from_milliseconds p.aodv.lifetime_ms) n) in
    if p.aodv.origin == m.address
    then (end_discovery p.aodv.destination m, true)
    else elim (lookup_route env.now p.aodv.origin m) [
      | none ↦ (count_no_route m, false)
      | some route ↦ (
        forward_rrep p route.next_hop (
            add_precursor p.aodv.origin previous_hop
              (add_precursor p.aodv.destination route.next_hop m)),
        true,
      )
    ]

-- `IsPacketForMe`
unfoldable pub is_packet_for_me : AquaSimHeader → Node → Bool
is_packet_for_me ash n = ash.next_hop == broadcast || ash.next_hop == n.address

-- The `switch` of `RecvAodvPacket`.
unfoldable pub dispatch : Env → AodvPacket → Node → Node × Bool
dispatch env p n =
    if p.aodv.type == uwaodv_data
    then recv_data env p n
    else if p.aodv.type == uwaodv_rreq
    then recv_rreq env p p.ash.s_addr
        (record n { stats = record (n.stats) { rreq_rx = inc32 n.stats.rreq_rx } })
    else if p.aodv.type == uwaodv_rrep
    then recv_rrep env p p.ash.s_addr
        (record n { stats = record (n.stats) { rrep_rx = inc32 n.stats.rrep_rx } })
    else if p.aodv.type == uwaodv_rerr
    then recv_rerr env p.aodv p.ash.s_addr
        (record n { stats = record (n.stats) { rerr_rx = inc32 n.stats.rerr_rx } })
    else if p.aodv.type == uwaodv_hello
    then recv_hello env p.ash.s_addr
        (record n { stats = record (n.stats) { hello_rx = inc32 n.stats.hello_rx } })
    else (n, false)

-- `RecvAodvPacket`
unfoldable pub recv_aodv_packet : Env → AodvPacket → Node → Node × Bool
recv_aodv_packet env p n =
    if is_packet_for_me p.ash n
    then dispatch env p (update_neighbor env.now p.ash.s_addr n)
    else (n, false)

-- `RouteOutput` from `PrepareDataPacket` on.
unfoldable pub output_packet : Env → AodvPacket → ℕ → Node → Node × Bool
output_packet env p d n =
    if d == n.address
    then deliver_data_packet p n
    else if is_broadcast_destination d
    then broadcast_data_packet p n
    else (let (m, forwarded) = forward_data_packet env p d n in
        if forwarded
        then (m, true)
        else (let (q, queued) = enqueue_packet d p m in
            if not queued
            then (count_no_route q, false)
            else if not (contains d q.active_discoveries)
            then (start_route_discovery env d q, true)
            else (q, true)))

-- `RouteOutput`. `dest` is the address that came with the packet, if it is an AquaSimAddress.
unfoldable pub route_output : Env → AquaSimHeader → Payload → Option ℕ → Node → Node × Bool
unfolding output_packet
route_output env ash payload dest n =
    let m = maybe_start_hello env n in
    let d = if ash.d_addr == 65535 then get_or dest ash.d_addr else ash.d_addr in
    output_packet env (prepare_data_packet env ash payload d m) d m

-- `Recv` of a packet that is not null.
unfoldable pub recv : Env → Packet → Option ℕ → Node → Node × Bool
recv env (tagged p) dest n = recv_aodv_packet env p (maybe_start_hello env n)
recv env (plain ash payload) dest n = route_output env ash payload dest (maybe_start_hello env n)

-- `DoDispose`
unfoldable pub do_dispose : Node → Node
do_dispose n = record n {
  route_table = [];
  pending_queue = [];
  rreq_attempts = [];
  rreq_hop_limits = [];
  rreq_collections = [];
  neighbors = [];
  active_discoveries = [];
  seen_rreqs = [];
  enable_hello = false;
  hello_started = false;
}
