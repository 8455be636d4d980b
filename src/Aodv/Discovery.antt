-- ===== src/Aodv/Discovery.antt =====
-- Route discovery by an expanding ring: GetRreqHopLimit, GetRreqTimeout, SendRreq,
-- StartRouteDiscovery, RouteRequestTimeout.
pub mod HopLimit
pub mod Request
pub mod Retries
pub mod Ends
pub mod Stuck
use aqua_sim_ng.Address.{address_key, broadcast}
use aqua_sim_ng.Aodv.Data.{drop_queued_packets, send_queued_packets}
use aqua_sim_ng.Aodv.Header.{default_header, set_unknown_dest_seq_no, uwaodv_rreq}
use aqua_sim_ng.Aodv.Send.{control_ash, create_packet, get_rreq_jitter, send_down}
use aqua_sim_ng.Aodv.State.{AodvPacket, Env, Node, emit, inc32, schedule_timeout}
use aqua_sim_ng.Aodv.Table.{has_valid_route, lookup_any_route}
use aqua_sim_ng.Packet.{Payload}
use aqua_sim_ng.Prelude.{
  Option, get_or, if◌then◌else◌, is_some, ltb, none, not, some, ℕ, ◌*◌, ◌+◌, ◌==◌, ◌||◌,
}
use aqua_sim_ng.Prelude.KeySet.{contains, exclude, include}
use aqua_sim_ng.Prelude.Map.{erase, find, insert}

-- The bound of the ring: the network's diameter, at most `m_maxHopCount`.
abbrev pub net_bound : Node → ℕ
net_bound n =
    let net_diameter = if n.net_diameter == 0 then n.max_hop_count else n.net_diameter in
    if ltb n.max_hop_count net_diameter then n.max_hop_count else net_diameter

-- The hop limit before the bounds are applied: the first, or the last one for this destination and
-- the increment, without wrapping.
abbrev pub ring_hop_limit : ℕ → ℕ → Node → ℕ
ring_hop_limit d attempt n =
    if ltb 1 attempt
    then elim (find d n.rreq_hop_limits) [
      | none ↦ n.ttl_start
      | some last ↦ if ltb 65535 (last + n.ttl_increment) then 65535 else last + n.ttl_increment
    ]
    else n.ttl_start

-- The hop limit that `GetRreqHopLimit` chooses.
unfoldable pub next_hop_limit : ℕ → ℕ → Node → ℕ
next_hop_limit d attempt n =
    if n.ttl_start == 0 || n.ttl_increment == 0
    then net_bound n
    else (let ring = ring_hop_limit d attempt n in
        let ring' = if ltb n.ttl_threshold ring then net_bound n else ring in
        if ltb (net_bound n) ring' then net_bound n else ring')

-- `GetRreqHopLimit`
unfoldable pub get_rreq_hop_limit : ℕ → ℕ → Node → Node × ℕ
unfolding next_hop_limit
get_rreq_hop_limit d attempt n =
    let hop_limit = next_hop_limit d attempt n in
    (record n { rreq_hop_limits = insert d hop_limit n.rreq_hop_limits }, hop_limit)

-- `GetRreqTimeout`
unfoldable pub get_rreq_timeout : ℕ → Node → ℕ
get_rreq_timeout hop_limit n =
    let ring_traversal_time = n.node_traversal_time * (2 * (hop_limit + n.timeout_buffer)) in
    if ltb n.rreq_timeout ring_traversal_time then ring_traversal_time else n.rreq_timeout

-- `hasKnownDestSeqNo`, and the number where it holds.
unfoldable pub known_dest_seq_no : ℕ → Node → Option ℕ
known_dest_seq_no d n = elim (lookup_any_route d n) [
  | none ↦ none
  | some route ↦ if route.valid_seq_no then some route.dest_seq_no else none
]

-- The packet of a request.
abbrev pub rreq_packet : Env → Node → ℕ → ℕ → Payload → AodvPacket
rreq_packet env n d hop_limit payload =
    let known = known_dest_seq_no d n in
    record {
      ash = control_ash env n broadcast broadcast payload;
      aodv = set_unknown_dest_seq_no (not (is_some known)) (record default_header {
        type = uwaodv_rreq;
        hop_limit = hop_limit;
        request_id = n.next_rreq_id;
        origin = n.address;
        destination = d;
        origin_seq_no = n.sequence_number;
        dest_seq_no = get_or known 0;
      });
      payload = payload;
    }

-- `++m_rreqAttempts[destination]`
unfoldable pub count_attempt : ℕ → Node → Node × ℕ
count_attempt d n =
    let attempt = inc32 (get_or (find d n.rreq_attempts) 0) in
    (record n { rreq_attempts = insert d attempt n.rreq_attempts }, attempt)

-- `SendRreq`
unfoldable pub send_rreq : Env → ℕ → Node → Node
unfolding count_attempt get_rreq_hop_limit create_packet get_rreq_jitter send_down
send_rreq env d n =
    let (n1, attempt) = count_attempt d n in
    let (n2, hop_limit) = get_rreq_hop_limit d attempt n1 in
    let n3 = record n2 {
      sequence_number = inc32 n2.sequence_number;
      next_rreq_id = inc32 n2.next_rreq_id;
    } in
    let (n4, payload) = create_packet env n3 in
    let n5 = record n4 { stats = record (n4.stats) { rreq_tx = inc32 n4.stats.rreq_tx } } in
    let (n6, jitter) = get_rreq_jitter env n5 in
    let (n7, _) = send_down (rreq_packet env n6 d hop_limit payload) broadcast jitter n6 in
    emit (schedule_timeout (get_rreq_timeout hop_limit n7) d attempt) n7

-- `StartRouteDiscovery`
unfoldable pub start_route_discovery : Env → ℕ → Node → Node
start_route_discovery env d n = send_rreq env d (record n {
  active_discoveries = include d n.active_discoveries;
  rreq_attempts = insert d 0 n.rreq_attempts;
})

-- The three `erase` calls that end a discovery.
abbrev pub end_discovery : ℕ → Node → Node
end_discovery d n = record n {
  active_discoveries = exclude d n.active_discoveries;
  rreq_attempts = erase d n.rreq_attempts;
  rreq_hop_limits = erase d n.rreq_hop_limits;
}

-- Reading `m_rreqAttempts[destination]` makes an entry of 0 where there is none.
abbrev pub touch_attempts : ℕ → Node → Node
touch_attempts d n = record n {
  rreq_attempts = insert d (get_or (find d n.rreq_attempts) 0) n.rreq_attempts;
}

-- `RouteRequestTimeout`
unfoldable pub route_request_timeout : Env → ℕ → ℕ → Node → Node
route_request_timeout env d attempt n =
    if not (contains d n.active_discoveries) || has_valid_route env.now d n
    then send_queued_packets env d n
    else (let m = touch_attempts d n in
        if not (get_or (find d n.rreq_attempts) 0 == attempt)
        then send_queued_packets env d m
        else if ltb attempt n.max_rreq_attempts
        then send_rreq env d m
        else drop_queued_packets d (end_discovery d m))
