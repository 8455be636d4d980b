-- ===== src/Aodv/Reply.antt =====
-- Route replies: SendRrep, QueueRrepCandidate, SendCollectedRrep, IsBetterRreqCandidate,
-- ForwardRrep.
pub mod Best
pub mod Answered
pub mod Collect
use aqua_sim_ng.Address.{address_key}
use aqua_sim_ng.Aodv.Header.{AodvHeader, default_header, uwaodv_rrep}
use aqua_sim_ng.Aodv.Send.{control_ash, create_packet, milliseconds32, send_down}
use aqua_sim_ng.Aodv.SeqNo.{is_seq_no_newer}
use aqua_sim_ng.Aodv.State.{
  AodvPacket, Env, Node, RequestKey, RreqCandidate, RreqCollection, emit, inc16, inc32, request_key,
  schedule_rrep,
}
use aqua_sim_ng.Aodv.Table.{lookup_route, update_route}
use aqua_sim_ng.Packet.{Payload, down}
use aqua_sim_ng.Prelude.{
  Bool, false, if◌then◌else◌, ltb, none, not, some, true, ℕ, ◌&&◌, ◌-◌, ◌==◌, ◌||◌,
}
use aqua_sim_ng.Prelude.KeySet.{include}
use aqua_sim_ng.Prelude.Map.{erase, find, insert}

-- `++m_noRouteDrops`
abbrev pub count_no_route : Node → Node
count_no_route n = record n {
  stats = record (n.stats) { no_route_drops = inc32 n.stats.no_route_drops };
}

-- `++m_rrepTx`
abbrev pub count_rrep : Node → Node
count_rrep n = record n { stats = record (n.stats) { rrep_tx = inc32 n.stats.rrep_tx } }

-- The packet of a reply.
abbrev pub rrep_packet : Env → Node → ℕ → ℕ → ℕ → ℕ → ℕ → ℕ → Payload → AodvPacket
rrep_packet env n origin d next_hop hop_count seq_no lifetime payload = record {
  ash = control_ash env n next_hop origin payload;
  aodv = record default_header {
    type = uwaodv_rrep;
    hop_count = hop_count;
    origin = origin;
    destination = d;
    dest_seq_no = seq_no;
    lifetime_ms = milliseconds32 lifetime;
  };
  payload = payload;
}

-- The second half of `SendRrep`: the packet is made and sent.
unfoldable pub transmit_rrep : Env → ℕ → ℕ → ℕ → ℕ → ℕ → ℕ → Node → Node
unfolding create_packet send_down
transmit_rrep env origin d next_hop hop_count seq_no lifetime n =
    let (m, payload) = create_packet env n in
    (send_down (rrep_packet env m origin d next_hop hop_count seq_no lifetime payload) next_hop 0
      (count_rrep m)).0

-- `SendRrep(origin, destination, nextHop)`
unfoldable pub send_rrep_via : Env → ℕ → ℕ → ℕ → Node → Node
unfolding transmit_rrep
send_rrep_via env origin d next_hop n =
    if d == n.address
    then (let m =
          if n.sequence_number == 0
          then record n { sequence_number = inc32 n.sequence_number }
          else n in
        transmit_rrep env origin d next_hop 0 m.sequence_number m.route_lifetime m)
    else elim (lookup_route env.now d n) [
      | none ↦ count_no_route n
      | some route ↦
          transmit_rrep env origin d next_hop route.hop_count route.dest_seq_no
            (if ltb env.now route.expire then route.expire - env.now else 0) n
    ]

-- `SendRrep(origin, destination)`
unfoldable pub send_rrep : Env → ℕ → ℕ → Node → Node
unfolding send_rrep_via
send_rrep env origin d n = elim (lookup_route env.now origin n) [
  | none ↦ count_no_route n
  | some reverse_route ↦ send_rrep_via env origin d reverse_route.next_hop n
]

-- `IsBetterRreqCandidate`
unfoldable pub is_better_rreq_candidate : RreqCandidate → RreqCandidate → Bool
is_better_rreq_candidate candidate current =
    if is_seq_no_newer candidate.origin_seq_no current.origin_seq_no
    then true
    else if not (candidate.origin_seq_no == current.origin_seq_no)
        && not (is_seq_no_newer candidate.origin_seq_no current.origin_seq_no)
    then false
    else if ltb candidate.hop_count current.hop_count
    then true
    else if ltb current.hop_count candidate.hop_count
    then false
    else ltb candidate.receive_time current.receive_time

-- The candidate that a request makes.
abbrev pub candidate_of : Env → AodvHeader → ℕ → RreqCandidate
candidate_of env aodv previous_hop = record {
  previous_hop = previous_hop;
  hop_count = inc16 aodv.hop_count;
  origin_seq_no = aodv.origin_seq_no;
  receive_time = env.now;
}

-- What `QueueRrepCandidate` makes of a collection that is there.
unfoldable pub offer : RreqCandidate → RreqCollection → RreqCollection
offer candidate c =
    if not c.has_candidate || is_better_rreq_candidate candidate c.best
    then record { best = candidate; has_candidate = true }
    else c

-- `QueueRrepCandidate`
unfoldable pub queue_rrep_candidate : Env → RequestKey → AodvHeader → ℕ → Node → Node
queue_rrep_candidate env key aodv previous_hop n =
    let candidate = candidate_of env aodv previous_hop in
    elim (find key n.rreq_collections) [
      | none ↦ emit (schedule_rrep n.rrep_wait_time key) (record n {
        rreq_collections =
            insert key (record { best = candidate; has_candidate = true }) n.rreq_collections;
      })
      | some c ↦ record n { rreq_collections = insert key (offer candidate c) n.rreq_collections }
    ]

-- The end of `SendCollectedRrep`, for the candidate that was chosen.
unfoldable pub reply_to_candidate : Env → RequestKey → RreqCandidate → Node → Node
reply_to_candidate env key best n =
    let m = record n {
      rreq_collections = erase key n.rreq_collections;
      seen_rreqs = include key n.seen_rreqs;
    } in
    let m' =
      update_route env.now key.first best.previous_hop best.hop_count best.origin_seq_no true
        m.route_lifetime m in
    send_rrep_via env key.first m'.address best.previous_hop m'

-- `SendCollectedRrep`
unfoldable pub send_collected_rrep : Env → RequestKey → Node → Node
unfolding reply_to_candidate
send_collected_rrep env key n = elim (find key n.rreq_collections) [
  | none ↦ n
  | some c ↦ if not c.has_candidate then n else reply_to_candidate env key c.best n
]

-- `ForwardRrep`
unfoldable pub forward_rrep : AodvPacket → ℕ → Node → Node
unfolding send_down
forward_rrep p next_hop n =
    (send_down
      (record p {
        aodv = record (p.aodv) { hop_count = inc16 p.aodv.hop_count };
        ash = record (p.ash) {
          direction = down;
          next_hop = next_hop;
          s_addr = n.address;
          d_addr = p.aodv.origin;
          num_forwards = inc16 p.ash.num_forwards;
        };
      })
      next_hop 0 (count_rrep n)).0
