-- ===== src/Tests/Runs.antt =====
-- Whole lives of a node, and its entry points.
use aqua_sim_ng.Address.{address_key, broadcast}
use aqua_sim_ng.Aodv.Data.Flush.{push_sent}
use aqua_sim_ng.Aodv.Header.{
  AodvHeader, default_header, is_unknown_dest_seq_no, uwaodv_rrep, uwaodv_rreq,
}
use aqua_sim_ng.Aodv.Invariant.{IsAttempt, IsQueue, IsSent}
use aqua_sim_ng.Aodv.Recv.{answer_rreq, key_of, recv_rrep, recv_rreq}
use aqua_sim_ng.Aodv.Recv.Answer.{answer_rreq_lem}
use aqua_sim_ng.Aodv.Recv.Reply.{recv_rrep_delivers}
use aqua_sim_ng.Aodv.Reply.Answered.{Answered}
use aqua_sim_ng.Aodv.Reply.Collect.{Heard}
use aqua_sim_ng.Aodv.Rerr.Targets.{messages}
use aqua_sim_ng.Aodv.Run.{Event, received, request_timeout, run}
use aqua_sim_ng.Aodv.Run.Always.{run-IsSent, run_bounded}
use aqua_sim_ng.Aodv.Run.Duplicates.{handled_once}
use aqua_sim_ng.Aodv.SeqNo.{is_seq_no_newer}
use aqua_sim_ng.Aodv.State.{
  AodvPacket, Env, Node, RouteEntry, default_config, plain, request_key, tagged,
}
use aqua_sim_ng.Aodv.Table.{lookup_route}
use aqua_sim_ng.Packet.{default_ash}
use aqua_sim_ng.Prelude.{
  All, List, [], arith, false, inl, none, refl, some, true, ◌<◌, ◌^◌, ◌∷◌, ◌≡◌, ◌≢◌, ◌≤◌,
}
use aqua_sim_ng.Prelude.KeySet.{contains}
use aqua_sim_ng.Prelude.Map.{find}
use aqua_sim_ng.Tests.Fixtures.{alone, env_at, packet}

-- A request of node 3 for node 9, heard from neighbour 2.
abbrev request : AodvPacket
request = record {
  ash = record default_ash { s_addr = 2; next_hop = broadcast };
  aodv = record default_header {
    type = uwaodv_rreq;
    origin = 3;
    destination = 9;
    request_id = 4;
    origin_seq_no = 8;
    hop_count = 1;
    hop_limit = 5;
  };
  payload = record { uid = 7; size = 0 };
}

-- The request arrives, a packet for node 9 comes from above, and its discovery times out.
abbrev story : List (Env × Event)
story =
    (env_at 1, received (tagged request) none)
    ∷ (
      env_at 2,
      received (plain (record default_ash { d_addr = 9 }) (record { uid = 8; size = 100 })) none,
    )
    ∷ (env_at 3000000002, request_timeout 9 1)
    ∷ []

run-IsSent_example : All (IsSent alone) (run story alone).out
run-IsSent_example = run-IsSent 1 default_config true story

run_bounded_example :
    let n = run story alone in
    (n.address ≡ 1)
    × (n.config ≡ default_config)
    × (find 1 n.route_table ≡ none)
    × (find broadcast n.route_table ≡ none)
    × All (IsQueue alone) n.pending_queue
    × All (IsAttempt alone) n.rreq_attempts
    × All (λ x. x.1 ≤ 32) n.rreq_hop_limits
run_bounded_example = run_bounded 1 default_config true story

-- The same request comes again from neighbour 5 after the story.
handled_once_example :
    let m = run story (recv_rreq (env_at 0) request 2 alone).0 in
    recv_rreq (env_at 4000000000) request 5 m ≡ (m, false)
unfolding run
handled_once_example =
    handled_once 1 default_config true [] story (env_at 0) (env_at 4000000000) request request 2 5
      refl (λ e. absurd (ground (arith, e))) (λ e. absurd (ground (arith, e))) refl

-- A reply to node 1 about node 9, from neighbour 2.
abbrev reply : AodvPacket
reply = record request {
  aodv = record default_header {
    type = uwaodv_rrep;
    origin = 1;
    destination = 9;
    hop_count = 3;
    dest_seq_no = 10;
    lifetime_ms = 1000;
  };
}

-- Two packets wait for node 9, which has no route.
abbrev waiting : Node
waiting = record alone {
  pending_queue = (9, packet ∷ packet ∷ []) ∷ [];
  active_discoveries = 9 ∷ [];
  rreq_attempts = (9, 1) ∷ [];
}

recv_rrep_delivers_example :
    let r = recv_rrep (env_at 5) reply 2 waiting in
    (route : RouteEntry) × (lookup_route 5 9 r.0 ≡ some route)
    × (route.next_hop ≡ 2)
    × (route.hop_count ≡ 4)
    × (route.dest_seq_no ≡ 10)
    × (r.1 ≡ true)
    × (r.0.out ≡ push_sent route waiting (packet ∷ packet ∷ []) [])
    × (find 9 r.0.pending_queue ≡ none)
    × (contains 9 r.0.active_discoveries ≡ false)
    × (find 9 r.0.rreq_attempts ≡ none)
    × (find 9 r.0.rreq_hop_limits ≡ none)
unfolding find lookup_route
recv_rrep_delivers_example =
    recv_rrep_delivers (env_at 5) reply 2 (packet ∷ packet ∷ []) waiting refl (omega arith)
      (omega arith) refl refl

-- A request for node 1 itself that names the number 6.
abbrev own_request : AodvHeader
own_request = record default_header {
  type = uwaodv_rreq;
  origin = 3;
  destination = 1;
  request_id = 4;
  origin_seq_no = 8;
  dest_seq_no = 6;
  hop_count = 1;
}

answer_rreq_lem_example :
    let r = answer_rreq (env_at 5) own_request 2 (record alone { sequence_number = 6 }) in
    let s = r.0.sequence_number in
    (r.1 ≡ true)
    × (messages r.0.out ≡ (2, uwaodv_rrep, 1, s) ∷ [])
    × (0 < s)
    × (s < 2 ^ 32)
    × (s ≢ 6)
    × (is_seq_no_newer 6 s ≡ false)
    × (contains (key_of own_request) r.0.seen_rreqs ≡ true)
unfolding messages is_unknown_dest_seq_no
answer_rreq_lem_example =
    answer_rreq_lem (env_at 5) own_request 2 (record alone { sequence_number = 6 }) (omega arith)
      (omega arith) (inl (omega arith)) refl refl

-- The request is heard from neighbour 2, and from neighbour 5 over one hop less.
abbrev copies : List Heard
copies = (env_at 6, record own_request { hop_count = 0 }, 5) ∷ []
