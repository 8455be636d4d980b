-- ===== src/Aodv/Data.antt =====
-- Data packets: PrepareDataPacket, ForwardDataPacket, BroadcastDataPacket, DeliverDataPacket,
-- EnqueuePacket, SendQueuedPackets, DropQueuedPackets.
pub mod Flush
pub mod Report
use aqua_sim_ng.Address.{address_key, broadcast}
use aqua_sim_ng.Aodv.Header.{default_header, serialized_size, uwaodv_data}
use aqua_sim_ng.Aodv.Rerr.{forward_rerr}
use aqua_sim_ng.Aodv.Send.{milliseconds32, send_down, send_up}
use aqua_sim_ng.Aodv.State.{AodvPacket, Env, Node, RouteEntry, inc32}
use aqua_sim_ng.Aodv.Table.{has_valid_route, invalidate_route, lookup_any_route, lookup_route}
use aqua_sim_ng.Packet.{AquaSimHeader, Payload, down, up}
use aqua_sim_ng.Prelude.{
  Bool, List, [], false, get_or, if◌then◌else◌, leb, length, none, some, true, ℕ, ◌%◌, ◌&&◌, ◌++◌,
  ◌+◌, ◌==◌, ◌^◌, ◌∷◌,
}
use aqua_sim_ng.Prelude.Map.{erase, find, insert}

-- `PrepareDataPacket`
unfoldable pub prepare_data_packet : Env → AquaSimHeader → Payload → ℕ → Node → AodvPacket
prepare_data_packet env ash payload d n = record {
  ash = record ash {
    direction = down;
    next_hop = broadcast;
    num_forwards = 0;
    s_addr = n.address;
    d_addr = d;
    error_flag = false;
    size = (payload.size + serialized_size) % 2 ^ 16;
    uid = payload.uid % 2 ^ 16;
    timestamp = env.now;
  };
  aodv = record default_header {
    type = uwaodv_data;
    origin = n.address;
    destination = d;
    origin_seq_no = n.sequence_number;
    lifetime_ms = milliseconds32 n.route_lifetime;
  };
  payload = payload;
}

-- The branch of `ForwardDataPacket` with no usable route.
unfoldable pub report_stale_route : Env → ℕ → Node → Node
report_stale_route env d n = elim (lookup_any_route d n) [
  | none ↦ n
  | some stale ↦
      if stale.valid
      then (let (m, precursors) =
            invalidate_route env.now d stale.dest_seq_no stale.valid_seq_no n in
          forward_rerr env d stale.dest_seq_no precursors m)
      else n
]

-- The packet as `ForwardDataPacket` sends it along a route.
abbrev pub routed_packet : RouteEntry → AodvPacket → Node → AodvPacket
routed_packet route p n = record p {
  aodv =
      if p.aodv.type == uwaodv_data && p.aodv.origin == n.address
      then record (p.aodv) { origin_seq_no = n.sequence_number }
      else p.aodv;
  ash = record (p.ash) { direction = down; next_hop = route.next_hop };
}

-- `++m_forwardedData`
abbrev pub count_forwarded : Node → Node
count_forwarded n = record n {
  stats = record (n.stats) { forwarded_data = inc32 n.stats.forwarded_data };
}

-- `ForwardDataPacket`
unfoldable pub forward_data_packet : Env → AodvPacket → ℕ → Node → Node × Bool
unfolding report_stale_route send_down
forward_data_packet env p d n = elim (lookup_route env.now d n) [
  | none ↦ (report_stale_route env d n, false)
  | some route ↦ send_down (routed_packet route p n) route.next_hop 0 (count_forwarded n)
]

-- `BroadcastDataPacket`
unfoldable pub broadcast_data_packet : AodvPacket → Node → Node × Bool
unfolding send_down
broadcast_data_packet p n =
    send_down (record p { ash = record (p.ash) { direction = down; next_hop = broadcast } })
      broadcast 0 (count_forwarded n)

-- `DeliverDataPacket`
unfoldable pub deliver_data_packet : AodvPacket → Node → Node × Bool
unfolding send_up
deliver_data_packet p n =
    send_up (record (p.ash) { direction = up; s_addr = p.aodv.origin; d_addr = p.aodv.destination })
      p.payload
      (record n { stats = record (n.stats) { delivered_data = inc32 n.stats.delivered_data } })

-- `m_pendingQueue[destination]`
abbrev pub pending : ℕ → Node → List AodvPacket
pending d n = get_or (find d n.pending_queue) []

-- `EnqueuePacket`: `operator[]` makes an empty queue where there was none.
unfoldable pub enqueue_packet : ℕ → AodvPacket → Node → Node × Bool
enqueue_packet d p n =
    let queue = pending d n in
    if leb n.max_queue_len (length queue)
    then (
      record n {
        pending_queue = insert d queue n.pending_queue;
        stats = record (n.stats) { queue_drops = inc32 n.stats.queue_drops };
      },
      false,
    )
    else (
      record n {
        pending_queue = insert d (queue ++ p ∷ []) n.pending_queue;
        stats = record (n.stats) { queued_packets = inc32 n.stats.queued_packets };
      },
      true,
    )

-- The loop of `SendQueuedPackets`. The queue is an argument, and what is left of it is written
-- back at the end; `ForwardDataPacket` does not look at the queues.
unfoldable pub flush_queue : Env → ℕ → List AodvPacket → Node → Node
flush_queue env d [] n = record n { pending_queue = erase d n.pending_queue }
flush_queue env d (p ∷ q) n = elim (has_valid_route env.now d n) [
  | true ↦ flush_queue env d q (forward_data_packet env p d n).0
  | false ↦ record n { pending_queue = insert d (p ∷ q) n.pending_queue }
]

-- `SendQueuedPackets`
unfoldable pub send_queued_packets : Env → ℕ → Node → Node
send_queued_packets env d n = elim (find d n.pending_queue) [
  | none ↦ n
  | some q ↦ flush_queue env d q n
]

-- `DropQueuedPackets`
unfoldable pub drop_queued_packets : ℕ → Node → Node
drop_queued_packets d n = elim (find d n.pending_queue) [
  | none ↦ n
  | some q ↦ record n {
    stats = record (n.stats) {
      no_route_drops = (n.stats.no_route_drops + length q % 2 ^ 32) % 2 ^ 32;
    };
    pending_queue = erase d n.pending_queue;
  }
]
