-- ===== src/Aodv/Data/Flush.antt =====
-- SendQueuedPackets, with a route and without.
use aqua_sim_ng.Address.{address_key}
use aqua_sim_ng.Aodv.Data.{
  count_forwarded, flush_queue, forward_data_packet, routed_packet, send_queued_packets,
}
use aqua_sim_ng.Aodv.State.{AodvPacket, Effect, Env, Node, RouteEntry, emit, inc32, transmit}
use aqua_sim_ng.Aodv.Table.{lookup_route}
use aqua_sim_ng.Aodv.Table.Frame.{lookup_route_same}
use aqua_sim_ng.Packet.{down}
use aqua_sim_ng.Prelude.{==_iff, List, [], ap, arith, none, refl, some, true, ℕ, ◌∙◌, ◌∷◌, ◌≡◌, ◌≢◌}
use aqua_sim_ng.Prelude.Map.{erase, find, find-erase_ne, find-erase_self, find-insert}

-- A packet as it is handed down along a route: to the next hop, with no delay, under the node's
-- address, and with the node's own sequence number if it is a data packet from here.
unfoldable pub sent_along : RouteEntry → Node → AodvPacket → Effect
sent_along route n p =
    let q = routed_packet route p n in
    transmit 0 (record q {
      ash = record (q.ash) { direction = down; next_hop = route.next_hop; s_addr = n.address };
    })

-- A queue of packets handed down in order, in front of what was done before.
unfoldable pub push_sent : RouteEntry → Node → List AodvPacket → List Effect → List Effect
push_sent route n [] acc = acc
push_sent route n (p ∷ q) acc = push_sent route n q (sent_along route n p ∷ acc)

pub push_sent_same :
    (route : RouteEntry) (n m : Node) (q : List AodvPacket) (acc : List Effect)
    → m.address ≡ n.address
    → m.sequence_number ≡ n.sequence_number
    → push_sent route m q acc ≡ push_sent route n q acc
unfolding push_sent sent_along
push_sent_same route n m [] acc a s = refl
push_sent_same route n m (p ∷ q) acc a s =
    push_sent_same route n m q (sent_along route m p ∷ acc) a s ∙ rw (a, s, sent_along) refl

-- A 32-bit counter, one more for each packet.
unfoldable pub counted : List AodvPacket → ℕ → ℕ
counted [] k = k
counted (p ∷ q) k = counted q (inc32 k)

-- The node after its queue for a destination went along a route.
abbrev after_flush : ℕ → RouteEntry → List AodvPacket → Node → Node
after_flush d route q n = record n {
  out = push_sent route n q n.out;
  pending_queue = erase d n.pending_queue;
  stats = record (n.stats) { forwarded_data = counted q n.stats.forwarded_data };
}

module _ (env : Env) (d : ℕ) (route : RouteEntry) where
  -- The node after a packet went along the route.
  abbrev after_forward : AodvPacket → Node → Node
  after_forward p n = emit (sent_along route n p) (count_forwarded n)

  pub forward_data_packet_routed :
      (p : AodvPacket) (n : Node)
      → lookup_route env.now d n ≡ some route
      → forward_data_packet env p d n ≡ (after_forward p n, true)
  unfolding forward_data_packet sent_along
  forward_data_packet_routed p n found = rw (found, forward_data_packet) refl

  flush_queue_lem :
      (q : List AodvPacket) (n : Node)
      → lookup_route env.now d n ≡ some route
      → flush_queue env d q n ≡ after_flush d route q n
  unfolding flush_queue push_sent counted
  flush_queue_lem [] n found = refl
  flush_queue_lem (p ∷ q) n found =
      let m = after_forward p n in
      let found' = lookup_route_same env.now d n m refl ∙ found in
      let same = push_sent_same route n m q m.out refl refl in
      rw (found, flush_queue)
        (rw (forward_data_packet_routed p n found) (
          flush_queue_lem q m found' ∙ ap (λ o. record (after_flush d route q m) { out = o }) same))

  -- With a usable route SendQueuedPackets hands down every packet that waits for the destination, in
  -- order and along the route. Then no queue is left for the destination, and each packet is counted as
  -- forwarded. The other queues stay, and so does everything else.
  pub send_queued_packets_lem :
      (q : List AodvPacket) (n : Node)
      → find d n.pending_queue ≡ some q
      → lookup_route env.now d n ≡ some route
      → let m = send_queued_packets env d n in
        (m ≡ record n {
          out = push_sent route n q n.out;
          pending_queue = m.pending_queue;
          stats = record (n.stats) { forwarded_data = counted q n.stats.forwarded_data };
        })
        × (find d m.pending_queue ≡ none)
        × ((k : ℕ) → d ≢ k → find k m.pending_queue ≡ find k n.pending_queue)
  unfolding send_queued_packets
  send_queued_packets_lem q n waiting found =
      let l = flush_queue_lem q n found in
      rw (waiting, send_queued_packets)
        (rw l (refl, find-erase_self d n.pending_queue, λ k h. find-erase_ne d k n.pending_queue h))

-- Without a usable route SendQueuedPackets sends nothing and keeps every packet that waits.
send_queued_packets_stuck :
    (env : Env) (d : ℕ) (p : AodvPacket) (q : List AodvPacket) (n : Node)
    → find d n.pending_queue ≡ some (p ∷ q)
    → lookup_route env.now d n ≡ none
    → let m = send_queued_packets env d n in
      (m ≡ record n { pending_queue = m.pending_queue })
      × ((k : ℕ) → find k m.pending_queue ≡ find k n.pending_queue)
unfolding send_queued_packets flush_queue
send_queued_packets_stuck env d p q n waiting missing =
    rw (waiting, send_queued_packets)
      (rw (missing, flush_queue)
        (refl, λ k. ground (arith, find-insert d k (p ∷ q) n.pending_queue, ==_iff d k)))
