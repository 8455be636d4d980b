-- ===== src/Tests/Discoveries.antt =====
-- The expanding ring, the requests and their timeouts.
use aqua_sim_ng.Address.{address_key}
use aqua_sim_ng.Aodv.Data.{send_queued_packets}
use aqua_sim_ng.Aodv.Discovery.{
  get_rreq_hop_limit, get_rreq_timeout, net_bound, next_hop_limit, route_request_timeout,
  start_route_discovery,
}
use aqua_sim_ng.Aodv.Discovery.Ends.{discovery_ends}
use aqua_sim_ng.Aodv.Discovery.HopLimit.{next_hop_limit_grows}
use aqua_sim_ng.Aodv.Discovery.Retries.{IsOver, timeouts}
use aqua_sim_ng.Aodv.Discovery.Stuck.{stuck_discovery, timers}
use aqua_sim_ng.Aodv.Recv.{output_packet}
use aqua_sim_ng.Aodv.Rerr.Targets.{messages}
use aqua_sim_ng.Aodv.State.{Node}
use aqua_sim_ng.Aodv.Table.{is_broadcast_destination, lookup_route}
use aqua_sim_ng.Prelude.{[], arith, length, refl, some, true, ℕ, ◌<◌, ◌∷◌, ◌≡◌, ◌≤◌, ◌⊎◌}
use aqua_sim_ng.Prelude.KeySet.{contains, exclude, include}
use aqua_sim_ng.Prelude.Map.{erase, find, insert}
use aqua_sim_ng.Tests.Fixtures.{alone, env_at, packet, route, routed}

look_ups : Unit {0}
unfolding find insert erase contains include exclude lookup_route next_hop_limit get_rreq_timeout
    get_rreq_hop_limit is_broadcast_destination
look_ups = tt

-- The checks of examples/uw-aodv-route-freshness-check.cc on the ring.
abbrev ring_after : ℕ → Node → Node
ring_after attempt n = (get_rreq_hop_limit 9 attempt n).0

ring_checks :
    ((get_rreq_hop_limit 9 1 alone).1 ≡ 1)
    × ((get_rreq_hop_limit 9 2 (ring_after 1 alone)).1 ≡ 3)
    × ((get_rreq_hop_limit 9 3 (ring_after 2 (ring_after 1 alone))).1 ≡ 5)
    × (get_rreq_timeout 1 alone ≡ 3000000000)
    × (get_rreq_timeout 5 alone ≡ 7000000000)
unfolding look_ups
ring_checks = (refl, refl, refl, refl, refl)

-- The ring was at 7 for destination 9.
abbrev ringed : Node
ringed = record alone { rreq_hop_limits = (9, 7) ∷ [] }

next_hop_limit_grows_example :
    (7 ≤ next_hop_limit 9 5 ringed)
    × ((next_hop_limit 9 5 ringed ≡ net_bound ringed) ⊎ (7 < next_hop_limit 9 5 ringed))
unfolding look_ups
next_hop_limit_grows_example =
    next_hop_limit_grows 9 5 7 ringed (omega arith) refl (omega arith) (omega arith)

-- One packet waits for 9, with no route to it.
abbrev searching : Node
searching = record alone { pending_queue = (9, packet ∷ []) ∷ [] }

discovery_ends_example :
    let m =
      timeouts
        (env_at 4 ∷ env_at 8 ∷ env_at 12 ∷ [])
        9
        1
        (start_route_discovery (env_at 0) 9 searching) in
    IsOver 9 (packet ∷ []) searching m × (length (messages m.out) ≡ 3)
unfolding look_ups messages
discovery_ends_example =
    discovery_ends (env_at 0) (env_at 4 ∷ env_at 8 ∷ env_at 12 ∷ []) 9 searching (packet ∷ []) refl
      (λ t. refl) (omega arith) refl

-- The route to 9 came while its discovery was active.
abbrev marked : Node
marked = record routed { active_discoveries = 9 ∷ []; rreq_attempts = (9, 1) ∷ [] }

stuck_discovery_example :
    let r = output_packet (env_at 101) packet 9 (route_request_timeout (env_at 5) 9 1 marked) in
    (r.1 ≡ true)
    × (timers r.0.out ≡ 0)
    × (find 9 r.0.pending_queue ≡ some (packet ∷ []))
    × (contains 9 r.0.active_discoveries ≡ true)
unfolding look_ups timers route_request_timeout send_queued_packets
stuck_discovery_example =
    stuck_discovery (env_at 5) (env_at 101) 9 1 route packet marked refl refl (omega arith) refl
      (omega arith) refl
