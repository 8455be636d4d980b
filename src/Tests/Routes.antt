-- ===== src/Tests/Routes.antt =====
-- The route table, the neighbours, the errors and the queues.
use aqua_sim_ng.Address.{address_key}
use aqua_sim_ng.Aodv.Data.{send_queued_packets}
use aqua_sim_ng.Aodv.Data.Flush.{counted, push_sent, send_queued_packets_lem}
use aqua_sim_ng.Aodv.Header.{AodvHeader, default_header, uwaodv_rerr}
use aqua_sim_ng.Aodv.Hello.{purge_dead_neighbors}
use aqua_sim_ng.Aodv.Hello.Break.{uses}
use aqua_sim_ng.Aodv.Hello.Purge.{purge_dead_neighbors_gone}
use aqua_sim_ng.Aodv.Rerr.{recv_rerr}
use aqua_sim_ng.Aodv.Rerr.Targets.{messages, push_errors, recv_rerr_cases}
use aqua_sim_ng.Aodv.SeqNo.{is_seq_no_newer}
use aqua_sim_ng.Aodv.State.{Node, RouteEntry}
use aqua_sim_ng.Aodv.Table.{
  invalidate_route, invalidated, lookup_route, should_accept_rerr, should_update_route,
  update_route, updated_entry,
}
use aqua_sim_ng.Aodv.Table.Freshness.{Supersedes, update_route-Supersedes}
use aqua_sim_ng.Prelude.{[], arith, false, none, refl, some, true, ℕ, ◌∷◌, ◌≡◌, ◌≢◌, ◌⊎◌}
use aqua_sim_ng.Prelude.KeySet.{contains, exclude, include}
use aqua_sim_ng.Prelude.Map.{erase, find, insert}
use aqua_sim_ng.Tests.Fixtures.{env_at, packet, route, routed}

-- The table look-ups of the examples compute.
program : Unit {0}
unfolding find insert erase contains include exclude lookup_route update_route updated_entry
    should_update_route invalidated invalidate_route should_accept_rerr is_seq_no_newer
program = tt

-- The checks of examples/uw-aodv-route-freshness-check.cc.
freshness_checks :
    (should_update_route 5 route 11 true 5 ≡ true)
    × (should_update_route 5 route 10 true 2 ≡ true)
    × (should_update_route 5 route 10 true 3 ≡ false)
    × (should_update_route 5 route 9 true 1 ≡ false)
    × (should_update_route 5 route 0 false 1 ≡ false)
unfolding program
freshness_checks = (refl, refl, refl, refl, refl)

update_route-Supersedes_example :
    (e : RouteEntry) × (find 9 (update_route 5 9 4 2 12 true 100 routed).route_table ≡ some e)
    × Supersedes 5 e route
    × ((k : ℕ)
        → 9 ≢ k
        → find k (update_route 5 9 4 2 12 true 100 routed).route_table ≡ find k routed.route_table)
unfolding program
update_route-Supersedes_example =
    update_route-Supersedes 5 4 2 12 true 100 9 routed route refl refl refl

-- An error from neighbour 2 about 9.
abbrev rerr : AodvHeader
rerr = record default_header { type = uwaodv_rerr; origin = 2; destination = 9; dest_seq_no = 11 }

recv_rerr_cases_example :
    let r = recv_rerr (env_at 5) rerr 3 routed in
    ((should_accept_rerr 9 11 routed ≡ false) × (r ≡ (routed, false)))
    ⊎ ((e : RouteEntry) × (find 9 routed.route_table ≡ some e)
        × (r.1 ≡ true)
        × ((t : ℕ) → lookup_route t 9 r.0 ≡ none)
        × ((k : ℕ) → 9 ≢ k → find k r.0.route_table ≡ find k routed.route_table)
        × (messages r.0.out ≡ push_errors 1 9 11 (exclude 3 e.precursors) (messages routed.out))
        × (contains 3 (exclude 3 e.precursors) ≡ false))
recv_rerr_cases_example = recv_rerr_cases (env_at 5) rerr 3 routed

purge_dead_neighbors_gone_example :
    (find 2 (purge_dead_neighbors (env_at 30000000000) routed).neighbors ≡ none)
    × ((d : ℕ) → uses 2 d (purge_dead_neighbors (env_at 30000000000) routed).route_table ≡ false)
unfolding program
purge_dead_neighbors_gone_example =
    purge_dead_neighbors_gone (env_at 30000000000) 2 0 routed refl refl (omega arith)

-- Two packets wait for 9.
abbrev waiting : Node
waiting = record routed { pending_queue = (9, packet ∷ packet ∷ []) ∷ [] }

send_queued_packets_lem_example :
    let m = send_queued_packets (env_at 5) 9 waiting in
    (m ≡ record waiting {
      out = push_sent route waiting (packet ∷ packet ∷ []) [];
      pending_queue = m.pending_queue;
      stats = record (waiting.stats) { forwarded_data = 2 };
    })
    × (find 9 m.pending_queue ≡ none)
    × ((k : ℕ) → 9 ≢ k → find k m.pending_queue ≡ find k waiting.pending_queue)
unfolding program counted
send_queued_packets_lem_example =
    send_queued_packets_lem (env_at 5) 9 route (packet ∷ packet ∷ []) waiting refl refl
