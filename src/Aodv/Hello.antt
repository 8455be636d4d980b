-- ===== src/Aodv/Hello.antt =====
-- Neighbours: MaybeStartHello, SendHello, UpdateNeighbor, PurgeDeadNeighbors,
-- InvalidateRoutesViaNeighbor.
pub mod Break
pub mod Purge
use aqua_sim_ng.Address.{address_key, broadcast}
use aqua_sim_ng.Aodv.Header.{default_header, uwaodv_hello}
use aqua_sim_ng.Aodv.Rerr.{forward_rerr}
use aqua_sim_ng.Aodv.Send.{control_ash, create_packet, get_rreq_jitter, milliseconds32, send_down}
use aqua_sim_ng.Aodv.State.{AodvPacket, Env, Node, RouteEntry, emit, inc32, schedule_hello}
use aqua_sim_ng.Aodv.Table.{invalidate_route, lookup_any_route}
use aqua_sim_ng.Packet.{Payload}
use aqua_sim_ng.Prelude.{
  Bool, List, [], if◌then◌else◌, ltb, none, not, some, true, ℕ, ◌&&◌, ◌-◌, ◌==◌, ◌||◌, ◌∷◌,
}
use aqua_sim_ng.Prelude.Map.{Map, erase, insert}

-- `MaybeStartHello`
unfoldable pub maybe_start_hello : Env → Node → Node
unfolding get_rreq_jitter
maybe_start_hello env n =
    if not n.enable_hello || n.hello_started
    then n
    else (let (m, jitter) = get_rreq_jitter env (record n { hello_started = true }) in
        emit (schedule_hello jitter) m)

-- `UpdateNeighbor`
unfoldable pub update_neighbor : ℕ → ℕ → Node → Node
update_neighbor now neighbor n =
    if not n.enable_hello || (neighbor == n.address || neighbor == broadcast)
    then n
    else record n { neighbors = insert neighbor now n.neighbors }

-- The destinations of valid routes through a neighbour, in the order of the table.
unfoldable pub affected_destinations : ℕ → Map ℕ RouteEntry → List ℕ
affected_destinations neighbor [] = []
affected_destinations neighbor ((d, e) ∷ table) =
    if e.valid && e.next_hop == neighbor
    then d ∷ affected_destinations neighbor table
    else affected_destinations neighbor table

-- The body of the second loop of `InvalidateRoutesViaNeighbor`.
unfoldable pub break_route : Env → ℕ → Node → Node
break_route env d n = elim (lookup_any_route d n) [
  | none ↦ n
  | some route ↦
      if not route.valid
      then n
      else (let seq_no =
            if route.valid_seq_no then inc32 route.dest_seq_no else n.sequence_number in
          let (m, precursors) = invalidate_route env.now d seq_no true n in
          forward_rerr env d seq_no precursors m)
]

unfoldable pub break_routes : Env → List ℕ → Node → Node
break_routes env [] n = n
break_routes env (d ∷ ds) n = break_routes env ds (break_route env d n)

-- `InvalidateRoutesViaNeighbor`
unfoldable pub invalidate_routes_via_neighbor : Env → ℕ → Node → Node
invalidate_routes_via_neighbor env neighbor n =
    break_routes env (affected_destinations neighbor n.route_table) n

-- The neighbours that were not heard of for longer than allowed, in the order of the map.
unfoldable pub lost_neighbors : ℕ → ℕ → Map ℕ ℕ → List ℕ
lost_neighbors now allowed [] = []
lost_neighbors now allowed ((a, heard) ∷ m) =
    if ltb allowed (now - heard)
    then a ∷ lost_neighbors now allowed m
    else lost_neighbors now allowed m

-- The second loop of `PurgeDeadNeighbors`.
unfoldable pub drop_neighbors : Env → List ℕ → Node → Node
drop_neighbors env [] n = n
drop_neighbors env (a ∷ as') n =
    drop_neighbors env as'
      (invalidate_routes_via_neighbor env a (record n { neighbors = erase a n.neighbors }))

-- `PurgeDeadNeighbors`
unfoldable pub purge_dead_neighbors : Env → Node → Node
purge_dead_neighbors env n =
    if not n.enable_hello
    then n
    else drop_neighbors env
        (lost_neighbors env.now (env.scale_seconds n.hello_interval n.allowed_hello_loss)
          n.neighbors)
        n

-- The packet of `SendHello`.
abbrev pub hello_packet : Env → Node → Payload → AodvPacket
hello_packet env n payload = record {
  ash = control_ash env n broadcast broadcast payload;
  aodv = record default_header {
    type = uwaodv_hello;
    hop_limit = 1;
    origin = n.address;
    destination = broadcast;
    origin_seq_no = n.sequence_number;
    dest_seq_no = n.sequence_number;
    lifetime_ms = milliseconds32 n.hello_interval;
  };
  payload = payload;
}

-- `SendHello`
unfoldable pub send_hello : Env → Node → Node
unfolding create_packet send_down
send_hello env n =
    if not n.enable_hello
    then n
    else (let (m, payload) = create_packet env (purge_dead_neighbors env n) in
        let m1 = record m { stats = record (m.stats) { hello_tx = inc32 m.stats.hello_tx } } in
        emit (schedule_hello m.hello_interval)
          (send_down (hello_packet env m payload) broadcast 0 m1).0)

-- `RecvHello`
unfoldable pub recv_hello : Env → ℕ → Node → Node × Bool
recv_hello env previous_hop n = (update_neighbor env.now previous_hop n, true)
