-- ===== src/Aodv/Table.antt =====
-- The route table: LookupRoute, LookupAnyRoute, ShouldUpdateRoute, RouteIsFreshEnough, UpdateRoute,
-- AddPrecursor, InvalidateRoute, ShouldAcceptRerr, IsBroadcastDestination.
pub mod Frame
pub mod Freshness
pub mod Invalidate
use aqua_sim_ng.Address.{address_key, broadcast}
use aqua_sim_ng.Aodv.Header.{AodvHeader, is_unknown_dest_seq_no}
use aqua_sim_ng.Aodv.SeqNo.{is_seq_no_newer}
use aqua_sim_ng.Aodv.State.{Node, RouteEntry}
use aqua_sim_ng.Prelude.{
  Bool, Option, [], false, if◌then◌else◌, is_some, ltb, none, not, some, true, ℕ, ◌&&◌, ◌+◌, ◌==◌,
  ◌||◌,
}
use aqua_sim_ng.Prelude.KeySet.{KeySet, include}
use aqua_sim_ng.Prelude.Map.{find, insert}

-- `IsBroadcastDestination`
unfoldable pub is_broadcast_destination : ℕ → Bool
is_broadcast_destination d = d == broadcast || d == 65535

-- `LookupAnyRoute`
abbrev pub lookup_any_route : ℕ → Node → Option RouteEntry
lookup_any_route d n = find d n.route_table

-- `!valid || expire < Now()`
abbrev pub is_stale : ℕ → RouteEntry → Bool
is_stale now e = not e.valid || ltb e.expire now

-- `LookupRoute`
unfoldable pub lookup_route : ℕ → ℕ → Node → Option RouteEntry
lookup_route now d n = elim (find d n.route_table) [
  | none ↦ none
  | some e ↦ if is_stale now e then none else some e
]

-- `HasValidRoute`
abbrev pub has_valid_route : ℕ → ℕ → Node → Bool
has_valid_route now d n = is_some (lookup_route now d n)

-- `ShouldUpdateRoute`
unfoldable pub should_update_route : ℕ → RouteEntry → ℕ → Bool → ℕ → Bool
should_update_route now current seq_no valid_seq_no hop_count =
    if is_stale now current
    then true
    else if valid_seq_no
    then (if not current.valid_seq_no
        then true
        else if is_seq_no_newer seq_no current.dest_seq_no
        then true
        else seq_no == current.dest_seq_no && ltb hop_count current.hop_count)
    else not current.valid_seq_no && ltb hop_count current.hop_count

-- `RouteIsFreshEnough`
unfoldable pub route_is_fresh_enough : ℕ → RouteEntry → AodvHeader → Bool
route_is_fresh_enough now route rreq =
    if is_stale now route
    then false
    else if is_unknown_dest_seq_no rreq
    then true
    else route.valid_seq_no
      && (route.dest_seq_no == rreq.dest_seq_no
          || is_seq_no_newer route.dest_seq_no rreq.dest_seq_no)

-- The entry that `UpdateRoute` writes when it refreshes the lifetime of the current one.
abbrev pub refreshed : ℕ → ℕ → RouteEntry → RouteEntry
refreshed now lifetime current = record current { expire = now + lifetime }

-- The test for a refresh.
abbrev pub same_route : RouteEntry → ℕ → Bool → ℕ → Bool
same_route current seq_no valid_seq_no hop_count =
    current.valid
    && current.hop_count == hop_count
    && (not valid_seq_no || not current.valid_seq_no || current.dest_seq_no == seq_no)

-- What `UpdateRoute` does with the entry that it finds.
unfoldable pub updated_entry : ℕ → Option RouteEntry → ℕ → ℕ → ℕ → Bool → ℕ → Option RouteEntry
updated_entry now none next_hop hop_count seq_no valid_seq_no lifetime = some (record {
  next_hop = next_hop;
  hop_count = hop_count;
  dest_seq_no = seq_no;
  valid_seq_no = valid_seq_no;
  valid = true;
  expire = now + lifetime;
  precursors = [];
})
updated_entry now (some current) next_hop hop_count seq_no valid_seq_no lifetime =
    if should_update_route now current seq_no valid_seq_no hop_count
    then some (record {
      next_hop = next_hop;
      hop_count = hop_count;
      dest_seq_no = seq_no;
      valid_seq_no = valid_seq_no;
      valid = true;
      expire = now + lifetime;
      precursors = current.precursors;
    })
    else if same_route current seq_no valid_seq_no hop_count
    then some (refreshed now lifetime current)
    else none

abbrev pub write_entry : ℕ → Option RouteEntry → Node → Node
write_entry d none n = n
write_entry d (some e) n = record n { route_table = insert d e n.route_table }

-- `UpdateRoute`
unfoldable pub update_route : ℕ → ℕ → ℕ → ℕ → ℕ → Bool → ℕ → Node → Node
update_route now d next_hop hop_count seq_no valid_seq_no lifetime n =
    if d == broadcast || d == n.address
    then n
    else write_entry d
        (updated_entry now (lookup_any_route d n) next_hop hop_count seq_no valid_seq_no lifetime) n

-- `AddPrecursor`
unfoldable pub add_precursor : ℕ → ℕ → Node → Node
unfolding is_broadcast_destination
add_precursor d precursor n =
    if precursor == n.address || precursor == broadcast || is_broadcast_destination d
    then n
    else elim (find d n.route_table) [
      | none ↦ n
      | some e ↦ record n {
        route_table =
            insert d (record e { precursors = include precursor e.precursors }) n.route_table;
      }
    ]

-- The entry as `InvalidateRoute` leaves it.
unfoldable pub invalidated : ℕ → ℕ → Bool → RouteEntry → RouteEntry
invalidated now seq_no valid_seq_no e =
    if valid_seq_no
      && (not e.valid_seq_no || seq_no == e.dest_seq_no || is_seq_no_newer seq_no e.dest_seq_no)
    then record e { valid = false; expire = now; dest_seq_no = seq_no; valid_seq_no = true }
    else record e { valid = false; expire = now }

-- `InvalidateRoute`: the node, and the precursors of the route.
unfoldable pub invalidate_route : ℕ → ℕ → ℕ → Bool → Node → Node × KeySet ℕ
invalidate_route now d seq_no valid_seq_no n = elim (find d n.route_table) [
  | none ↦ (n, [])
  | some e ↦ (
    record n { route_table = insert d (invalidated now seq_no valid_seq_no e) n.route_table },
    e.precursors,
  )
]

-- `ShouldAcceptRerr`
unfoldable pub should_accept_rerr : ℕ → ℕ → Node → Bool
should_accept_rerr d seq_no n = elim (find d n.route_table) [
  | none ↦ false
  | some e ↦
      if not e.valid_seq_no
      then true
      else seq_no == e.dest_seq_no || is_seq_no_newer seq_no e.dest_seq_no
]
