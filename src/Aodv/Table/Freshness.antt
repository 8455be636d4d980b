-- ===== src/Aodv/Table/Freshness.antt =====
-- UpdateRoute on a route that is there, and where there is none.
use aqua_sim_ng.Address.{address_key, broadcast}
use aqua_sim_ng.Aodv.SeqNo.{is_seq_no_newer}
use aqua_sim_ng.Aodv.State.{Node, RouteEntry}
use aqua_sim_ng.Aodv.Table.{
  is_stale, lookup_route, should_update_route, update_route, updated_entry,
}
use aqua_sim_ng.Aodv.Table.Frame.{find-write_entry_ne, find-write_entry_self}
use aqua_sim_ng.Prelude.{
  Bool, Bool-cases, [], arith, false, get_or, inl, inr, none, refl, some, true, ℕ, ◌+◌, ◌==◌, ◌||◌,
  ◌≡◌, ◌≢◌, ◌≤◌, ◌⊎◌,
}
use aqua_sim_ng.Prelude.KeySet.{KeySet}
use aqua_sim_ng.Prelude.Map.{find, find-insert}

-- At least as fresh: a newer destination sequence number, or the same and no more hops.
abbrev pub IsFresher : RouteEntry → RouteEntry → Type 0
IsFresher e' e =
    (is_seq_no_newer e'.dest_seq_no e.dest_seq_no ≡ true)
    ⊎ ((e'.dest_seq_no ≡ e.dest_seq_no) × (e'.hop_count ≤ e.hop_count))

-- A usable route with a known sequence number, at least as fresh as the other, with its precursors.
pub record Supersedes (now : ℕ) (e' e : RouteEntry) : Type 0 where
  pub fresher : IsFresher e' e
  pub live : is_stale now e' ≡ false
  pub known : e'.valid_seq_no ≡ true
  pub precursors : e'.precursors ≡ e.precursors

module _ (now next_hop hop_count seq_no : ℕ) (valid_seq_no : Bool) (lifetime : ℕ) where
  -- The entry after `UpdateRoute`, where there is one before.
  abbrev entry_after : RouteEntry → RouteEntry
  entry_after e =
      get_or (updated_entry now (some e) next_hop hop_count seq_no valid_seq_no lifetime) e

  entry_after-Supersedes :
      (e : RouteEntry)
      → is_stale now e ≡ false
      → e.valid_seq_no ≡ true
      → Supersedes now (entry_after e) e
  unfolding updated_entry should_update_route
  entry_after-Supersedes e live known = record {
    fresher = ground arith;
    live = ground arith;
    known = ground arith;
    precursors = ground arith;
  }

  -- Where the table has a usable route with a known sequence number, UpdateRoute leaves a usable
  -- route there, with a known sequence number that is newer, or the same with no more hops, and
  -- with the same precursors. The other destinations keep their entries.
  pub update_route-Supersedes :
      (d : ℕ) (n : Node) (e : RouteEntry)
      → find d n.route_table ≡ some e
      → is_stale now e ≡ false
      → e.valid_seq_no ≡ true
      → let m = update_route now d next_hop hop_count seq_no valid_seq_no lifetime n in
        (e' : RouteEntry) × (find d m.route_table ≡ some e')
        × Supersedes now e' e
        × ((k : ℕ) → d ≢ k → find k m.route_table ≡ find k n.route_table)
  unfolding update_route
  update_route-Supersedes d n e found live known =
      elim (Bool-cases (d == broadcast || d == n.address)) [
        | inl skipped ↦ (
          e,
          rw (skipped, update_route) found,
          record { fresher = ground arith; live = live; known = known; precursors = refl },
          λ k h. rw (skipped, update_route) refl,
        )
        | inr taken ↦
            rw (taken, update_route, found)
              (
                entry_after e,
                find-write_entry_self d _ n e found,
                entry_after-Supersedes e live known,
                λ k h. find-write_entry_ne d k _ n h,
              )
      ]

-- Where the table has no usable route to a destination other than the node itself and the
-- broadcast address, UpdateRoute makes exactly the route that it is given, until the lifetime ends.
pub lookup_route-update_route :
    (now d next_hop hop_count seq_no : ℕ) (valid_seq_no : Bool) (lifetime : ℕ) (n : Node)
    → d ≢ broadcast
    → d ≢ n.address
    → lookup_route now d n ≡ none
    → (e : RouteEntry) × (lookup_route now d
          (update_route now d next_hop hop_count seq_no valid_seq_no lifetime n)
        ≡ some e)
      × (e.next_hop ≡ next_hop)
      × (e.hop_count ≡ hop_count)
      × (e.dest_seq_no ≡ seq_no)
      × (e.valid_seq_no ≡ valid_seq_no)
      × (e.expire ≡ now + lifetime)
unfolding update_route lookup_route updated_entry should_update_route
lookup_route-update_route now d next_hop hop_count seq_no valid_seq_no lifetime n h h' missing = (
  new_entry,
  ground (arith, find-insert d d new_entry n.route_table),
  refl,
  refl,
  refl,
  refl,
  refl,
)
  where
    old : KeySet ℕ
    old = elim (find d n.route_table) [ none ↦ [] | some e ↦ e.precursors ]

    new_entry : RouteEntry
    new_entry = record {
      next_hop = next_hop;
      hop_count = hop_count;
      dest_seq_no = seq_no;
      valid_seq_no = valid_seq_no;
      valid = true;
      expire = now + lifetime;
      precursors = old;
    }
