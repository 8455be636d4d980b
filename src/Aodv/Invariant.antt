-- ===== src/Aodv/Invariant.antt =====
-- What holds of a node of AquaSimUWAodvRouting at all times, with respect to the node it once was.
pub mod Routes
pub mod Sends
pub mod Discoveries
pub mod Replies
pub mod Neighbors
pub mod Requests
pub mod Receive
use aqua_sim_ng.Address.{address_key, broadcast}
use aqua_sim_ng.Aodv.Header.{uwaodv_data, uwaodv_rreq}
use aqua_sim_ng.Aodv.State.{
  AodvPacket, Config, Effect, Node, RequestKey, RouteEntry, request_key, transmit,
}
use aqua_sim_ng.Packet.{down}
use aqua_sim_ng.Prelude.{
  All, Bool, List, if◌then◌else◌, length, none, ℕ, ◌==◌, ◌||◌, ◌∷◌, ◌≡◌, ◌≤◌, ◌⊎◌,
}
use aqua_sim_ng.Prelude.KeySet.{KeySet, contains}
use aqua_sim_ng.Prelude.Map.{Map, find}

-- How often a packet was passed on, as the hop limits count: requests by their hop count, data by
-- the number of forwards.
abbrev pub relayed : AodvPacket → ℕ
relayed p =
    if p.aodv.type == uwaodv_rreq
    then p.aodv.hop_count
    else if p.aodv.type == uwaodv_data
    then p.ash.num_forwards
    else 0

-- A packet that is handed down names this node as the sender, goes down, and was not passed on
-- more often than the maximal hop count.
unfoldable pub IsSent : Node → Effect → Type 0
IsSent o (transmit _ p) =
    (p.ash.s_addr ≡ o.address) × (p.ash.direction ≡ down) × (relayed p ≤ o.max_hop_count)
IsSent o _ = Unit

-- A packet that waits is a data packet that was not passed on.
abbrev pub IsWaiting : AodvPacket → Type 0
IsWaiting p = (p.aodv.type ≡ uwaodv_data) × (p.ash.num_forwards ≡ 0)

-- A queue within its bound.
abbrev pub IsQueue : Node → ℕ × List AodvPacket → Type 0
IsQueue o (d, q) = (length q ≤ o.max_queue_len) × All IsWaiting q

-- At most the allowed number of requests; one is always made.
abbrev pub IsAttempt : Node → ℕ × ℕ → Type 0
IsAttempt o (d, attempt) = (attempt ≤ 1) ⊎ (attempt ≤ o.max_rreq_attempts)

-- No route to the node itself or to everyone.
abbrev pub IsTable : Node → Map ℕ RouteEntry → Type 0
IsTable o table = (find o.address table ≡ none) × (find broadcast table ≡ none)

-- Every request of the first set is in the second.
abbrev pub Remembers : KeySet RequestKey → KeySet RequestKey → Type 0
Remembers old new = (k : RequestKey) → (contains k old || contains k new) ≡ contains k new

-- The parts of a node that came from the node `o`.
pub record IsGood (o : Node) (address : ℕ) (config : Config) (seen : KeySet RequestKey)
    (table : Map ℕ RouteEntry) (queues : Map ℕ (List AodvPacket)) (limits attempts : Map ℕ ℕ)
    (out : List Effect) : Type 0 where
  pub address_same : address ≡ o.address
  pub config_same : config ≡ o.config
  pub remembers : Remembers o.seen_rreqs seen
  pub table_good : IsTable o table
  pub queues_good : All (IsQueue o) queues
  pub limits_good : All (λ x. x.1 ≤ o.max_hop_count) limits
  pub attempts_good : All (IsAttempt o) attempts
  pub out_good : All (IsSent o) out

abbrev pub Inv : Node → Node → Type 0
Inv o n =
    IsGood o n.address n.config n.seen_rreqs n.route_table n.pending_queue n.rreq_hop_limits
      n.rreq_attempts n.out

-- The same of a node with a result.
abbrev pub Inv2 : Node → Node × Bool → Type 0
Inv2 o r = Inv o r.0

-- One part is replaced by another good one.
module _ {o : Node} {a : ℕ} {c : Config} {seen : KeySet RequestKey} {table : Map ℕ RouteEntry}
    {queues : Map ℕ (List AodvPacket)} {limits attempts : Map ℕ ℕ} {out : List Effect}
    (i : IsGood o a c seen table queues limits attempts out) where
  pub with_seen :
      (t : KeySet RequestKey)
      → Remembers o.seen_rreqs t
      → IsGood o a c t table queues limits attempts out
  with_seen t h = record {
    address_same = i.address_same;
    config_same = i.config_same;
    remembers = h;
    table_good = i.table_good;
    queues_good = i.queues_good;
    limits_good = i.limits_good;
    attempts_good = i.attempts_good;
    out_good = i.out_good;
  }

  pub with_table :
      (t : Map ℕ RouteEntry) → IsTable o t → IsGood o a c seen t queues limits attempts out
  with_table t h = record {
    address_same = i.address_same;
    config_same = i.config_same;
    remembers = i.remembers;
    table_good = h;
    queues_good = i.queues_good;
    limits_good = i.limits_good;
    attempts_good = i.attempts_good;
    out_good = i.out_good;
  }

  pub with_queues :
      (q : Map ℕ (List AodvPacket))
      → All (IsQueue o) q
      → IsGood o a c seen table q limits attempts out
  with_queues q h = record {
    address_same = i.address_same;
    config_same = i.config_same;
    remembers = i.remembers;
    table_good = i.table_good;
    queues_good = h;
    limits_good = i.limits_good;
    attempts_good = i.attempts_good;
    out_good = i.out_good;
  }

  pub with_limits :
      (l : Map ℕ ℕ)
      → All (λ x. x.1 ≤ o.max_hop_count) l
      → IsGood o a c seen table queues l attempts out
  with_limits l h = record {
    address_same = i.address_same;
    config_same = i.config_same;
    remembers = i.remembers;
    table_good = i.table_good;
    queues_good = i.queues_good;
    limits_good = h;
    attempts_good = i.attempts_good;
    out_good = i.out_good;
  }

  pub with_attempts :
      (t : Map ℕ ℕ) → All (IsAttempt o) t → IsGood o a c seen table queues limits t out
  with_attempts t h = record {
    address_same = i.address_same;
    config_same = i.config_same;
    remembers = i.remembers;
    table_good = i.table_good;
    queues_good = i.queues_good;
    limits_good = i.limits_good;
    attempts_good = h;
    out_good = i.out_good;
  }

  pub with_effect :
      (e : Effect) → IsSent o e → IsGood o a c seen table queues limits attempts (e ∷ out)
  with_effect e h = record {
    address_same = i.address_same;
    config_same = i.config_same;
    remembers = i.remembers;
    table_good = i.table_good;
    queues_good = i.queues_good;
    limits_good = i.limits_good;
    attempts_good = i.attempts_good;
    out_good = (h, i.out_good);
  }
