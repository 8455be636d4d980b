-- ===== src/Aodv/State/Frame.antt =====
-- States that differ at most in the effects, the counters and the packets created so far.
use aqua_sim_ng.Aodv.State.{Node}
use aqua_sim_ng.Prelude.{arith, refl, ◌≡◌}

pub record SameState (n m : Node) : Type 0 where
  pub address : m.address ≡ n.address
  pub config : m.config ≡ n.config
  pub route_table : m.route_table ≡ n.route_table
  pub pending_queue : m.pending_queue ≡ n.pending_queue
  pub rreq_attempts : m.rreq_attempts ≡ n.rreq_attempts
  pub rreq_hop_limits : m.rreq_hop_limits ≡ n.rreq_hop_limits
  pub rreq_collections : m.rreq_collections ≡ n.rreq_collections
  pub neighbors : m.neighbors ≡ n.neighbors
  pub active_discoveries : m.active_discoveries ≡ n.active_discoveries
  pub seen_rreqs : m.seen_rreqs ≡ n.seen_rreqs
  pub sequence_number : m.sequence_number ≡ n.sequence_number
  pub enable_hello : m.enable_hello ≡ n.enable_hello

pub SameState-refl : (n : Node) → SameState n n
SameState-refl n = assumption refl

pub SameState-trans : {n m k : Node} → SameState n m → SameState m k → SameState n k
SameState-trans a b = ground arith

-- States that differ at most in the routes, too.
pub record SameButRoutes (n m : Node) : Type 0 where
  pub address : m.address ≡ n.address
  pub config : m.config ≡ n.config
  pub pending_queue : m.pending_queue ≡ n.pending_queue
  pub rreq_attempts : m.rreq_attempts ≡ n.rreq_attempts
  pub rreq_hop_limits : m.rreq_hop_limits ≡ n.rreq_hop_limits
  pub rreq_collections : m.rreq_collections ≡ n.rreq_collections
  pub neighbors : m.neighbors ≡ n.neighbors
  pub active_discoveries : m.active_discoveries ≡ n.active_discoveries
  pub seen_rreqs : m.seen_rreqs ≡ n.seen_rreqs
  pub sequence_number : m.sequence_number ≡ n.sequence_number
  pub enable_hello : m.enable_hello ≡ n.enable_hello

pub SameState-routes : {n m : Node} → SameState n m → SameButRoutes n m
SameState-routes s = ground arith

pub SameButRoutes-trans : {n m k : Node} → SameButRoutes n m → SameButRoutes m k → SameButRoutes n k
SameButRoutes-trans a b = ground arith
