-- ===== src/Aodv/Discovery/HopLimit.antt =====
-- The expanding ring.
use aqua_sim_ng.Address.{address_key}
use aqua_sim_ng.Aodv.Discovery.{get_rreq_timeout, net_bound, next_hop_limit}
use aqua_sim_ng.Aodv.State.{Node}
use aqua_sim_ng.Prelude.{arith, some, ℕ, ◌*◌, ◌+◌, ◌<◌, ◌^◌, ◌≡◌, ◌≤◌, ◌⊎◌}
use aqua_sim_ng.Prelude.Map.{find}

-- The bound of the ring never exceeds the maximal hop count.
pub net_bound-le : (n : Node) → net_bound n ≤ n.max_hop_count
net_bound-le n = ground arith

-- No request is sent with a hop limit above the bound of the ring.
pub next_hop_limit-le : (d attempt : ℕ) (n : Node) → next_hop_limit d attempt n ≤ net_bound n
unfolding next_hop_limit
next_hop_limit-le d attempt n = ground arith

-- From one request to the next the hop limit grows, until it is the bound of the ring: it never
-- falls, and it is the bound or larger than before.
pub next_hop_limit_grows :
    (d attempt h : ℕ) (n : Node)
    → 1 < attempt
    → find d n.rreq_hop_limits ≡ some h
    → h ≤ net_bound n
    → n.max_hop_count < 2 ^ 16
    → (h ≤ next_hop_limit d attempt n)
      × ((next_hop_limit d attempt n ≡ net_bound n) ⊎ (h < next_hop_limit d attempt n))
unfolding next_hop_limit
next_hop_limit_grows d attempt h n later last bounded wide = ground arith

-- The wait for an answer is never shorter than the configured one, nor than the time that two
-- traversals of the buffered ring take, and is one of the two.
pub get_rreq_timeout_bounds :
    (hop_limit : ℕ) (n : Node)
    → let ring = n.node_traversal_time * (2 * (hop_limit + n.timeout_buffer)) in
      let t = get_rreq_timeout hop_limit n in
      (n.rreq_timeout ≤ t) × (ring ≤ t) × ((t ≡ ring) ⊎ (t ≡ n.rreq_timeout))
unfolding get_rreq_timeout
get_rreq_timeout_bounds hop_limit n = (ground arith, ground arith, ground arith)
