-- ===== src/Aodv/State.antt =====
-- The state of AquaSimUWAodvRouting, the attributes that configure it, and what a call does to the
-- rest of the simulator.
pub mod Frame
use aqua_sim_ng.Aodv.Header.{AodvHeader}
use aqua_sim_ng.Packet.{AquaSimHeader, Payload}
use aqua_sim_ng.Prelude.{
  Bool, List, [], arith, false, if◌then◌else◌, ltb, true, ℕ, ◌%◌, ◌&&◌, ◌*◌, ◌+◌, ◌==◌, ◌^◌, ◌↔◌,
  ◌∷◌, ◌≡◌,
}
use aqua_sim_ng.Prelude.KeySet.{KeySet}
use aqua_sim_ng.Prelude.Map.{Key, Map}

-- `RouteEntry`
pub record RouteEntry : Type 0 where
  pub next_hop : ℕ
  pub hop_count : ℕ
  pub dest_seq_no : ℕ
  pub valid_seq_no : Bool
  pub valid : Bool
  pub expire : ℕ
  pub precursors : KeySet ℕ

-- `RreqCandidate`
pub record RreqCandidate : Type 0 where
  pub previous_hop : ℕ
  pub hop_count : ℕ
  pub origin_seq_no : ℕ
  pub receive_time : ℕ

-- `RreqCollection`
pub record RreqCollection : Type 0 where
  pub best : RreqCandidate
  pub has_candidate : Bool

-- `RequestKey`, in the order of std::pair.
pub record RequestKey : Type 0 where
  pub first : ℕ
  pub second : ℕ

abbrev pub request_eqb : RequestKey → RequestKey → Bool
request_eqb a b = a.first == b.first && a.second == b.second

pub request_eqb_iff : (a b : RequestKey) → (request_eqb a b ≡ true) ↔ (a ≡ b)
request_eqb_iff a b = ground arith

instance abbrev pub request_key : Key RequestKey
request_key = record {
  eqb = request_eqb;
  ltb = λ a b. if a.first == b.first then ltb a.second b.second else ltb a.first b.first;
  eqb_iff = request_eqb_iff;
}

-- A packet with the Aqua-Sim header on top of the AODV header.
pub record AodvPacket : Type 0 where
  pub ash : AquaSimHeader
  pub aodv : AodvHeader
  pub payload : Payload

-- A packet that is handed to `Recv`: from the layer above, or tagged PT_UW_AODV.
pub data Packet : Type 0 where
  plain : AquaSimHeader → Payload → Packet
  tagged : AodvPacket → Packet

-- What a call asks of the simulator and of the layers below and above.
pub data Effect : Type 0 where
  -- Schedule(delay, SendPacket, p)
  transmit : ℕ → AodvPacket → Effect
  -- the packet is given to the layer above
  deliver : AquaSimHeader → Payload → Effect
  -- Schedule(delay, RouteRequestTimeout, destination, attempt)
  schedule_timeout : ℕ → ℕ → ℕ → Effect
  -- Schedule(delay, SendCollectedRrep, key)
  schedule_rrep : ℕ → RequestKey → Effect
  -- Schedule(delay, SendHello)
  schedule_hello : ℕ → Effect

-- The attributes.
pub record Config : Type 0 where
  pub max_queue_len : ℕ
  pub max_rreq_attempts : ℕ
  pub max_hop_count : ℕ
  pub ttl_start : ℕ
  pub ttl_increment : ℕ
  pub ttl_threshold : ℕ
  pub net_diameter : ℕ
  pub enable_rreq_collection : Bool
  pub rreq_timeout : ℕ
  pub node_traversal_time : ℕ
  pub timeout_buffer : ℕ
  pub rreq_jitter : ℕ
  pub rrep_wait_time : ℕ
  pub route_lifetime : ℕ
  pub hello_interval : ℕ
  pub allowed_hello_loss : ℕ

-- The traced counters, of 32 bits.
pub record Stats : Type 0 where
  pub rreq_tx : ℕ
  pub rreq_rx : ℕ
  pub rrep_tx : ℕ
  pub rrep_rx : ℕ
  pub rerr_tx : ℕ
  pub rerr_rx : ℕ
  pub hello_tx : ℕ
  pub hello_rx : ℕ
  pub queued_packets : ℕ
  pub queue_drops : ℕ
  pub forwarded_data : ℕ
  pub delivered_data : ℕ
  pub no_route_drops : ℕ

-- The object, the address of its device, how many values it drew from its random variable and how
-- many packets it created, and the effects so far, the newest first.
pub record Node : Type 0 where
  pub address : ℕ
  pub config : Config
  pub open config use *
  pub route_table : Map ℕ RouteEntry
  pub pending_queue : Map ℕ (List AodvPacket)
  pub rreq_attempts : Map ℕ ℕ
  pub rreq_hop_limits : Map ℕ ℕ
  pub rreq_collections : Map RequestKey RreqCollection
  pub neighbors : Map ℕ ℕ
  pub active_discoveries : KeySet ℕ
  pub seen_rreqs : KeySet RequestKey
  pub next_rreq_id : ℕ
  pub sequence_number : ℕ
  pub enable_hello : Bool
  pub hello_started : Bool
  pub stats : Stats
  pub send_up_pkt_count : ℕ
  pub draws : ℕ
  pub created : ℕ
  pub out : List Effect

-- What ns-3 provides while one event runs: the clock, the random variable (its n-th value between
-- 0 and a bound), the unique ids of new packets, and the product of a time in seconds with a
-- number, as doubles.
pub record Env : Type 0 where
  pub now : ℕ
  pub uniform : ℕ → ℕ → ℕ
  pub uid : ℕ → ℕ
  pub scale_seconds : ℕ → ℕ → ℕ

-- `++x` of a uint32_t.
abbrev pub inc32 : ℕ → ℕ
inc32 x = (x + 1) % 2 ^ 32

-- `x + 1` as a uint16_t.
abbrev pub inc16 : ℕ → ℕ
inc16 x = (x + 1) % 2 ^ 16

abbrev pub emit : Effect → Node → Node
emit e n = record n { out = e ∷ n.out }

-- The constructor's values.
abbrev pub default_config : Config
default_config = record {
  max_queue_len = 64;
  max_rreq_attempts = 3;
  max_hop_count = 32;
  ttl_start = 1;
  ttl_increment = 2;
  ttl_threshold = 7;
  net_diameter = 32;
  enable_rreq_collection = false;
  rreq_timeout = 3000000000;
  node_traversal_time = 500000000;
  timeout_buffer = 2;
  rreq_jitter = 100000000;
  rrep_wait_time = 500000000;
  route_lifetime = 120000000000;
  hello_interval = 10000000000;
  allowed_hello_loss = 2;
}

abbrev pub zero_stats : Stats
zero_stats = record {
  rreq_tx = 0;
  rreq_rx = 0;
  rrep_tx = 0;
  rrep_rx = 0;
  rerr_tx = 0;
  rerr_rx = 0;
  hello_tx = 0;
  hello_rx = 0;
  queued_packets = 0;
  queue_drops = 0;
  forwarded_data = 0;
  delivered_data = 0;
  no_route_drops = 0;
}

-- A new node, with the attributes as they were set.
abbrev pub new_node : ℕ → Config → Bool → Node
new_node address config enable_hello = record {
  address = address;
  config = config;
  route_table = [];
  pending_queue = [];
  rreq_attempts = [];
  rreq_hop_limits = [];
  rreq_collections = [];
  neighbors = [];
  active_discoveries = [];
  seen_rreqs = [];
  next_rreq_id = 0;
  sequence_number = 0;
  enable_hello = enable_hello;
  hello_started = false;
  stats = zero_stats;
  send_up_pkt_count = 0;
  draws = 0;
  created = 0;
  out = [];
}
