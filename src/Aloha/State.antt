-- ===== src/Aloha/State.antt =====
-- The state of AquaSimAloha, its packets, and what it asks of the layers around it and of ns-3.
use aqua_sim_ng.Prelude.{Bool, List, [], false, true, ℕ, ◌++◌, ◌==◌}

-- The enum of `ALOHA_Status`.
pub data AlohaStatus : Type 0 where
  passive : AlohaStatus
  backoff : AlohaStatus
  send_data : AlohaStatus
  wait_ack : AlohaStatus

abbrev pub status_code : AlohaStatus → ℕ
status_code passive = 0
status_code backoff = 1
status_code send_data = 2
status_code wait_ack = 3

abbrev pub is_status : AlohaStatus → AlohaStatus → Bool
is_status s t = status_code s == status_code t

-- `AlohaHeader::PacketType`, and any other number.
pub data AlohaType : Type 0 where
  aloha_data : AlohaType
  aloha_ack : AlohaType
  aloha_other : AlohaType

abbrev pub is_data : AlohaType → Bool
is_data aloha_data = true
is_data _ = false

abbrev pub is_ack : AlohaType → Bool
is_ack aloha_ack = true
is_ack _ = false

-- What the protocol reads and writes of a packet: the fields of its AlohaHeader and AquaSimHeader, and
-- which packet it is.
pub record AlohaPacket : Type 0 where
  pub type : AlohaType
  pub sa : ℕ
  pub da : ℕ
  pub next_hop : ℕ
  pub d_addr : ℕ
  pub size : ℕ
  pub tx_time : ℕ
  pub timestamp : ℕ
  pub error_flag : Bool
  pub uid : ℕ

pub data AlohaEffect : Type 0 where
  -- SendDown
  frame_down : AlohaPacket → AlohaEffect
  -- SendUp
  frame_up : AlohaPacket → AlohaEffect
  power_up : AlohaEffect
  -- m_waitACKTimer, which calls DoBackoff: the packet's own time comes first
  schedule_wait_ack : ℕ → AlohaEffect
  cancel_wait_ack : AlohaEffect
  -- Schedule(BackoffTime, SendDataPkt), with the number of the random value
  schedule_send_data : ℕ → AlohaEffect
  -- Schedule(txtime + Seconds(0.01), StatusProcess, m_isAck)
  schedule_status : ℕ → Bool → AlohaEffect
  -- Schedule(…, ProcessRetryTimer, timer), with the number of the random value and the timer's id
  schedule_retry : ℕ → ℕ → AlohaPacket → AlohaEffect

-- The object, how many values it drew from its random variable, and the effects so far, the newest
-- first. `released` records the packets that left the queue as sent, `dropped` those that DoBackoff
-- gave up, which the object forgets but for their number.
pub record Aloha : Type 0 where
  pub address : ℕ
  pub ack_on : Bool
  pub bo_counter : ℕ
  pub status : AlohaStatus
  pub blocked : Bool
  pub last_is_ack : Bool
  pub queue : List AlohaPacket
  pub retry_timers : List ℕ
  pub draws : ℕ
  pub tx_packet_drops : ℕ
  pub released : List AlohaPacket
  pub dropped : List AlohaPacket
  pub out : List AlohaEffect

-- `GetTransmissionStatus`: SEND, NSTATUS and DISABLE are one.
pub data Modem : Type 0 where
  asleep : Modem
  nidle : Modem
  receiving : Modem
  busy : Modem

-- What the device, the physical layer and ns-3 provide while one event runs: the clock, the modem's
-- status, whether the n-th random value is at most the persistence, the time to send so many bytes,
-- the estimated round trip for a packet with this time, and the ids of a new packet and a new timer.
pub record AlohaEnv : Type 0 where
  pub now : ℕ
  pub modem : Modem
  pub persists : ℕ → Bool
  pub tx_time_of : ℕ → ℕ
  pub estimated_rtt : ℕ → ℕ
  pub new_uid : ℕ
  pub new_timer : ℕ

abbrev pub emit_all : List AlohaEffect → Aloha → Aloha
emit_all es m = record m { out = es ++ m.out }

-- `MAXIMUMCOUNTER`
abbrev pub maximum_counter : ℕ
maximum_counter = 65535

-- The constructor, with the attributes as they were set.
abbrev pub new_aloha : ℕ → Bool → Aloha
new_aloha address ack_on = record {
  address = address;
  ack_on = ack_on;
  bo_counter = 0;
  status = passive;
  blocked = false;
  last_is_ack = false;
  queue = [];
  retry_timers = [];
  draws = 0;
  tx_packet_drops = 0;
  released = [];
  dropped = [];
  out = [];
}
