-- ===== src/Sfama/State.antt =====
-- The state of AquaSimSFama, its packets, and what it asks of the layers around it and of ns-3.
use aqua_sim_ng.Prelude.{Bool, List, Option, [], none, ℕ, ◌++◌, ◌==◌}

-- `enum AquaSimSFama_Status`
pub data Status : Type 0 where
  idle_wait : Status
  wait_send_rts : Status
  wait_send_cts : Status
  wait_recv_cts : Status
  wait_send_data : Status
  wait_recv_data : Status
  wait_send_ack : Status
  wait_recv_ack : Status
  backoff : Status
  backoff_fair : Status

-- The number of a value of the enum.
abbrev pub status_code : Status → ℕ
status_code idle_wait = 0
status_code wait_send_rts = 1
status_code wait_send_cts = 2
status_code wait_recv_cts = 3
status_code wait_send_data = 4
status_code wait_recv_data = 5
status_code wait_send_ack = 6
status_code wait_recv_ack = 7
status_code backoff = 8
status_code backoff_fair = 9

-- `GetStatus() == …`
abbrev pub is_status : Status → Status → Bool
is_status s t = status_code s == status_code t

-- `SFamaHeader::PacketType`, and any other number.
pub data SfamaType : Type 0 where
  sfama_rts : SfamaType
  sfama_cts : SfamaType
  sfama_data : SfamaType
  sfama_ack : SfamaType
  sfama_other : SfamaType

abbrev pub type_code : SfamaType → ℕ
type_code sfama_rts = 0
type_code sfama_cts = 1
type_code sfama_data = 2
type_code sfama_ack = 3
type_code sfama_other = 4

abbrev pub is_type : SfamaType → SfamaType → Bool
is_type s t = type_code s == type_code t

-- What the protocol reads and writes of a packet: the fields of its SFamaHeader, MacHeader and
-- AquaSimHeader, and which packet it is.
pub record SfamaPacket : Type 0 where
  pub type : SfamaType
  pub slot_num : ℕ
  pub sa : ℕ
  pub da : ℕ
  pub d_addr : ℕ
  pub size : ℕ
  pub tx_time : ℕ
  pub timestamp : ℕ
  pub error_flag : Bool
  pub uid : ℕ

pub data SfamaTimer : Type 0 where
  wait_send_timer : SfamaTimer
  wait_reply_timer : SfamaTimer
  backoff_timer : SfamaTimer
  data_send_timer : SfamaTimer

pub data SfamaEffect : Type 0 where
  -- SendDown
  transmit_frame : SfamaPacket → SfamaEffect
  -- SendUp
  deliver_frame : SfamaPacket → SfamaEffect
  power_on : SfamaEffect
  schedule_timer : SfamaTimer → ℕ → SfamaEffect
  cancel_timer : SfamaTimer → SfamaEffect
  -- The scheduler runs the function of a timer.
  timer_expired : SfamaTimer → SfamaEffect
  -- Schedule(delay, SlotInitHandler)
  schedule_status_process : ℕ → SfamaEffect

-- The object, how many values it drew from its random variable, and the effects so far, the newest
-- first. `released` records the packets that ReleaseSentPkts drops, which the object forgets.
pub record Sfama : Type 0 where
  pub address : ℕ
  pub max_burst : ℕ
  pub data_sending_interval : ℕ
  pub status : Status
  pub sending : List SfamaPacket
  pub cached : List SfamaPacket
  pub backup : List SfamaPacket
  pub wait_send_packet : Option SfamaPacket
  pub slot_num_handler : ℕ
  pub draws : ℕ
  pub released : List SfamaPacket
  pub out : List SfamaEffect

-- `GetTransmissionStatus`: SEND, NSTATUS and DISABLE are one.
pub data TransStatus : Type 0 where
  asleep : TransStatus
  nidle : TransStatus
  receiving : TransStatus
  busy : TransStatus

-- What the device, the physical layer and ns-3 provide while one event runs, and what the node itself
-- computes in doubles: the clock, the length of a slot, what GetTime2ComingSlot gives, the modem's
-- status, the n-th random number of slots, the time to send so many bytes, and the id of a new packet.
-- All times are in nanoseconds.
pub record SfamaEnv : Type 0 where
  pub now : ℕ
  pub slot_len : ℕ
  pub coming_slot : ℕ
  pub transmission_status : TransStatus
  pub random_slots : ℕ → ℕ
  pub tx_time_of : ℕ → ℕ
  pub new_uid : ℕ

abbrev pub emit_all : List SfamaEffect → Sfama → Sfama
emit_all es m = record m { out = es ++ m.out }

-- The constructor, with the attributes as they were set.
abbrev pub new_sfama : ℕ → ℕ → Sfama
new_sfama address max_burst = record {
  address = address;
  max_burst = max_burst;
  data_sending_interval = 100;
  status = idle_wait;
  sending = [];
  cached = [];
  backup = [];
  wait_send_packet = none;
  slot_num_handler = 0;
  draws = 0;
  released = [];
  out = [];
}
