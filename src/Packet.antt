-- ===== src/Packet.antt =====
-- model/aqua-sim-header.h and .cc, class AquaSimHeader, and the part of an ns-3 packet that the
-- protocols read. Times are in nanoseconds, and not negative.
use aqua_sim_ng.Prelude.{Bool, false, ℕ, ◌+◌}

-- `dir_t`
abbrev pub down : ℕ
down = 0

abbrev pub up : ℕ
up = 2

-- The ports, which are never initialised nor read, are left out.
pub record AquaSimHeader : Type 0 where
  pub tx_time : ℕ
  pub direction : ℕ
  pub next_hop : ℕ
  pub num_forwards : ℕ
  pub s_addr : ℕ
  pub d_addr : ℕ
  pub error_flag : Bool
  pub uid : ℕ
  pub size : ℕ
  pub timestamp : ℕ
  pub seq_num : ℕ

-- The default constructor; -1 as a uint16_t is 65535.
abbrev pub default_ash : AquaSimHeader
default_ash = record {
  tx_time = 0;
  direction = down;
  next_hop = 65535;
  num_forwards = 0;
  s_addr = 65535;
  d_addr = 65535;
  error_flag = false;
  uid = 65535;
  size = 0;
  timestamp = 0;
  seq_num = 0;
}

-- `GetSerializedSize`
abbrev pub ash_size : ℕ
ash_size = 8 + 2 + 1 + 2 + 1 + 2 + 2 + 2 + 2 + 4 + 4

-- What lies below the headers: `GetUid` of the packet, and the bytes.
pub record Payload : Type 0 where
  pub uid : ℕ
  pub size : ℕ
