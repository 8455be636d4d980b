-- ===== src/Libra.antt =====
-- model/aqua-sim-header-mac.h and .cc, class MacLibraHeader: one header for eight types of frame. The
-- distances, rewards and powers are the integers that the header keeps.
pub mod RoundTrip
use aqua_sim_ng.Prelude.{Option, if◌then◌else◌, none, some, ℕ, ◌%◌, ◌+◌, ◌==◌, ◌^◌, ◌||◌}
use aqua_sim_ng.Wire.{Buffer}

pub record MacLibraHeader : Type 0 where
  pub ptype : ℕ
  pub header_id : ℕ
  pub hop_count : ℕ
  pub src_addr : ℕ
  pub dst_addr : ℕ
  pub sender_addr : ℕ
  pub reward : ℕ
  pub ack_message_id : ℕ
  pub tx_power : ℕ
  pub rx_power : ℕ
  pub direct_distance : ℕ
  pub next_hop_distance : ℕ
  pub optimal_distance : ℕ
  pub max_hops_number : ℕ

-- The types: DATA, RREQ, RREP, ACK, INIT, RTS, CTS and the direct reward message.
abbrev pub libra_data : ℕ
libra_data = 0

abbrev pub libra_rreq : ℕ
libra_rreq = 1

abbrev pub libra_rrep : ℕ
libra_rrep = 2

abbrev pub libra_ack : ℕ
libra_ack = 3

abbrev pub libra_init : ℕ
libra_init = 4

abbrev pub libra_rts : ℕ
libra_rts = 5

abbrev pub libra_cts : ℕ
libra_cts = 6

abbrev pub libra_direct_reward : ℕ
libra_direct_reward = 7

-- `GetSerializedSize`
abbrev pub libra_size : MacLibraHeader → ℕ
libra_size h =
    if h.ptype == libra_data
    then 45
    else if h.ptype == libra_rreq || h.ptype == libra_rrep
    then 1 + 4 + 1 + 2 + 2 + 16
    else if h.ptype == libra_ack
    then 1 + 4 + 4 + 4 + 4 + 16
    else if h.ptype == libra_init
    then 1 + 4 + 4 + 16
    else if h.ptype == libra_rts
    then 1 + 4 + 4 + 16
    else if h.ptype == libra_cts
    then 1 + 4 + 4 + 16
    else if h.ptype == libra_direct_reward
    then 29 + 4
    else 0

module _ (buf : Buffer) where
  open buf use {
    Bytes, append, write_u8, write_u16, write_u32, write_u64, read_u8, read_u16, read_u32, read_u64,
  }

  -- The writes of each type, in order.
  abbrev pub write_data : MacLibraHeader → Bytes
  write_data h = append (write_u8 h.ptype) (
      append (write_u32 h.header_id) (
        append (write_u8 h.hop_count) (
          append (write_u32 h.reward) (
            append (write_u16 h.sender_addr) (
              append (write_u16 h.src_addr) (
                append (write_u16 h.dst_addr) (
                  append (write_u32 h.direct_distance) (
                    append (write_u64 h.tx_power) (
                      append (write_u64 h.rx_power) (
                        append (write_u32 h.next_hop_distance) (
                          append (write_u32 h.optimal_distance)
                            (write_u8 h.max_hops_number))))))))))))

  abbrev pub write_route : MacLibraHeader → Bytes
  write_route h = append (write_u8 h.ptype) (
      append (write_u32 h.header_id) (
        append (write_u8 h.hop_count) (
          append (write_u16 h.src_addr) (
            append (write_u16 h.dst_addr) (append (write_u64 h.tx_power) (write_u64 h.rx_power))))))

  abbrev pub write_ack : MacLibraHeader → Bytes
  write_ack h = append (write_u8 h.ptype) (
      append (write_u32 h.header_id) (
        append (write_u8 (h.reward % 2 ^ 8)) (
          append (write_u32 h.ack_message_id) (
            append (write_u16 h.src_addr) (
              append (write_u16 h.dst_addr)
                (append (write_u64 h.tx_power) (write_u64 h.rx_power)))))))

  abbrev pub write_short : MacLibraHeader → Bytes
  write_short h = append (write_u8 h.ptype) (
      append (write_u32 h.header_id) (
        append (write_u16 h.src_addr)
          (append (write_u16 h.dst_addr) (append (write_u64 h.tx_power) (write_u64 h.rx_power)))))

  abbrev pub write_direct_reward : MacLibraHeader → Bytes
  write_direct_reward h = append (write_u8 h.ptype) (
      append (write_u32 h.header_id) (
        append (write_u16 h.src_addr) (
          append (write_u16 h.dst_addr) (
            append (write_u32 h.reward) (
              append (write_u64 h.tx_power)
                (append (write_u64 h.rx_power) (write_u32 h.next_hop_distance)))))))

  -- `Serialize`: a type that is none of these writes nothing.
  unfoldable pub serialize_libra : MacLibraHeader → Option Bytes
  serialize_libra h =
      if h.ptype == libra_data
      then some (write_data h)
      else if h.ptype == libra_rreq
      then some (write_route h)
      else if h.ptype == libra_rrep
      then some (write_route h)
      else if h.ptype == libra_ack
      then some (write_ack h)
      else if h.ptype == libra_init
      then some (write_short h)
      else if h.ptype == libra_rts
      then some (write_short h)
      else if h.ptype == libra_cts
      then some (write_short h)
      else if h.ptype == libra_direct_reward
      then some (write_direct_reward h)
      else none

  -- The reads of each type, after that of the type. A field that is not read stays.
  abbrev pub read_data : MacLibraHeader → Bytes → MacLibraHeader × Bytes
  read_data h b0 =
      let (header_id, b1) = read_u32 b0 in
      let (hop_count, b2) = read_u8 b1 in
      let (reward, b3) = read_u32 b2 in
      let (sender_addr, b4) = read_u16 b3 in
      let (src_addr, b5) = read_u16 b4 in
      let (dst_addr, b6) = read_u16 b5 in
      let (direct_distance, b7) = read_u32 b6 in
      let (tx_power, b8) = read_u64 b7 in
      let (rx_power, b9) = read_u64 b8 in
      let (next_hop_distance, b10) = read_u32 b9 in
      let (optimal_distance, b11) = read_u32 b10 in
      let (max_hops_number, b12) = read_u8 b11 in
      (
        record h {
          header_id = header_id;
          hop_count = hop_count;
          reward = reward;
          sender_addr = sender_addr;
          src_addr = src_addr;
          dst_addr = dst_addr;
          direct_distance = direct_distance;
          tx_power = tx_power;
          rx_power = rx_power;
          next_hop_distance = next_hop_distance;
          optimal_distance = optimal_distance;
          max_hops_number = max_hops_number;
        },
        b12,
      )

  abbrev pub read_route : MacLibraHeader → Bytes → MacLibraHeader × Bytes
  read_route h b0 =
      let (header_id, b1) = read_u32 b0 in
      let (hop_count, b2) = read_u8 b1 in
      let (src_addr, b3) = read_u16 b2 in
      let (dst_addr, b4) = read_u16 b3 in
      let (tx_power, b5) = read_u64 b4 in
      let (rx_power, b6) = read_u64 b5 in
      (
        record h {
          header_id = header_id;
          hop_count = hop_count;
          src_addr = src_addr;
          dst_addr = dst_addr;
          tx_power = tx_power;
          rx_power = rx_power;
        },
        b6,
      )

  abbrev pub read_ack : MacLibraHeader → Bytes → MacLibraHeader × Bytes
  read_ack h b0 =
      let (header_id, b1) = read_u32 b0 in
      let (reward, b2) = read_u32 b1 in
      let (ack_message_id, b3) = read_u32 b2 in
      let (src_addr, b4) = read_u16 b3 in
      let (dst_addr, b5) = read_u16 b4 in
      let (tx_power, b6) = read_u64 b5 in
      let (rx_power, b7) = read_u64 b6 in
      (
        record h {
          header_id = header_id;
          reward = reward;
          ack_message_id = ack_message_id;
          src_addr = src_addr;
          dst_addr = dst_addr;
          tx_power = tx_power;
          rx_power = rx_power;
        },
        b7,
      )

  abbrev pub read_short : MacLibraHeader → Bytes → MacLibraHeader × Bytes
  read_short h b0 =
      let (header_id, b1) = read_u32 b0 in
      let (src_addr, b2) = read_u16 b1 in
      let (dst_addr, b3) = read_u16 b2 in
      let (tx_power, b4) = read_u64 b3 in
      let (rx_power, b5) = read_u64 b4 in
      (
        record h {
          header_id = header_id;
          src_addr = src_addr;
          dst_addr = dst_addr;
          tx_power = tx_power;
          rx_power = rx_power;
        },
        b5,
      )

  abbrev pub read_direct_reward : MacLibraHeader → Bytes → MacLibraHeader × Bytes
  read_direct_reward h b0 =
      let (header_id, b1) = read_u32 b0 in
      let (src_addr, b2) = read_u16 b1 in
      let (dst_addr, b3) = read_u16 b2 in
      let (reward, b4) = read_u32 b3 in
      let (tx_power, b5) = read_u64 b4 in
      let (rx_power, b6) = read_u64 b5 in
      let (next_hop_distance, b7) = read_u32 b6 in
      (
        record h {
          header_id = header_id;
          src_addr = src_addr;
          dst_addr = dst_addr;
          reward = reward;
          tx_power = tx_power;
          rx_power = rx_power;
          next_hop_distance = next_hop_distance;
        },
        b7,
      )

  -- `Deserialize` into a header: the header after it, and the bytes that are left.
  unfoldable pub deserialize_libra : MacLibraHeader → Bytes → MacLibraHeader × Bytes
  deserialize_libra h0 b0 =
      let (ptype, b) = read_u8 b0 in
      let h = record h0 { ptype = ptype } in
      if ptype == libra_data
      then read_data h b
      else if ptype == libra_rreq
      then read_route h b
      else if ptype == libra_rrep
      then read_route h b
      else if ptype == libra_ack
      then read_ack h b
      else if ptype == libra_init
      then read_short h b
      else if ptype == libra_rts
      then read_short h b
      else if ptype == libra_cts
      then read_short h b
      else if ptype == libra_direct_reward
      then read_direct_reward h b
      else (h, b)
