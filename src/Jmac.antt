-- ===== src/Jmac.antt =====
-- model/aqua-sim-header-mac.h and .cc, class JammingMacHeader: the header of JMAC, with a schedule for up
-- to 64 nodes. A shift by a type's width or more, a read of a missing key and a fatal error are none.
pub mod Bits
pub mod Count
pub mod Schedule
use aqua_sim_ng.Address.{address_key}
use aqua_sim_ng.Prelude.{
  Option, count, if◌then◌else◌, leb, none, some, suc, zero, ℕ, ◌%◌, ◌*◌, ◌+◌, ◌-◌, ◌/◌, ◌==◌, ◌^◌,
}
use aqua_sim_ng.Prelude.Map.{Map, find, insert}
use aqua_sim_ng.Wire.{Buffer}

pub record JammingMacHeader : Type 0 where
  pub ptype : ℕ
  pub node_id : ℕ
  pub node_list : ℕ
  pub delays_ms : Map ℕ ℕ
  pub x_coord : ℕ
  pub y_coord : ℕ
  pub z_coord : ℕ

-- `1 << k`, and `n >> k`.
unfoldable pub bit : ℕ → ℕ
bit zero = 1
bit (suc k) = 2 * bit k

unfoldable pub shift_right : ℕ → ℕ → ℕ
shift_right zero n = n
shift_right (suc k) n = shift_right k (n / 2)

-- `GetNodeBit`
unfoldable pub get_node_bit : ℕ → ℕ → ℕ
unfolding shift_right
get_node_bit id node_list = shift_right id node_list % 2

-- `SetNodeBit`. The mask is an int: that of node 31 is negative, and as a uint64_t has its high bits set; a
-- node from 32 on shifts an int too far.
unfoldable pub set_node_bit : ℕ → ℕ → Option ℕ
unfolding bit get_node_bit
set_node_bit id node_list =
    if leb 32 id
    then none
    else if id == 31
    then some (node_list % 2 ^ 31 + (2 ^ 64 - 2 ^ 31))
    else if get_node_bit id node_list == 1
    then some node_list
    else some (node_list + bit id)

-- `std::map::insert`: a key that is there keeps its value.
abbrev pub insert_new : ℕ → ℕ → Map ℕ ℕ → Map ℕ ℕ
insert_new k v m = elim (find k m) [ none ↦ insert k v m | some w ↦ m ]

-- `SetSchedule`
unfoldable pub set_schedule : ℕ → ℕ → JammingMacHeader → Option JammingMacHeader
unfolding set_node_bit
set_schedule id delay_ms h = elim (set_node_bit id h.node_list) [
  | none ↦ none
  | some bits ↦ some (record h { delays_ms = insert_new id delay_ms h.delays_ms; node_list = bits })
]

-- The loop of `GetNodesAmount`, which counts in a byte, or none at the end of the fuel.
unfoldable pub count_bits : ℕ → ℕ → ℕ → Option ℕ
count_bits zero count n = if n == 0 then some count else none
count_bits (suc k) count n =
    let rest = count_bits k ((count + n % 2) % 2 ^ 8) (n / 2) in if n == 0 then some count else rest

-- `GetNodesAmount`: the list has 64 bits.
unfoldable pub get_nodes_amount : ℕ → Option ℕ
unfolding count_bits
get_nodes_amount node_list = count_bits 64 0 node_list

-- `GetSerializedSize`; the fatal error is none.
unfoldable pub jamming_size : JammingMacHeader → Option ℕ
unfolding get_nodes_amount
jamming_size h =
    if h.ptype == 0
    then some 2
    else if h.ptype == 1
    then some (2 + 3 * 4)
    else if h.ptype == 2
    then elim (get_nodes_amount h.node_list) [ none ↦ none | some n ↦ some (2 + 8 + 2 * n) ]
    else none

module _ (buf : Buffer) where
  open buf use {
    Bytes, append, write_u8, write_u16, write_u32, write_u64, read_u8, read_u16, read_u32, read_u64,
  }

  -- The loop that writes the schedule from a node on, after the bytes that are written.
  unfoldable pub write_schedule : ℕ → ℕ → JammingMacHeader → Bytes → Option Bytes
  unfolding get_node_bit
  write_schedule zero j h written = some written
  write_schedule (suc k) j h written =
      let skipped = write_schedule k (j + 1) h written in
      let next : Option Bytes = elim (find j h.delays_ms) [
        | none ↦ none
        | some d ↦ write_schedule k (j + 1) h (append written (write_u16 d))
      ] in
      if get_node_bit j h.node_list == 1 then next else skipped

  -- `Serialize`
  unfoldable pub serialize_jamming : JammingMacHeader → Option Bytes
  serialize_jamming h =
      let start = append (write_u8 h.ptype) (write_u8 h.node_id) in
      if h.ptype == 2
      then write_schedule 64 0 h (append start (write_u64 h.node_list))
      else if h.ptype == 1
      then some (
          append start
            (append (write_u32 h.x_coord) (append (write_u32 h.y_coord) (write_u32 h.z_coord))))
      else some start

  -- The loop that reads the schedule from a node on.
  unfoldable pub read_schedule : ℕ → ℕ → ℕ → Map ℕ ℕ → Bytes → Map ℕ ℕ × Bytes
  unfolding get_node_bit
  read_schedule zero j node_list delays b = (delays, b)
  read_schedule (suc k) j node_list delays b =
      let skipped = read_schedule k (j + 1) node_list delays b in
      let (d, b') = read_u16 b in
      let next = read_schedule k (j + 1) node_list (insert_new j d delays) b' in
      if get_node_bit j node_list == 1 then next else skipped

  -- What Deserialize reads of a reply after the node, and of a request.
  unfoldable pub read_reply : JammingMacHeader → Bytes → JammingMacHeader × Bytes
  read_reply h b0 =
      let (node_list, b1) = read_u64 b0 in
      let (delays, b2) = read_schedule 64 0 node_list h.delays_ms b1 in
      (record h { node_list = node_list; delays_ms = delays }, b2)

  abbrev pub read_coordinates : JammingMacHeader → Bytes → JammingMacHeader × Bytes
  read_coordinates h b0 =
      let (x, b1) = read_u32 b0 in
      let (y, b2) = read_u32 b1 in
      let (z, b3) = read_u32 b2 in (record h { x_coord = x; y_coord = y; z_coord = z }, b3)

  -- `Deserialize` into a header: the header after it, and the bytes that are left.
  unfoldable pub deserialize_jamming : JammingMacHeader → Bytes → JammingMacHeader × Bytes
  deserialize_jamming h0 b0 =
      let (ptype, b1) = read_u8 b0 in
      let (node_id, b2) = read_u8 b1 in
      let h = record h0 { ptype = ptype; node_id = node_id } in
      if ptype == 2 then read_reply h b2 else if ptype == 1 then read_coordinates h b2 else (h, b2)
