-- ===== src/Libra/RoundTrip.antt =====
-- Reading a header back, and its size on the wire, for each type of frame.
use aqua_sim_ng.Libra.{
  MacLibraHeader, deserialize_libra, libra_size, serialize_libra, write_ack, write_data,
  write_direct_reward, write_route, write_short,
}
use aqua_sim_ng.Prelude.{
  arith, if◌then◌else◌, inl, inr, refl, some, subst, sym, ℕ, ◌+◌, ◌<◌, ◌==◌, ◌^◌, ◌||◌, ◌≡◌, ◌≢◌,
  ◌≤◌, ◌⊎◌,
}
use aqua_sim_ng.Wire.{Buffer}

-- The fields fit their types.
pub record IsLibraHeader (h : MacLibraHeader) : Type 0 where
  pub ptype_range : h.ptype < 2 ^ 8
  pub header_id_range : h.header_id < 2 ^ 32
  pub hop_count_range : h.hop_count < 2 ^ 8
  pub src_addr_range : h.src_addr < 2 ^ 16
  pub dst_addr_range : h.dst_addr < 2 ^ 16
  pub sender_addr_range : h.sender_addr < 2 ^ 16
  pub reward_range : h.reward < 2 ^ 32
  pub ack_message_id_range : h.ack_message_id < 2 ^ 32
  pub tx_power_range : h.tx_power < 2 ^ 64
  pub rx_power_range : h.rx_power < 2 ^ 64
  pub direct_distance_range : h.direct_distance < 2 ^ 32
  pub next_hop_distance_range : h.next_hop_distance < 2 ^ 32
  pub optimal_distance_range : h.optimal_distance < 2 ^ 32
  pub max_hops_number_range : h.max_hops_number < 2 ^ 8

-- The fields that a frame of each type carries, over those of another header.
abbrev short_of : MacLibraHeader → MacLibraHeader → MacLibraHeader
short_of h0 h = record h0 {
  ptype = h.ptype;
  header_id = h.header_id;
  src_addr = h.src_addr;
  dst_addr = h.dst_addr;
  tx_power = h.tx_power;
  rx_power = h.rx_power;
}

abbrev pub carried : MacLibraHeader → MacLibraHeader → MacLibraHeader
carried h0 h =
    if h.ptype == 0
    then record h { ack_message_id = h0.ack_message_id }
    else if h.ptype == 1 || h.ptype == 2
    then record (short_of h0 h) { hop_count = h.hop_count }
    else if h.ptype == 7
    then record (short_of h0 h) { reward = h.reward; next_hop_distance = h.next_hop_distance }
    else short_of h0 h

module _ (buf : Buffer) where
  open buf use {
    Bytes, append, size, append_assoc, size-append, size-u8, size-u16, size-u32, size-u64, read-u8,
    read-u16, read-u32, read-u64,
  }

  -- What `Serialize` writes is of the size that GetSerializedSize says, and is read back, whatever follows.
  record ReadsBack (h0 h : MacLibraHeader) (rest : Bytes) : Type 0 where
    pub written : Bytes
    pub serialized : serialize_libra buf h ≡ some written
    pub sized : size written ≡ libra_size h
    pub read_back : deserialize_libra buf h0 (append written rest) ≡ (carried h0 h, rest)

  abbrev of_type : ℕ → MacLibraHeader → MacLibraHeader
  of_type k h = record h { ptype = k }

  data-ReadsBack :
      (h0 h : MacLibraHeader) (rest : Bytes) → IsLibraHeader h → ReadsBack h0 (of_type 0 h) rest
  unfolding serialize_libra deserialize_libra
  data-ReadsBack h0 h rest v =
      let small : 0 < 2 ^ 8 = omega arith in
      record {
        written = write_data buf (of_type 0 h);
        serialized = refl;
        sized = omega (arith, size-append, size-u8, size-u16, size-u32, size-u64);
        read_back = simp (
          append_assoc, read-u8, read-u16, read-u32, read-u64, small, v.header_id_range,
          v.src_addr_range, v.dst_addr_range, v.tx_power_range, v.rx_power_range, v.hop_count_range,
          v.reward_range, v.sender_addr_range, v.direct_distance_range, v.next_hop_distance_range,
          v.optimal_distance_range, v.max_hops_number_range,
        );
      }

  rreq-ReadsBack :
      (h0 h : MacLibraHeader) (rest : Bytes) → IsLibraHeader h → ReadsBack h0 (of_type 1 h) rest
  unfolding serialize_libra deserialize_libra
  rreq-ReadsBack h0 h rest v =
      let small : 1 < 2 ^ 8 = omega arith in
      record {
        written = write_route buf (of_type 1 h);
        serialized = refl;
        sized = omega (arith, size-append, size-u8, size-u16, size-u32, size-u64);
        read_back = simp (
          append_assoc, read-u8, read-u16, read-u32, read-u64, small, v.header_id_range,
          v.src_addr_range, v.dst_addr_range, v.tx_power_range, v.rx_power_range, v.hop_count_range,
        );
      }

  rrep-ReadsBack :
      (h0 h : MacLibraHeader) (rest : Bytes) → IsLibraHeader h → ReadsBack h0 (of_type 2 h) rest
  unfolding serialize_libra deserialize_libra
  rrep-ReadsBack h0 h rest v =
      let small : 2 < 2 ^ 8 = omega arith in
      record {
        written = write_route buf (of_type 2 h);
        serialized = refl;
        sized = omega (arith, size-append, size-u8, size-u16, size-u32, size-u64);
        read_back = simp (
          append_assoc, read-u8, read-u16, read-u32, read-u64, small, v.header_id_range,
          v.src_addr_range, v.dst_addr_range, v.tx_power_range, v.rx_power_range, v.hop_count_range,
        );
      }

  init-ReadsBack :
      (h0 h : MacLibraHeader) (rest : Bytes) → IsLibraHeader h → ReadsBack h0 (of_type 4 h) rest
  unfolding serialize_libra deserialize_libra
  init-ReadsBack h0 h rest v =
      let small : 4 < 2 ^ 8 = omega arith in
      record {
        written = write_short buf (of_type 4 h);
        serialized = refl;
        sized = omega (arith, size-append, size-u8, size-u16, size-u32, size-u64);
        read_back = simp (
          append_assoc, read-u8, read-u16, read-u32, read-u64, small, v.header_id_range,
          v.src_addr_range, v.dst_addr_range, v.tx_power_range, v.rx_power_range,
        );
      }

  rts-ReadsBack :
      (h0 h : MacLibraHeader) (rest : Bytes) → IsLibraHeader h → ReadsBack h0 (of_type 5 h) rest
  unfolding serialize_libra deserialize_libra
  rts-ReadsBack h0 h rest v =
      let small : 5 < 2 ^ 8 = omega arith in
      record {
        written = write_short buf (of_type 5 h);
        serialized = refl;
        sized = omega (arith, size-append, size-u8, size-u16, size-u32, size-u64);
        read_back = simp (
          append_assoc, read-u8, read-u16, read-u32, read-u64, small, v.header_id_range,
          v.src_addr_range, v.dst_addr_range, v.tx_power_range, v.rx_power_range,
        );
      }

  cts-ReadsBack :
      (h0 h : MacLibraHeader) (rest : Bytes) → IsLibraHeader h → ReadsBack h0 (of_type 6 h) rest
  unfolding serialize_libra deserialize_libra
  cts-ReadsBack h0 h rest v =
      let small : 6 < 2 ^ 8 = omega arith in
      record {
        written = write_short buf (of_type 6 h);
        serialized = refl;
        sized = omega (arith, size-append, size-u8, size-u16, size-u32, size-u64);
        read_back = simp (
          append_assoc, read-u8, read-u16, read-u32, read-u64, small, v.header_id_range,
          v.src_addr_range, v.dst_addr_range, v.tx_power_range, v.rx_power_range,
        );
      }

  direct_reward-ReadsBack :
      (h0 h : MacLibraHeader) (rest : Bytes) → IsLibraHeader h → ReadsBack h0 (of_type 7 h) rest
  unfolding serialize_libra deserialize_libra
  direct_reward-ReadsBack h0 h rest v =
      let small : 7 < 2 ^ 8 = omega arith in
      record {
        written = write_direct_reward buf (of_type 7 h);
        serialized = refl;
        sized = omega (arith, size-append, size-u8, size-u16, size-u32, size-u64);
        read_back = simp (
          append_assoc, read-u8, read-u16, read-u32, read-u64, small, v.header_id_range,
          v.src_addr_range, v.dst_addr_range, v.tx_power_range, v.rx_power_range, v.reward_range,
          v.next_hop_distance_range,
        );
      }

  typed :
      (k : ℕ) (h0 h : MacLibraHeader) (rest : Bytes)
      → h.ptype ≡ k
      → ReadsBack h0 (of_type k h) rest
      → ReadsBack h0 h rest
  typed k h0 h rest e r = subst (λ i. ReadsBack h0 (of_type i h) rest) (sym e) r

  type-cases :
      (k : ℕ) → k ≤ 7 → k ≢ 3 → (k ≡ 0) ⊎ (k ≡ 1) ⊎ (k ≡ 2) ⊎ (k ≡ 4) ⊎ (k ≡ 5) ⊎ (k ≡ 6) ⊎ (k ≡ 7)
  type-cases k most other = ground (arith, most, other)

  all-ReadsBack :
      (h0 h : MacLibraHeader) (rest : Bytes)
      → IsLibraHeader h
      → h.ptype ≤ 7
      → h.ptype ≢ 3
      → ReadsBack h0 h rest
  all-ReadsBack h0 h rest v most other = elim (type-cases h.ptype most other) [
    | inl e ↦ typed 0 h0 h rest e (data-ReadsBack h0 h rest v)
    | inr (inl e) ↦ typed 1 h0 h rest e (rreq-ReadsBack h0 h rest v)
    | inr (inr (inl e)) ↦ typed 2 h0 h rest e (rrep-ReadsBack h0 h rest v)
    | inr (inr (inr (inl e))) ↦ typed 4 h0 h rest e (init-ReadsBack h0 h rest v)
    | inr (inr (inr (inr (inl e)))) ↦ typed 5 h0 h rest e (rts-ReadsBack h0 h rest v)
    | inr (inr (inr (inr (inr (inl e))))) ↦ typed 6 h0 h rest e (cts-ReadsBack h0 h rest v)
    | inr (inr (inr (inr (inr (inr (e)))))) ↦
        typed 7 h0 h rest e (direct_reward-ReadsBack h0 h rest v)
  ]

  -- A frame of any of the eight types but ACK, whose fields fit, is written in as many bytes as
  -- GetSerializedSize says; whatever follows, Deserialize takes the fields of that type from it, keeps the
  -- other fields of the header that it reads into, and leaves what follows.
  pub deserialize-serialize_libra :
      (h0 h : MacLibraHeader) (rest : Bytes)
      → IsLibraHeader h
      → h.ptype ≤ 7
      → h.ptype ≢ 3
      → (written : Bytes) × (serialize_libra buf h ≡ some written)
        × (size written ≡ libra_size h)
        × (deserialize_libra buf h0 (append written rest) ≡ (carried h0 h, rest))
  deserialize-serialize_libra h0 h rest v most other =
      let r = all-ReadsBack h0 h rest v most other in
      (r.written, r.serialized, r.sized, r.read_back)

  -- A frame of type ACK is written in three bytes less than GetSerializedSize says.
  pub libra_ack-short :
      (h : MacLibraHeader)
      → h.ptype ≡ 3
      → (written : Bytes) × (serialize_libra buf h ≡ some written)
        × (size written + 3 ≡ libra_size h)
  unfolding serialize_libra
  libra_ack-short h e = (
    write_ack buf h,
    ground (arith, e),
    grind (arith, e, size-append, size-u8, size-u16, size-u32, size-u64),
  )
