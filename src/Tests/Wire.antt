-- ===== src/Tests/Wire.antt =====
-- Addresses, sequence numbers and headers.
use aqua_sim_ng.Address.{get_as_int, of_int}
use aqua_sim_ng.Aodv.Codec.{deserialize, serialize}
use aqua_sim_ng.Aodv.Codec.RoundTrip.{deserialize-serialize}
use aqua_sim_ng.Aodv.Header.{AodvHeader, uwaodv_rreq}
use aqua_sim_ng.Aodv.SeqNo.{is_seq_no_newer}
use aqua_sim_ng.Aodv.SeqNo.Order.{is_seq_no_newer_iff}
use aqua_sim_ng.Libra.{
  MacLibraHeader, deserialize_libra, libra_ack, libra_rts, libra_size, serialize_libra, write_ack,
}
use aqua_sim_ng.Libra.RoundTrip.{carried, deserialize-serialize_libra, libra_ack-short}
use aqua_sim_ng.Prelude.{
  List, [], arith, length, refl, some, true, ℕ, ◌%◌, ◌*◌, ◌++◌, ◌+◌, ◌<◌, ◌^◌, ◌↔◌, ◌∷◌, ◌≡◌,
}
use aqua_sim_ng.Tests.Fixtures.{bytes}

get_as_int-of_int_run : get_as_int (of_int 515) ≡ 515
unfolding get_as_int of_int
get_as_int-of_int_run = refl

is_seq_no_newer_iff_example :
    (is_seq_no_newer 1 0xffff_ffff ≡ true)
    ↔ ((k : ℕ) × (0 < k) × (k < 2 ^ 31) × (1 ≡ (0xffff_ffff + k) % 2 ^ 32))
is_seq_no_newer_iff_example = is_seq_no_newer_iff 1 0xffff_ffff (omega arith) (omega arith)

-- The request of examples/uw-aodv-header-check.cc.
abbrev request : AodvHeader
request = record {
  type = uwaodv_rreq;
  hop_count = 7;
  request_id = 12345;
  origin = 1;
  destination = 3;
  origin_seq_no = 100;
  dest_seq_no = 88;
  lifetime_ms = 120000;
  hop_limit = 9;
  flags = 1;
}

deserialize-serialize_example :
    deserialize bytes (bytes.append (serialize bytes request) (bytes.write_u8 5))
    ≡ (request, bytes.write_u8 5)
deserialize-serialize_example =
    (deserialize-serialize bytes request (bytes.write_u8 5) (omega arith)).0

-- A request to send, and a header with what an earlier frame left.
abbrev rts_frame : MacLibraHeader
rts_frame = record {
  ptype = libra_rts;
  header_id = 77;
  hop_count = 1;
  src_addr = 2;
  dst_addr = 3;
  sender_addr = 4;
  reward = 300;
  ack_message_id = 6;
  tx_power = 10000000000000;
  rx_power = 8;
  direct_distance = 9;
  next_hop_distance = 10;
  optimal_distance = 11;
  max_hops_number = 12;
}

abbrev left_over : MacLibraHeader
left_over = record rts_frame { header_id = 1; src_addr = 1; reward = 1 }

deserialize-serialize_libra_example :
    (written : List ℕ) × (serialize_libra bytes rts_frame ≡ some written)
    × (length written ≡ libra_size rts_frame)
    × (deserialize_libra bytes left_over (written ++ []) ≡ (carried left_over rts_frame, []))
deserialize-serialize_libra_example =
    deserialize-serialize_libra bytes left_over rts_frame []
      (record {
        ptype_range = omega arith;
        header_id_range = omega arith;
        hop_count_range = omega arith;
        src_addr_range = omega arith;
        dst_addr_range = omega arith;
        sender_addr_range = omega arith;
        reward_range = omega arith;
        ack_message_id_range = omega arith;
        tx_power_range = omega arith;
        rx_power_range = omega arith;
        direct_distance_range = omega arith;
        next_hop_distance_range = omega arith;
        optimal_distance_range = omega arith;
        max_hops_number_range = omega arith;
      })
      (omega arith) (ground arith)

-- An acknowledgement with a reward of 300, of which a byte is written and four are read.
abbrev ack_frame : MacLibraHeader
ack_frame = record rts_frame { ptype = libra_ack }

libra_ack-short_example :
    (written : List ℕ) × (serialize_libra bytes ack_frame ≡ some written)
    × (length written + 3 ≡ libra_size ack_frame)
libra_ack-short_example = libra_ack-short bytes ack_frame refl

read_ack_run :
    let h = (deserialize_libra bytes left_over (write_ack bytes ack_frame ++ 0 ∷ 0 ∷ 0 ∷ [])).0 in
    (h.reward ≡ 44 + 256 * 6) × (h.ack_message_id ≡ 50332160)
unfolding deserialize_libra
read_ack_run = (refl, refl)
