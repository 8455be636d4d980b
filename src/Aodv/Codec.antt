-- ===== src/Aodv/Codec.antt =====
-- AquaSimUWAodvHeader::Serialize and Deserialize, over ns-3's Buffer::Iterator.
pub mod RoundTrip
use aqua_sim_ng.Aodv.Header.{AodvHeader}
use aqua_sim_ng.Wire.{Buffer}

module _ (buf : Buffer) where
  open buf use {Bytes, append, write_u8, write_u16, write_u32, read_u8, read_u16, read_u32}

  -- `Serialize`: the writes in order.
  unfoldable pub serialize : AodvHeader → Bytes
  serialize h = append (write_u8 h.type) (
      append (write_u8 h.flags) (
        append (write_u16 h.hop_count) (
          append (write_u32 h.request_id) (
            append (write_u16 h.origin) (
              append (write_u16 h.destination) (
                append (write_u32 h.origin_seq_no) (
                  append (write_u32 h.dest_seq_no)
                    (append (write_u32 h.lifetime_ms) (write_u16 h.hop_limit)))))))))

  -- `Deserialize`: the header, and the bytes that are left.
  unfoldable pub deserialize : Bytes → AodvHeader × Bytes
  deserialize b0 =
      let (type, b1) = read_u8 b0 in
      let (flags, b2) = read_u8 b1 in
      let (hop_count, b3) = read_u16 b2 in
      let (request_id, b4) = read_u32 b3 in
      let (origin, b5) = read_u16 b4 in
      let (destination, b6) = read_u16 b5 in
      let (origin_seq_no, b7) = read_u32 b6 in
      let (dest_seq_no, b8) = read_u32 b7 in
      let (lifetime_ms, b9) = read_u32 b8 in
      let (hop_limit, b10) = read_u16 b9 in
      (
        record {
          type = type;
          hop_count = hop_count;
          request_id = request_id;
          origin = origin;
          destination = destination;
          origin_seq_no = origin_seq_no;
          dest_seq_no = dest_seq_no;
          lifetime_ms = lifetime_ms;
          hop_limit = hop_limit;
          flags = flags;
        },
        b10,
      )
