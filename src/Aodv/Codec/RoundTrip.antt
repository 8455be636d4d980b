-- ===== src/Aodv/Codec/RoundTrip.antt =====
-- Reading a header back, and the size on the wire.
use aqua_sim_ng.Aodv.Codec.{deserialize, serialize}
use aqua_sim_ng.Aodv.Header.{AodvHeader, IsHeader, serialized_size}
use aqua_sim_ng.Prelude.{arith, ◌≡◌}
use aqua_sim_ng.Wire.{Buffer}

module _ (buf : Buffer) where
  open buf use {
    Bytes, append, size, append_assoc, size-append, size-u8, size-u16, size-u32, read-u8, read-u16,
    read-u32,
  }

  -- A header whose fields fit their types is read back from what `Serialize` wrote, whatever
  -- follows, and the bytes that follow are left; it took `GetSerializedSize` bytes.
  pub deserialize-serialize :
      (h : AodvHeader) (rest : Bytes)
      → IsHeader h
      → (deserialize buf (append (serialize buf h) rest) ≡ (h, rest))
        × (size (serialize buf h) ≡ serialized_size)
  unfolding serialize deserialize
  deserialize-serialize h rest v = (
    simp (
      append_assoc, read-u8, read-u16, read-u32, v.type_range, v.flags_range, v.hop_count_range,
      v.request_id_range, v.origin_range, v.destination_range, v.origin_seq_range, v.dest_seq_range,
      v.lifetime_range, v.hop_limit_range,
    ),
    omega (arith, size-append, size-u8, size-u16, size-u32),
  )
