-- ===== src/Sfama/Packets.antt =====
-- MakeRTS, MakeCTS, MakeACK and FillDATA.
use aqua_sim_ng.Prelude.{false, if◌then◌else◌, ℕ, ◌%◌, ◌*◌, ◌+◌, ◌^◌, ◌||◌}
use aqua_sim_ng.Sfama.State.{
  Sfama, SfamaEnv, SfamaPacket, SfamaType, is_type, sfama_ack, sfama_cts, sfama_data, sfama_rts,
}

-- `SFamaHeader::GetSize`
abbrev pub sfama_size : SfamaType → ℕ
sfama_size t = if is_type sfama_rts t || is_type sfama_cts t then 2 * 2 + 1 + 2 else 2 * 2 + 1

-- The packet that the three have in common. The fields that they leave out are the defaults of the
-- headers.
abbrev pub control_packet : SfamaEnv → SfamaType → ℕ → ℕ → Sfama → SfamaPacket
control_packet env t receiver slot_num m = record {
  type = t;
  slot_num = slot_num % 2 ^ 16;
  sa = m.address;
  da = receiver;
  d_addr = 0;
  size = sfama_size t;
  tx_time = env.tx_time_of (sfama_size t);
  timestamp = 0;
  error_flag = false;
  uid = env.new_uid;
}

-- `MakeRTS`
unfoldable pub make_rts : SfamaEnv → ℕ → ℕ → Sfama → SfamaPacket
make_rts env receiver slot_num m = control_packet env sfama_rts receiver slot_num m

-- `MakeCTS`
unfoldable pub make_cts : SfamaEnv → ℕ → ℕ → Sfama → SfamaPacket
make_cts env rts_sender slot_num m = control_packet env sfama_cts rts_sender slot_num m

-- `MakeACK`
unfoldable pub make_ack : SfamaEnv → ℕ → Sfama → SfamaPacket
make_ack env data_sender m = control_packet env sfama_ack data_sender 0 m

-- `FillDATA`
unfoldable pub fill_data : SfamaEnv → SfamaPacket → Sfama → SfamaPacket
fill_data env p m = record p {
  type = sfama_data;
  sa = m.address;
  da = p.d_addr;
  tx_time = env.tx_time_of p.size;
  error_flag = false;
}
