-- ===== src/Aodv/Header.antt =====
-- model/aqua-sim-routing-uw-aodv.h and .cc, class AquaSimUWAodvHeader. A getter is the projection
-- of the field; an address is its `GetAsInt`.
use Prim.Native.Nat.{bit_and, bit_or}
use aqua_sim_ng.Prelude.{Bool, if◌then◌else◌, not, ℕ, ◌<◌, ◌==◌, ◌^◌}

-- `PacketType`
abbrev pub uwaodv_data : ℕ
uwaodv_data = 1

abbrev pub uwaodv_rreq : ℕ
uwaodv_rreq = 2

abbrev pub uwaodv_rrep : ℕ
uwaodv_rrep = 3

abbrev pub uwaodv_rerr : ℕ
uwaodv_rerr = 4

abbrev pub uwaodv_hello : ℕ
uwaodv_hello = 5

-- `Flags`
abbrev pub flag_none : ℕ
flag_none = 0

abbrev pub flag_unknown_dest_seq : ℕ
flag_unknown_dest_seq = 1

pub record AodvHeader : Type 0 where
  pub type : ℕ
  pub hop_count : ℕ
  pub request_id : ℕ
  pub origin : ℕ
  pub destination : ℕ
  pub origin_seq_no : ℕ
  pub dest_seq_no : ℕ
  pub lifetime_ms : ℕ
  pub hop_limit : ℕ
  pub flags : ℕ

-- The default constructor.
abbrev pub default_header : AodvHeader
default_header = record {
  type = uwaodv_data;
  hop_count = 0;
  request_id = 0;
  origin = 0;
  destination = 0;
  origin_seq_no = 0;
  dest_seq_no = 0;
  lifetime_ms = 0;
  hop_limit = 0;
  flags = flag_none;
}

-- `SetUnknownDestSeqNo`; `~1` on a byte is 254.
unfoldable pub set_unknown_dest_seq_no : Bool → AodvHeader → AodvHeader
set_unknown_dest_seq_no unknown h =
    if unknown
    then record h { flags = bit_or h.flags flag_unknown_dest_seq }
    else record h { flags = bit_and h.flags 254 }

-- `IsUnknownDestSeqNo`
unfoldable pub is_unknown_dest_seq_no : AodvHeader → Bool
is_unknown_dest_seq_no h = not (bit_and h.flags flag_unknown_dest_seq == 0)

-- `GetSerializedSize`
abbrev pub serialized_size : ℕ
serialized_size = 26

-- Each field fits its C++ type.
pub record IsHeader (h : AodvHeader) : Type 0 where
  pub type_range : h.type < 2 ^ 8
  pub flags_range : h.flags < 2 ^ 8
  pub hop_count_range : h.hop_count < 2 ^ 16
  pub request_id_range : h.request_id < 2 ^ 32
  pub origin_range : h.origin < 2 ^ 16
  pub destination_range : h.destination < 2 ^ 16
  pub origin_seq_range : h.origin_seq_no < 2 ^ 32
  pub dest_seq_range : h.dest_seq_no < 2 ^ 32
  pub lifetime_range : h.lifetime_ms < 2 ^ 32
  pub hop_limit_range : h.hop_limit < 2 ^ 16
