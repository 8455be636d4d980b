-- ===== src/Aodv/Send.antt =====
-- SendUp and SendDown of model/aqua-sim-routing.cc, and the headers that every control packet of
-- AquaSimUWAodvRouting starts from.
use aqua_sim_ng.Aodv.Header.{serialized_size}
use aqua_sim_ng.Aodv.State.{AodvPacket, Env, Node, deliver, emit, transmit}
use aqua_sim_ng.Packet.{AquaSimHeader, Payload, ash_size, default_ash, down}
use aqua_sim_ng.Prelude.{Bool, if◌then◌else◌, true, ℕ, ◌%◌, ◌*◌, ◌+◌, ◌/◌, ◌==◌, ◌^◌}

-- `SendDown`: the packet goes to the MAC after the delay. (`GetUId() == -1` compares a uint16_t
-- with -1 as integers, and is never true.)
unfoldable pub send_down : AodvPacket → ℕ → ℕ → Node → Node × Bool
send_down p next_hop delay n = (
  emit
      (transmit delay (record p {
        ash = record (p.ash) { direction = down; next_hop = next_hop; s_addr = n.address };
      }))
      n,
  true,
)

-- `SendUp`
unfoldable pub send_up : AquaSimHeader → Payload → Node → Node × Bool
send_up ash payload n =
    (emit (deliver ash payload) (record n { send_up_pkt_count = n.send_up_pkt_count + 1 }), true)

-- `Create<Packet>()`
unfoldable pub create_packet : Env → Node → Node × Payload
create_packet env n =
    (record n { created = n.created + 1 }, record { uid = env.uid n.created; size = 0 })

-- The Aqua-Sim header of a control packet.
abbrev pub control_ash : Env → Node → ℕ → ℕ → Payload → AquaSimHeader
control_ash env n next_hop d_addr payload = record default_ash {
  direction = down;
  next_hop = next_hop;
  s_addr = n.address;
  d_addr = d_addr;
  size = (serialized_size + ash_size) % 2 ^ 16;
  uid = payload.uid % 2 ^ 16;
  timestamp = env.now;
}

-- `GetRreqJitter`: no value is drawn where the jitter is off.
unfoldable pub get_rreq_jitter : Env → Node → Node × ℕ
get_rreq_jitter env n =
    let off = n.rreq_jitter == 0 in
    (
      record n { draws = if off then n.draws else n.draws + 1 },
      if off then 0 else env.uniform n.draws n.rreq_jitter,
    )

-- `GetMilliSeconds` as a uint32_t, and `MilliSeconds`.
abbrev pub milliseconds32 : ℕ → ℕ
milliseconds32 t = t / 1000000 % 2 ^ 32

abbrev pub from_milliseconds : ℕ → ℕ
from_milliseconds ms = ms * 1000000
