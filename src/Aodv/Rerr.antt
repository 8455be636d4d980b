-- ===== src/Aodv/Rerr.antt =====
-- Route errors: SendRerr, ForwardRerr, RecvRerr.
pub mod Targets
use aqua_sim_ng.Address.{address_key, broadcast}
use aqua_sim_ng.Aodv.Header.{AodvHeader, default_header, uwaodv_rerr}
use aqua_sim_ng.Aodv.Send.{control_ash, create_packet, send_down}
use aqua_sim_ng.Aodv.State.{AodvPacket, Env, Node, inc32}
use aqua_sim_ng.Aodv.Table.{invalidate_route, should_accept_rerr}
use aqua_sim_ng.Packet.{Payload}
use aqua_sim_ng.Prelude.{Bool, [], false, if◌then◌else◌, true, ℕ, ◌==◌, ◌||◌, ◌∷◌}
use aqua_sim_ng.Prelude.KeySet.{KeySet, exclude}

-- The packet that `ForwardRerr` sends to one precursor.
abbrev pub rerr_packet : Env → Node → ℕ → ℕ → ℕ → Payload → AodvPacket
rerr_packet env n d seq_no precursor payload = record {
  ash = control_ash env n precursor precursor payload;
  aodv = record default_header {
    type = uwaodv_rerr;
    origin = n.address;
    destination = d;
    origin_seq_no = n.sequence_number;
    dest_seq_no = seq_no;
  };
  payload = payload;
}

-- The body of the loop of `ForwardRerr`.
unfoldable pub send_rerr_to : Env → ℕ → ℕ → ℕ → Node → Node
unfolding create_packet send_down
send_rerr_to env d seq_no precursor n =
    if precursor == n.address || precursor == broadcast
    then n
    else (let (m, payload) = create_packet env n in
        (send_down (rerr_packet env m d seq_no precursor payload) precursor 0
          (record m { stats = record (m.stats) { rerr_tx = inc32 m.stats.rerr_tx } })).0)

-- `ForwardRerr`, and `SendRerr`, which calls it.
unfoldable pub forward_rerr : Env → ℕ → ℕ → KeySet ℕ → Node → Node
forward_rerr env d seq_no [] n = n
forward_rerr env d seq_no (p ∷ ps) n = forward_rerr env d seq_no ps (send_rerr_to env d seq_no p n)

-- `RecvRerr`
unfoldable pub recv_rerr : Env → AodvHeader → ℕ → Node → Node × Bool
recv_rerr env aodv previous_hop n =
    if should_accept_rerr aodv.destination aodv.dest_seq_no n
    then (let (m, precursors) = invalidate_route env.now aodv.destination aodv.dest_seq_no true n in
        (
          forward_rerr env aodv.destination aodv.dest_seq_no (exclude previous_hop precursors) m,
          true,
        ))
    else (n, false)
