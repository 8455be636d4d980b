-- ===== src/Sfama/Diagram.antt =====
-- The states of a slotted FAMA node.
pub mod Moves
use aqua_sim_ng.Prelude.{Bool, Option, false, none, some, true, ◌≡◌}
use aqua_sim_ng.Sfama.{is_free}
use aqua_sim_ng.Sfama.Handshake.Steps.{sends}
use aqua_sim_ng.Sfama.State.{
  Sfama, SfamaPacket, Status, backoff, backoff_fair, backoff_timer, idle_wait, is_type, sfama_ack,
  sfama_cts, sfama_rts, wait_recv_ack, wait_recv_cts, wait_recv_data, wait_send_ack, wait_send_cts,
  wait_send_data, wait_send_rts, wait_send_timer,
}
use aqua_sim_ng.Sfama.Step.{is_running}

abbrev pub in_backoff : Status → Bool
in_backoff backoff = true
in_backoff backoff_fair = true
in_backoff _ = false

-- The packet that waits for its slot is the one that the status says.
abbrev pub fits : Status → Option SfamaPacket → Bool
fits wait_send_rts (some p) = is_type sfama_rts p.type
fits wait_send_rts none = false
fits wait_send_cts (some p) = is_type sfama_cts p.type
fits wait_send_cts none = false
fits wait_send_data (some p) = false
fits wait_send_data none = true
fits wait_send_ack (some p) = is_type sfama_ack p.type
fits wait_send_ack none = false
fits _ _ = true

pub record IsTimed (m : Sfama) : Type 0 where
  pub backs_off : is_running backoff_timer m.out ≡ true → in_backoff m.status ≡ true
  pub sends : is_running wait_send_timer m.out ≡ true → fits m.status m.wait_send_packet ≡ true

infix 40 ◌⟶◌
pub data ◌⟶◌ : Status → Status → Type 0 where
  -- packets to send, from above or in the queue
  request : idle_wait ⟶ wait_send_rts
  rts_sent : wait_send_rts ⟶ wait_recv_cts
  cts_received : wait_recv_cts ⟶ wait_send_data
  data_sent : wait_send_data ⟶ wait_recv_ack
  ack_received : wait_recv_ack ⟶ idle_wait
  ack_and_more : wait_recv_ack ⟶ wait_send_rts
  -- an RTS for this node
  rts_received : {s : Status} → is_free s ≡ true → s ⟶ wait_send_cts
  cts_sent : wait_send_cts ⟶ wait_recv_data
  data_received : wait_recv_data ⟶ wait_send_ack
  ack_sent : wait_send_ack ⟶ backoff_fair
  -- a packet for another node, a packet that is not waited for, or no reply
  disturbed : {s : Status} → s ⟶ backoff
  -- the end of a backoff
  rested : {s : Status} → in_backoff s ≡ true → s ⟶ idle_wait
  rested_and_more : {s : Status} → in_backoff s ≡ true → s ⟶ wait_send_rts

pub ruleset edges = (
  request, rts_sent, cts_received, data_sent, ack_received, ack_and_more, rts_received, cts_sent,
  data_received, ack_sent, disturbed, rested, rested_and_more,
)
