-- ===== src/Sfama/Handshake.antt =====
-- Two slotted FAMA nodes: an RTS, a CTS, a data packet and an ACK.
pub mod Steps
pub mod Delivers
use aqua_sim_ng.Prelude.{
  Bool, List, Option, [], false, if◌then◌else◌, none, some, true, ℕ, ◌∷◌, ◌≡◌,
}
use aqua_sim_ng.Sfama.{
  data_send_timer_process, recv_process, slot_init_handler, tx_process, wait_send_timer_process,
}
use aqua_sim_ng.Sfama.Packets.{fill_data}
use aqua_sim_ng.Sfama.State.{
  Sfama, SfamaEffect, SfamaEnv, SfamaPacket, SfamaTimer, Status, data_send_timer,
  schedule_status_process, transmit_frame, wait_send_timer,
}
use aqua_sim_ng.Sfama.Step.{expire, is_running}
use aqua_sim_ng.Sfama.Train.{train_slots}

-- The frame sent last.
abbrev pub last_sent : List SfamaEffect → Option SfamaPacket
last_sent [] = none
last_sent (transmit_frame p ∷ es) = some p
last_sent (_ ∷ es) = last_sent es

-- The slot of the packet that waits comes.
abbrev pub send_slot : SfamaEnv → Sfama → Sfama
send_slot env m = wait_send_timer_process env (expire wait_send_timer m)

abbrev pub data_slot : SfamaEnv → Sfama → Sfama
data_slot env m = data_send_timer_process env (expire data_send_timer m)

infixl 5 ◌>>=◌
abbrev pub ◌>>=◌ {ℓ κ} : {A : Type ℓ} {B : Type κ} → Option A → (A → Option B) → Option B
none >>= k = none
some a >>= k = k a

-- The function of a timer, where the timer runs.
abbrev pub when_running : SfamaTimer → (Sfama → Sfama) → Sfama → Option Sfama
when_running t f m = if is_running t m.out then some (f m) else none

-- The last thing that was done is to schedule SlotInitHandler.
abbrev pub is_scheduled : List SfamaEffect → Bool
is_scheduled (schedule_status_process delay ∷ es) = true
is_scheduled _ = false

-- SlotInitHandler, where it was just scheduled.
abbrev pub when_scheduled : SfamaEnv → Sfama → Option Sfama
when_scheduled env m = if is_scheduled m.out then some (slot_init_handler env m) else none

-- The sender `s` gets `p` from above. Each event has a clock and random numbers of its own, and each
-- frame reaches the other node as it was sent, before anything else happens. A timer expires only if
-- the node has started it, and SlotInitHandler comes only if the node has scheduled it: elsewhere the
-- exchange stops.
unfoldable pub exchange : (ℕ → SfamaEnv) → SfamaPacket → Sfama → Sfama → Option (Sfama × Sfama)
exchange env p s r = do
  asking ← when_running wait_send_timer (send_slot (env 1)) (tx_process (env 0) p s)
  rts ← last_sent asking.out
  waiting ← when_scheduled (env 2) asking
  answering ← when_running wait_send_timer (send_slot (env 4)) (recv_process (env 3) rts r)
  cts ← last_sent answering.out
  ready ← when_scheduled (env 5) answering
  granted ← when_running wait_send_timer (send_slot (env 7)) (recv_process (env 6) cts waiting)
  sending ← when_running data_send_timer (data_slot (env 8)) granted
  frame ← last_sent sending.out
  ended ← when_running data_send_timer (data_slot (env 9)) sending
  sent ← when_scheduled (env 10) ended
  acking ← when_running wait_send_timer (send_slot (env 12)) (recv_process (env 11) frame ready)
  ack ← last_sent acking.out
  finished ← when_scheduled (env 13) acking
  some (recv_process (env 14) ack sent, finished)

-- A node at some point of the exchange.
pub record At (address : ℕ) (status : Status) (sending backup released : List SfamaPacket)
    (waiting : Option SfamaPacket) (m : Sfama) : Type 0 where
  pub address_is : m.address ≡ address
  pub status_is : m.status ≡ status
  pub sending_is : m.sending ≡ sending
  pub backup_is : m.backup ≡ backup
  pub cached_is : m.cached ≡ []
  pub released_is : m.released ≡ released
  pub waiting_is : m.wait_send_packet ≡ waiting

-- The slots that the sender asks for.
abbrev pub rts_slots : SfamaEnv → SfamaPacket → Sfama → ℕ
unfolding fill_data
rts_slots env p m = train_slots env (record m { sending = fill_data env p m ∷ [] })
