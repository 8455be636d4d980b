-- ===== src/Sfama.antt =====
-- model/aqua-sim-mac-sfama.h and .cc, class AquaSimSFama: the handlers of slotted FAMA.
pub mod State
pub mod Train
pub mod Packets
pub mod Step
pub mod Diagram
pub mod Conserve
pub mod Deliver
pub mod Stuck
pub mod Handshake
use aqua_sim_ng.Prelude.{
  Bool, Option, [], false, if◌then◌else◌, length, ltb, none, some, true, ℕ, ◌&&◌, ◌*◌, ◌++◌, ◌+◌,
  ◌==◌, ◌∷◌,
}
use aqua_sim_ng.Sfama.Packets.{fill_data, make_ack, make_cts}
use aqua_sim_ng.Sfama.State.{
  Sfama, SfamaEnv, SfamaPacket, SfamaTimer, Status, asleep, backoff, backoff_fair, backoff_timer,
  busy, cancel_timer, data_send_timer, deliver_frame, emit_all, idle_wait, is_status, is_type,
  nidle, power_on, receiving, schedule_status_process, schedule_timer, sfama_ack, sfama_cts,
  sfama_data, sfama_other, sfama_rts, transmit_frame, wait_recv_ack, wait_recv_cts, wait_recv_data,
  wait_reply_timer, wait_send_ack, wait_send_cts, wait_send_data, wait_send_rts, wait_send_timer,
}
use aqua_sim_ng.Sfama.Train.{prepare_sending_data, release_sent_packets}

-- `StopTimers`
abbrev pub stop_timers : Sfama → Sfama
stop_timers m =
    emit_all
      (cancel_timer backoff_timer
        ∷ cancel_timer wait_reply_timer
        ∷ cancel_timer wait_send_timer
        ∷ [])
      m

-- A timer is given its function and scheduled.
abbrev pub start_timer : SfamaTimer → ℕ → Sfama → Sfama
start_timer t delay m = emit_all (schedule_timer t delay ∷ []) m

-- `StopTimers` and a backoff of some time.
abbrev pub back_off : ℕ → Sfama → Sfama
back_off delay m = start_timer backoff_timer delay (record (stop_timers m) { status = backoff })

-- A packet waits for the next slot.
abbrev pub send_in_slot : Option SfamaPacket → ℕ → Sfama → Sfama
send_in_slot p delay m = start_timer wait_send_timer delay (record m { wait_send_packet = p })

-- The states in which an RTS for this node is answered.
abbrev pub is_free : Status → Bool
is_free idle_wait = true
is_free wait_send_rts = true
is_free backoff_fair = true
is_free _ = false

-- `ProcessRTS`
unfoldable pub process_rts : SfamaEnv → SfamaPacket → Sfama → Sfama
unfolding make_cts
process_rts env p m =
    if p.da == m.address
    then (if is_free m.status
        then send_in_slot (some (make_cts env p.sa p.slot_num m)) env.coming_slot
            (record (stop_timers m) { status = wait_send_cts })
        else m)
    else back_off (env.coming_slot + p.slot_num * env.slot_len) m

-- The wait for an acknowledgement, one slot longer where the next slot is less than 0.1 s away.
abbrev pub ack_wait : SfamaEnv → ℕ → ℕ
ack_wait env slot_num =
    let wait_time = (1 + slot_num) * env.slot_len + env.coming_slot in
    if ltb env.coming_slot 100000000 then wait_time + env.slot_len else wait_time

-- `ProcessCTS`
unfoldable pub process_cts : SfamaEnv → SfamaPacket → Sfama → Sfama
process_cts env p m =
    if p.da == m.address && is_status wait_recv_cts m.status
    then start_timer wait_reply_timer (ack_wait env p.slot_num)
        (send_in_slot none env.coming_slot (record (stop_timers m) { status = wait_send_data }))
    else back_off (p.slot_num * env.slot_len + 1000000000 + env.coming_slot) m

-- `ProcessDATA`
unfoldable pub process_data : SfamaEnv → SfamaPacket → Sfama → Sfama
unfolding make_ack
process_data env p m =
    if p.da == m.address && is_status wait_recv_data m.status
    then emit_all (deliver_frame (record p { size = 5 }) ∷ []) (
        send_in_slot (some (make_ack env p.sa m)) env.coming_slot
          (record (stop_timers m) { status = wait_send_ack }))
    else back_off (1000000000 + env.coming_slot) m

-- `ProcessACK`
unfoldable pub process_ack : SfamaEnv → SfamaPacket → Sfama → Sfama
unfolding prepare_sending_data release_sent_packets
process_ack env p m =
    if p.da == m.address && is_status wait_recv_ack m.status
    then prepare_sending_data env
        (release_sent_packets (record (stop_timers m) { status = idle_wait }))
    else m

-- `RecvProcess`
unfoldable pub recv_process : SfamaEnv → SfamaPacket → Sfama → Sfama
recv_process env p m = elim p.type [
  | sfama_rts ↦ process_rts env p m
  | sfama_cts ↦ process_cts env p m
  | sfama_data ↦ process_data env p m
  | sfama_ack ↦ process_ack env p m
  | sfama_other ↦ m
]

-- `TxProcess`
unfoldable pub tx_process : SfamaEnv → SfamaPacket → Sfama → Sfama
unfolding fill_data prepare_sending_data
tx_process env p m =
    let m' = record m { cached = m.cached ++ fill_data env p m ∷ [] } in
    if length m'.cached == 1 && is_status idle_wait m'.status
    then prepare_sending_data env m'
    else m'

-- `SendPkt`: SLEEP falls through to RECV.
unfoldable pub send_pkt : SfamaEnv → SfamaPacket → Sfama → Sfama
send_pkt env p m =
    let m' = if is_type sfama_cts p.type then record m { slot_num_handler = p.slot_num } else m in
    elim env.transmission_status [
      | asleep ↦ emit_all (power_on ∷ []) m'
      | receiving ↦ m'
      | nidle ↦
          emit_all
            (schedule_status_process p.tx_time
              ∷ transmit_frame (record p { timestamp = env.now })
              ∷ [])
            m'
      | busy ↦ m'
    ]

-- `SendDataPkt`
unfoldable pub send_data_pkt : SfamaEnv → SfamaPacket → Sfama → Sfama
send_data_pkt env p m = elim env.transmission_status [
  | asleep ↦ emit_all (power_on ∷ []) m
  | receiving ↦ m
  | nidle ↦ emit_all (transmit_frame (record p { timestamp = env.now }) ∷ []) m
  | busy ↦ m
]

-- `WaitReplyTimerProcess`: a value is drawn on either branch.
unfoldable pub wait_reply_timer_process : SfamaEnv → Bool → Sfama → Sfama
wait_reply_timer_process env directcall m =
    let m' = record m { draws = m.draws + 1 } in
    if directcall
    then start_timer backoff_timer env.coming_slot (record m' { status = backoff_fair })
    else start_timer backoff_timer (env.random_slots m.draws * env.slot_len + env.coming_slot)
        (record m' { status = backoff })

-- The wait for a reply.
abbrev pub wait_for_reply : SfamaEnv → ℕ → Sfama → Sfama
wait_for_reply env slotnum m =
    start_timer wait_reply_timer (env.slot_len * slotnum + env.coming_slot) m

-- `StatusProcess`
unfoldable pub status_process : SfamaEnv → ℕ → Sfama → Sfama
unfolding wait_reply_timer_process
status_process env slotnum m = elim m.status [
  | wait_send_rts ↦ wait_for_reply env 1 (record m { status = wait_recv_cts })
  | wait_send_cts ↦ wait_for_reply env slotnum (record m { status = wait_recv_data })
  | wait_send_data ↦ record m { status = wait_recv_ack }
  | wait_send_ack ↦ wait_reply_timer_process env true m
  | _ ↦ wait_for_reply env slotnum m
]

-- `SlotInitHandler`
abbrev pub slot_init_handler : SfamaEnv → Sfama → Sfama
unfolding status_process
slot_init_handler env m = status_process env m.slot_num_handler m

-- `BackoffTimerProcess`
unfoldable pub backoff_timer_process : SfamaEnv → Sfama → Sfama
unfolding prepare_sending_data
backoff_timer_process env m = prepare_sending_data env (record m { status = idle_wait })

-- `WaitSendTimerProcess`, and `expire`, which forgets the packet.
unfoldable pub wait_send_timer_process : SfamaEnv → Sfama → Sfama
unfolding send_pkt
wait_send_timer_process env m =
    record (elim m.wait_send_packet [
      | none ↦ start_timer data_send_timer (10000) m
      | some p ↦ send_pkt env p m
    ]) { wait_send_packet = none }

-- `DataSendTimerProcess`
unfoldable pub data_send_timer_process : SfamaEnv → Sfama → Sfama
unfolding send_data_pkt
data_send_timer_process env m = elim m.sending [
  | [] ↦
      emit_all (schedule_status_process (100) ∷ []) (record m { sending = m.backup; backup = [] })
  | p ∷ q ↦
      start_timer data_send_timer (m.data_sending_interval + p.tx_time)
        (send_data_pkt env p (record m { backup = m.backup ++ p ∷ []; sending = q }))
]

-- `DoDispose`
unfoldable pub dispose_queues : Sfama → Sfama
dispose_queues m = record m { sending = []; cached = []; backup = [] }
