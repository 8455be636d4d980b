-- ===== src/Sfama/Diagram/Moves.antt =====
-- What each handler does to the status.
use aqua_sim_ng.Prelude.{[], arith, false, refl, true, ℕ, ◌++◌, ◌∷◌, ◌≡◌, ◌⊎◌}
use aqua_sim_ng.Sfama.{
  backoff_timer_process, data_send_timer_process, process_ack, process_cts, process_data,
  process_rts, recv_process, send_data_pkt, send_pkt, slot_init_handler, status_process,
  stop_timers, tx_process, wait_reply_timer_process, wait_send_timer_process,
}
use aqua_sim_ng.Sfama.Diagram.{IsTimed, edges, ◌⟶◌}
use aqua_sim_ng.Sfama.Packets.{fill_data, make_ack, make_cts, make_rts}
use aqua_sim_ng.Sfama.State.{
  Sfama, SfamaEnv, SfamaPacket, backoff_timer, data_send_timer, idle_wait, new_sfama,
  wait_reply_timer, wait_send_rts, wait_send_timer,
}
use aqua_sim_ng.Sfama.Step.{
  and_then, backoff_expires, data_send_expires, expire, is_running, no_event, packet_from_above,
  packet_received, slot_begins, wait_reply_expires, wait_send_expires, ◌⟹*◌, ◌⟹◌,
}
use aqua_sim_ng.Sfama.Train.{choose_train, prepare_sending_data, release_sent_packets, schedule_rts}

-- The status stays or follows an edge, and the timers still suit it.
record Moves (m n : Sfama) : Type 0 where
  pub follows : (n.status ≡ m.status) ⊎ (m.status ⟶ n.status)
  pub timed : IsTimed n

process_rts-Moves :
    (env : SfamaEnv) (p : SfamaPacket) (m : Sfama) → IsTimed m → Moves m (process_rts env p m)
unfolding process_rts make_cts is_running
process_rts-Moves env p m h = grind (arith, edges)

process_cts-Moves :
    (env : SfamaEnv) (p : SfamaPacket) (m : Sfama) → IsTimed m → Moves m (process_cts env p m)
unfolding process_cts is_running
process_cts-Moves env p m h = grind (arith, edges)

process_data-Moves :
    (env : SfamaEnv) (p : SfamaPacket) (m : Sfama) → IsTimed m → Moves m (process_data env p m)
unfolding process_data make_ack is_running
process_data-Moves env p m h = grind (arith, edges)

-- PrepareSendingDATA, which finds the status IDLE_WAIT.
record Prepared (m : Sfama) : Type 0 where
  pub next : (m.status ≡ idle_wait) ⊎ (m.status ≡ wait_send_rts)
  pub timed : IsTimed m

prepare-Prepared :
    (env : SfamaEnv) (m : Sfama)
    → m.status ≡ idle_wait
    → is_running backoff_timer m.out ≡ false
    → Prepared (prepare_sending_data env m)
unfolding prepare_sending_data schedule_rts choose_train make_rts is_running
prepare-Prepared env m h off = grind arith

process_ack-Moves :
    (env : SfamaEnv) (p : SfamaPacket) (m : Sfama) → IsTimed m → Moves m (process_ack env p m)
unfolding process_ack release_sent_packets is_running
process_ack-Moves env p m h =
    let m' = release_sent_packets (record (stop_timers m) { status = idle_wait }) in
    let r = prepare-Prepared env m' refl refl in grind (arith, edges, r.next, r.timed)

tx_process-Moves :
    (env : SfamaEnv) (p : SfamaPacket) (m : Sfama) → IsTimed m → Moves m (tx_process env p m)
unfolding tx_process fill_data
tx_process-Moves env p m h =
    let m' = record m { cached = m.cached ++ fill_data env p m ∷ [] } in
    grind (arith, edges, prepare-Prepared env m')

backoff-Moves :
    (env : SfamaEnv) (m : Sfama)
    → IsTimed m
    → is_running backoff_timer m.out ≡ true
    → Moves m (backoff_timer_process env (expire backoff_timer m))
unfolding backoff_timer_process is_running
backoff-Moves env m h on =
    let r =
      prepare-Prepared env (record (expire backoff_timer m) { status = idle_wait }) refl refl in
    grind (arith, edges, r.next, r.timed)

wait_send-Moves :
    (env : SfamaEnv) (m : Sfama)
    → IsTimed m
    → is_running wait_send_timer m.out ≡ true
    → Moves m (wait_send_timer_process env (expire wait_send_timer m))
unfolding wait_send_timer_process send_pkt is_running
wait_send-Moves env m h on = grind (arith, edges)

wait_reply-Moves :
    (env : SfamaEnv) (m : Sfama)
    → IsTimed m
    → Moves m (wait_reply_timer_process env false (expire wait_reply_timer m))
unfolding wait_reply_timer_process is_running
wait_reply-Moves env m h = grind (arith, edges)

data_send-Moves :
    (env : SfamaEnv) (m : Sfama)
    → IsTimed m
    → Moves m (data_send_timer_process env (expire data_send_timer m))
unfolding data_send_timer_process send_data_pkt is_running
data_send-Moves env m h = grind (arith, edges)

recv_process-Moves :
    (env : SfamaEnv) (p : SfamaPacket) (m : Sfama) → IsTimed m → Moves m (recv_process env p m)
unfolding recv_process
recv_process-Moves env p m h = ground (
  arith,
  process_rts-Moves env p m h,
  process_cts-Moves env p m h,
  process_data-Moves env p m h,
  process_ack-Moves env p m h,
)

slot_begins-Moves : (env : SfamaEnv) (m : Sfama) → IsTimed m → Moves m (slot_init_handler env m)
unfolding status_process wait_reply_timer_process is_running
slot_begins-Moves env m h = grind (arith, edges)

event-Moves : (m n : Sfama) → m ⟹ n → IsTimed m → Moves m n
event-Moves _ _ (packet_received env p m) h = recv_process-Moves env p m h
event-Moves _ _ (packet_from_above env p m) h = tx_process-Moves env p m h
event-Moves _ _ (wait_send_expires env m on) h = wait_send-Moves env m h on
event-Moves _ _ (wait_reply_expires env m on) h = wait_reply-Moves env m h
event-Moves _ _ (backoff_expires env m on) h = backoff-Moves env m h on
event-Moves _ _ (data_send_expires env m on) h = data_send-Moves env m h
event-Moves _ _ (slot_begins env m) h = slot_begins-Moves env m h

-- Whatever events a new node has met, in any order: if its backoff timer runs, it is in one of the two
-- backoff states. If its timer for sending runs in one of the four states that wait to send, the
-- packet that waits is an RTS, a CTS, none (for the train of data) or an ACK, as the state says.
pub reachable-IsTimed :
    (address max_burst : ℕ) (m : Sfama) → new_sfama address max_burst ⟹* m → IsTimed m
unfolding is_running
reachable-IsTimed address max_burst m no_event = ground arith
reachable-IsTimed address max_burst m (and_then {n = n} past e) =
    (event-Moves n m e (reachable-IsTimed address max_burst n past)).timed

-- From each state that a new node can reach, each event that can happen there leaves the status as it
-- is or follows an edge of the diagram ◌⟶◌.
pub event_follows_edge :
    (address max_burst : ℕ) (m n : Sfama)
    → new_sfama address max_burst ⟹* m
    → m ⟹ n
    → (n.status ≡ m.status) ⊎ (m.status ⟶ n.status)
event_follows_edge address max_burst m n past e =
    (event-Moves m n e (reachable-IsTimed address max_burst m past)).follows
