-- ===== src/Sfama/Conserve.antt =====
-- The data packets that a slotted FAMA node holds: m_CachedPktQ, m_sendingPktQ, m_BackupSendingPktQ,
-- and those that it released.
use aqua_sim_ng.Prelude.{Bool, List, [], arith, count, count-append, refl, ℕ, ◌++◌, ◌+◌, ◌∷◌, ◌≡◌}
use aqua_sim_ng.Sfama.{
  backoff_timer_process, data_send_timer_process, process_ack, process_cts, process_data,
  process_rts, recv_process, send_data_pkt, send_pkt, slot_init_handler, status_process,
  stop_timers, tx_process, wait_reply_timer_process, wait_send_timer_process,
}
use aqua_sim_ng.Sfama.Packets.{fill_data}
use aqua_sim_ng.Sfama.State.{
  Sfama, SfamaEnv, SfamaPacket, backoff_timer, data_send_timer, idle_wait, wait_send_timer,
}
use aqua_sim_ng.Sfama.Step.{
  and_then, backoff_expires, data_send_expires, expire, no_event, packet_from_above,
  packet_received, slot_begins, wait_reply_expires, wait_send_expires, ◌⟹*◌, ◌⟹◌,
}
use aqua_sim_ng.Sfama.Train.{
  choose_train, fill_train, prepare_sending_data, release_sent_packets, schedule_rts,
}

-- What the node took from above and did not forget.
abbrev pub holds : (SfamaPacket → Bool) → Sfama → ℕ
holds q m = count q m.released + count q m.backup + count q m.sending + count q m.cached

-- The packets of the train, those put aside and those left are the packets of the queue.
fill_train-count :
    (q : SfamaPacket → Bool) (receiver first_da max_burst pkt_num : ℕ) (ps : List SfamaPacket)
    → (let r = fill_train receiver first_da max_burst pkt_num ps in
        count q r.0 + count q r.1 + count q r.2 ≡ count q ps)
unfolding fill_train
fill_train-count q receiver first_da max_burst pkt_num [] = refl
fill_train-count q receiver first_da max_burst pkt_num (p ∷ ps) = ground (
  arith,
  fill_train-count q receiver first_da max_burst (pkt_num + 1) ps,
  fill_train-count q receiver first_da max_burst pkt_num ps,
)

release-holds : (q : SfamaPacket → Bool) (m : Sfama) → holds q (release_sent_packets m) ≡ holds q m
unfolding release_sent_packets
release-holds q m = omega (arith, count-append q m.released m.sending)

-- The loop takes its train out of a queue that begins with `p`.
take_train-holds :
    (q : SfamaPacket → Bool) (p : SfamaPacket) (ps : List SfamaPacket) (m : Sfama)
    → m.sending ≡ []
    → m.cached ≡ p ∷ ps
    → (let r = fill_train p.da p.da m.max_burst 1 ps in
        holds q (record m { sending = p ∷ r.0; cached = r.1 ++ r.2 }) ≡ holds q m)
unfolding fill_train
take_train-holds q p ps m h k =
    let r = fill_train p.da p.da m.max_burst 1 ps in
    let e = fill_train-count q p.da p.da m.max_burst 1 ps in
    ground (arith, e, count-append q r.1 r.2)

choose_train-holds : (q : SfamaPacket → Bool) (m : Sfama) → holds q (choose_train m).1 ≡ holds q m
unfolding choose_train
choose_train-holds q m = grind (arith, take_train-holds q)

prepare-holds :
    (q : SfamaPacket → Bool) (env : SfamaEnv) (m : Sfama)
    → holds q (prepare_sending_data env m) ≡ holds q m
unfolding prepare_sending_data schedule_rts
prepare-holds q env m = ground (arith, choose_train-holds q m)

-- The data packets that an event, or all events, bring from above, as FillDATA makes them.
abbrev pub accepted : {m n : Sfama} → m ⟹ n → List SfamaPacket
accepted (packet_from_above env p m) = fill_data env p m ∷ []
accepted _ = []

abbrev pub all_accepted : {m n : Sfama} → m ⟹* n → List SfamaPacket
all_accepted no_event = []
all_accepted (and_then past e) = all_accepted past ++ accepted e

ack-holds :
    (q : SfamaPacket → Bool) (env : SfamaEnv) (p : SfamaPacket) (m : Sfama)
    → holds q (process_ack env p m) ≡ holds q m
unfolding process_ack
ack-holds q env p m =
    let m' = record (stop_timers m) { status = idle_wait } in
    ground (arith, prepare-holds q env (release_sent_packets m'), release-holds q m')

recv-holds :
    (q : SfamaPacket → Bool) (env : SfamaEnv) (p : SfamaPacket) (m : Sfama)
    → holds q (recv_process env p m) ≡ holds q m
unfolding recv_process process_rts process_cts process_data
recv-holds q env p m = ground (arith, ack-holds q env p m)

tx-holds :
    (q : SfamaPacket → Bool) (env : SfamaEnv) (p : SfamaPacket) (m : Sfama)
    → holds q (tx_process env p m) ≡ holds q m + count q (fill_data env p m ∷ [])
unfolding tx_process
tx-holds q env p m =
    let d = fill_data env p m in
    let m' = record m { cached = m.cached ++ d ∷ [] } in
    ground (arith, prepare-holds q env m', count-append q m.cached (d ∷ []))

wait_send-holds :
    (q : SfamaPacket → Bool) (env : SfamaEnv) (m : Sfama)
    → holds q (wait_send_timer_process env m) ≡ holds q m
unfolding wait_send_timer_process send_pkt
wait_send-holds q env m = ground arith

data_send-holds :
    (q : SfamaPacket → Bool) (env : SfamaEnv) (m : Sfama)
    → holds q (data_send_timer_process env m) ≡ holds q m
unfolding data_send_timer_process send_data_pkt
data_send-holds q env m = grind (arith, count-append q)

backoff-holds :
    (q : SfamaPacket → Bool) (env : SfamaEnv) (m : Sfama)
    → holds q (backoff_timer_process env m) ≡ holds q m
unfolding backoff_timer_process
backoff-holds q env m = prepare-holds q env (record m { status = idle_wait })

status-holds :
    (q : SfamaPacket → Bool) (env : SfamaEnv) (m : Sfama)
    → holds q (slot_init_handler env m) ≡ holds q m
unfolding status_process wait_reply_timer_process
status-holds q env m = ground arith

event-holds :
    (q : SfamaPacket → Bool) (m n : Sfama) (e : m ⟹ n)
    → holds q n ≡ holds q m + count q (accepted e)
unfolding wait_reply_timer_process
event-holds q _ _ (packet_received env p m) = omega (arith, recv-holds q env p m)
event-holds q _ _ (packet_from_above env p m) = tx-holds q env p m
event-holds q _ _ (wait_send_expires env m on) =
    omega (arith, wait_send-holds q env (expire wait_send_timer m))
event-holds q _ _ (wait_reply_expires env m on) = ground arith
event-holds q _ _ (backoff_expires env m on) =
    omega (arith, backoff-holds q env (expire backoff_timer m))
event-holds q _ _ (data_send_expires env m on) =
    omega (arith, data_send-holds q env (expire data_send_timer m))
event-holds q _ _ (slot_begins env m) = omega (arith, status-holds q env m)

-- Whatever events a node meets, in any order, it loses and doubles no data packet: of the packets that
-- pass a test, of whichever kind, the three queues and what an acknowledgement released hold together
-- as many as before the events, and those that came from above meanwhile.
pub packets_conserved :
    (q : SfamaPacket → Bool) (m n : Sfama) (past : m ⟹* n)
    → holds q n ≡ holds q m + count q (all_accepted past)
packets_conserved q m _ no_event = omega arith
packets_conserved q m o (and_then {n = n} past e) = omega (
  arith,
  packets_conserved q m n past,
  event-holds q n o e,
  count-append q (all_accepted past) (accepted e),
)
