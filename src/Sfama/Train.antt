-- ===== src/Sfama/Train.antt =====
-- The train of data packets: ReleaseSentPkts, PrepareSendingDATA, GetPktTrainTxTime, ScheduleRTS.
pub mod Firsts
use aqua_sim_ng.Prelude.{
  List, [], if◌then◌else◌, is_empty, length, ltb, some, ℕ, ◌&&◌, ◌*◌, ◌++◌, ◌+◌, ◌-◌, ◌/◌, ◌==◌,
  ◌∷◌,
}
use aqua_sim_ng.Sfama.Packets.{make_rts, sfama_size}
use aqua_sim_ng.Sfama.State.{
  Sfama, SfamaEnv, SfamaPacket, idle_wait, is_status, schedule_timer, sfama_cts, wait_send_rts,
  wait_send_timer,
}

-- `ReleaseSentPkts`
unfoldable pub release_sent_packets : Sfama → Sfama
release_sent_packets m = record m { sending = []; released = m.released ++ m.sending }

-- The loop that fills the train, up to `pkt_num` packets: what goes into the train, what the loop
-- puts aside, and what it leaves. It compares the receiver with that of the first packet, whose
-- header it never reads again.
unfoldable pub fill_train :
    ℕ → ℕ → ℕ → ℕ → List SfamaPacket → List SfamaPacket × List SfamaPacket × List SfamaPacket
fill_train receiver first_da max_burst pkt_num [] = ([], [], [])
fill_train receiver first_da max_burst pkt_num (p ∷ q) =
    let (train, aside, left) = fill_train receiver first_da max_burst (pkt_num + 1) q in
    let (train', aside', left') = fill_train receiver first_da max_burst pkt_num q in
    if ltb pkt_num max_burst
    then (if receiver == first_da then (p ∷ train, aside, left) else (train', p ∷ aside', left'))
    else ([], [], p ∷ q)

-- `ScheduleRTS`
unfoldable pub schedule_rts : SfamaEnv → ℕ → ℕ → Sfama → Sfama
unfolding make_rts
schedule_rts env receiver slot_num m = record m {
  draws = m.draws + 1;
  status = wait_send_rts;
  wait_send_packet = some (make_rts env receiver slot_num m);
  out =
      schedule_timer wait_send_timer (env.random_slots m.draws * env.slot_len + env.coming_slot)
      ∷ m.out;
}

-- The choice of the train: the receiver, and the object with the train.
unfoldable pub choose_train : Sfama → ℕ × Sfama
unfolding fill_train
choose_train m =
    if is_status idle_wait m.status
    then elim m.sending [
      | p ∷ q ↦ (p.da, m)
      | [] ↦ elim m.cached [
        | [] ↦ (0, m)
        | p ∷ q ↦
            let (train, aside, left) = fill_train p.da p.da m.max_burst 1 q in
            (p.da, record m { sending = p ∷ train; cached = aside ++ left })
      ]
    ]
    else (0, m)

-- The sum over the train.
abbrev pub train_time : List SfamaPacket → ℕ
train_time [] = 0
train_time (p ∷ q) = p.tx_time + train_time q

-- `GetPktTrainTxTime`: going round the queue it leaves the queue as it was.
abbrev pub get_pkt_train_tx_time : Sfama → ℕ
get_pkt_train_tx_time m = train_time m.sending + (length m.sending - 1) * m.data_sending_interval

-- The slots that PrepareSendingDATA asks for. The train is taken to last as long as a CTS at least.
abbrev pub train_slots : SfamaEnv → Sfama → ℕ
train_slots env m =
    let additional_txtime = get_pkt_train_tx_time m - env.tx_time_of (sfama_size sfama_cts) in
    additional_txtime / env.slot_len + 1

-- `PrepareSendingDATA`
unfoldable pub prepare_sending_data : SfamaEnv → Sfama → Sfama
unfolding choose_train schedule_rts
prepare_sending_data env m =
    if is_empty m.sending && is_empty m.cached
    then m
    else (let (receiver, m') = choose_train m in schedule_rts env receiver (train_slots env m') m')
