-- ===== src/Aloha.antt =====
-- model/aqua-sim-mac-aloha.h and .cc, class AquaSimAloha.
pub mod State
pub mod Run
pub mod Conserve
pub mod GiveUp
pub mod LateAck
use mathlib.Core.Option
use aqua_sim_ng.Address.{broadcast}
use aqua_sim_ng.Aloha.State.{
  Aloha, AlohaEnv, AlohaPacket, aloha_ack, aloha_data, aloha_other, asleep, backoff, busy,
  cancel_wait_ack, emit_all, frame_down, frame_up, is_ack, is_data, is_status, maximum_counter,
  nidle, passive, power_up, receiving, schedule_retry, schedule_send_data, schedule_status,
  schedule_wait_ack, send_data, wait_ack,
}
use aqua_sim_ng.Prelude.{
  Bool, List, Option, [], false, if◌then◌else◌, is_empty, leb, length, ltb, none, not, some, suc,
  true, zero, ℕ, ◌%◌, ◌&&◌, ◌++◌, ◌+◌, ◌-◌, ◌==◌, ◌^◌, ◌||◌, ◌∷◌,
}

-- `AlohaHeader::GetSize`
abbrev pub aloha_size : ℕ
aloha_size = 2 + 2 + 1

-- `MakeACK`
unfoldable pub make_ack : AlohaEnv → ℕ → Aloha → AlohaPacket
make_ack env data_sender m = record {
  type = aloha_ack;
  sa = m.address;
  da = data_sender;
  next_hop = data_sender;
  d_addr = 0;
  size = aloha_size;
  tx_time = env.tx_time_of aloha_size;
  timestamp = 0;
  error_flag = false;
  uid = env.new_uid;
}

-- `RetryACK`
abbrev pub retry_ack : AlohaEnv → AlohaPacket → Aloha → Aloha
retry_ack env ack m =
    emit_all (schedule_retry m.draws env.new_timer ack ∷ [])
      (record m { draws = m.draws + 1; retry_timers = env.new_timer ∷ m.retry_timers })

-- `PktQ_.pop()` of a packet that is taken to be sent.
unfoldable pub release_front : Aloha → Aloha
release_front m = elim m.queue [
  | [] ↦ m
  | p ∷ q ↦ record m { queue = q; released = m.released ++ p ∷ [] }
]

-- `SendPkt` in NIDLE.
unfoldable pub put_on_air : AlohaEnv → AlohaPacket → Aloha → Aloha
unfolding release_front
put_on_air env p m =
    let m' =
      if is_data p.type
      then (if not (p.da == broadcast) && m.ack_on
          then emit_all (schedule_wait_ack (env.estimated_rtt p.tx_time) ∷ [])
              (record m { status = wait_ack; last_is_ack = false })
          else record (release_front m) { status = passive; last_is_ack = false })
      else record m { last_is_ack = true } in
    record m' {
      blocked = true;
      out =
          schedule_status p.tx_time m'.last_is_ack
          ∷ frame_down (record p { timestamp = env.now })
          ∷ m'.out;
    }

-- SendDataPkt, SendPkt, DoBackoff and ProcessPassive call each other. The functions of this section
-- take the SendDataPkt that ProcessPassive calls as an argument.
module _ (send : Aloha → Option Aloha) where
  -- `ProcessPassive`
  unfoldable pub passive_with : Aloha → Option Aloha
  passive_with m =
      if is_status passive m.status && not m.blocked && not (is_empty m.queue)
      then send m
      else some m

  -- `DoBackoff`, with the value of `m_boCounter` after `m_boCounter++`.
  unfoldable pub backoff_with : ℕ → Aloha → Option Aloha
  unfolding passive_with
  backoff_with counter m =
      let m' = record m { draws = m.draws + 1; bo_counter = counter } in
      if ltb counter maximum_counter
      then some (emit_all (schedule_send_data m.draws ∷ []) (record m' { status = backoff }))
      else elim m.queue [
        | [] ↦ some (record m' { bo_counter = 0 })
        | p ∷ q ↦ passive_with (record m' {
          bo_counter = 0;
          queue = q;
          tx_packet_drops = m.tx_packet_drops + 1;
          dropped = m.dropped ++ p ∷ [];
        })
      ]

  -- `SendPkt` where the modem is not free.
  unfoldable pub refuse_with : AlohaEnv → AlohaPacket → Aloha → Option Aloha
  unfolding backoff_with
  refuse_with env p m =
      if is_ack p.type
      then some (record (retry_ack env (record p { timestamp = env.now }) m) { status = passive })
      else backoff_with (m.bo_counter + 1) m

  -- `SendPkt`: SLEEP falls through to NIDLE.
  unfoldable pub send_with : AlohaEnv → AlohaPacket → Aloha → Option Aloha
  unfolding put_on_air refuse_with
  send_with env p m = elim env.modem [
    | asleep ↦ some (put_on_air env p (emit_all (power_up ∷ []) m))
    | nidle ↦ some (put_on_air env p m)
    | receiving ↦ refuse_with env p m
    | busy ↦ refuse_with env p m
  ]

  -- `SendDataPkt`. Where it does not persist, `m_boCounter--` comes before the increment of DoBackoff.
  unfoldable pub attempt_with : AlohaEnv → Aloha → Option Aloha
  unfolding send_with backoff_with
  attempt_with env m = elim m.queue [
    | [] ↦ some m
    | p ∷ q ↦
        let m' = record m { draws = m.draws + 1; status = send_data } in
        if env.persists m.draws then send_with env p m' else backoff_with m.bo_counter m'
  ]

-- `SendDataPkt`, or none when the calls within calls are more than the fuel.
unfoldable pub send_data_pkt : ℕ → AlohaEnv → Aloha → Option Aloha
unfolding attempt_with
send_data_pkt zero env m = none
send_data_pkt (suc k) env m = attempt_with (send_data_pkt k env) env m

-- How deep the calls go.
abbrev pub depth : ℕ
depth = 1

-- `ProcessPassive`
abbrev pub process_passive : AlohaEnv → Aloha → Option Aloha
process_passive env m = passive_with (send_data_pkt depth env) m

-- `DoBackoff`
abbrev pub do_backoff : AlohaEnv → Aloha → Option Aloha
do_backoff env m = backoff_with (send_data_pkt depth env) (m.bo_counter + 1) m

-- `SendPkt`
abbrev pub send_pkt : AlohaEnv → AlohaPacket → Aloha → Option Aloha
send_pkt env p m = send_with (send_data_pkt depth env) env p m

-- `StatusProcess`
unfoldable pub status_process : AlohaEnv → Bool → Aloha → Option Aloha
unfolding passive_with send_data_pkt
status_process env is_ack m =
    if m.blocked
    then process_passive env (record m { blocked = false })
    else if not m.ack_on
    then process_passive env (record m { status = passive })
    else if not is_ack
    then some (record m { status = wait_ack })
    else some m

-- What `TxProcess` makes of a packet.
unfoldable pub fill_data : AlohaEnv → AlohaPacket → Aloha → AlohaPacket
fill_data env p m = record p {
  type = aloha_data;
  sa = m.address;
  da = if p.next_hop == broadcast then p.d_addr else p.next_hop;
  size = (aloha_size + p.size) % 2 ^ 16;
  tx_time = env.tx_time_of ((aloha_size + p.size) % 2 ^ 16);
  error_flag = false;
}

-- `TxProcess`
unfoldable pub tx_process : AlohaEnv → AlohaPacket → Aloha → Option Aloha
unfolding fill_data send_data_pkt
tx_process env p m =
    let m' = record m { queue = m.queue ++ fill_data env p m ∷ [] } in
    if is_status passive m'.status && leb 1 (length m'.queue) && not m'.blocked
    then send_data_pkt depth env m'
    else some m'

abbrev pub reset_counter : Aloha → Aloha
reset_counter m = record m { bo_counter = 0 }

-- `ReplyACK`
unfoldable pub reply_ack : AlohaEnv → AlohaPacket → Aloha → Option Aloha
unfolding make_ack send_with send_data_pkt
reply_ack env p m = Option.map reset_counter (send_pkt env (make_ack env p.sa m) m)

-- `RecvProcess` of an acknowledgement.
unfoldable pub recv_ack : AlohaEnv → AlohaPacket → Aloha → Option Aloha
unfolding release_front passive_with send_data_pkt
recv_ack env p m =
    if p.da == m.address && is_status wait_ack m.status
    then process_passive env
        (record (release_front (emit_all (cancel_wait_ack ∷ []) (record m { bo_counter = 0 }))) {
          status = passive;
        })
    else some m

-- `RecvProcess` of a data packet.
unfoldable pub recv_data_packet : AlohaEnv → AlohaPacket → Aloha → Option Aloha
unfolding reply_ack passive_with send_data_pkt
recv_data_packet env p m =
    let m' =
      emit_all (frame_up (record p { size = (p.size + 2 ^ 16 - aloha_size) % 2 ^ 16 }) ∷ []) m in
    if p.da == m.address || p.da == broadcast
    then (if m.ack_on && not (p.da == broadcast)
        then reply_ack env p m'
        else process_passive env m')
    else some m

-- `RecvProcess`
unfoldable pub recv_process : AlohaEnv → AlohaPacket → Aloha → Option Aloha
unfolding recv_ack recv_data_packet
recv_process env p m = if p.error_flag then some m else elim p.type [
  | aloha_ack ↦ recv_ack env p m
  | aloha_data ↦ recv_data_packet env p m
  | aloha_other ↦ some m
]

abbrev pub remove_timer : ℕ → List ℕ → List ℕ
remove_timer id [] = []
remove_timer id (x ∷ xs) = if x == id then remove_timer id xs else x ∷ remove_timer id xs

-- `ProcessRetryTimer`
unfoldable pub process_retry_timer : AlohaEnv → ℕ → AlohaPacket → Aloha → Option Aloha
unfolding send_with send_data_pkt
process_retry_timer env id p m =
    send_pkt env p (record m { retry_timers = remove_timer id m.retry_timers })

-- `DoDispose`
unfoldable pub dispose_aloha : Aloha → Aloha
dispose_aloha m = record m { queue = []; retry_timers = [] }
