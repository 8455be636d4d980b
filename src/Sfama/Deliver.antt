-- ===== src/Sfama/Deliver.antt =====
-- What a slotted FAMA node hands to the layer above, and what it releases.
use aqua_sim_ng.Prelude.{
  ==_iff, Bool-cases, List, [], arith, false, inl, inr, refl, some, true, ◌&&◌, ◌++◌, ◌==◌, ◌∷◌,
  ◌≡◌, ◌⊎◌,
}
use aqua_sim_ng.Sfama.{
  backoff_timer_process, data_send_timer_process, process_ack, process_cts, process_data,
  process_rts, recv_process, send_data_pkt, send_pkt, slot_init_handler, status_process,
  stop_timers, tx_process, wait_reply_timer_process, wait_send_timer_process,
}
use aqua_sim_ng.Sfama.Packets.{fill_data, make_ack}
use aqua_sim_ng.Sfama.State.{
  Sfama, SfamaEffect, SfamaEnv, SfamaPacket, backoff, backoff_timer, data_send_timer, deliver_frame,
  idle_wait, is_status, sfama_ack, wait_recv_data, wait_send_ack, wait_send_timer,
}
use aqua_sim_ng.Sfama.Step.{
  backoff_expires, data_send_expires, expire, is_running, packet_from_above, packet_received,
  slot_begins, wait_reply_expires, wait_send_expires, ◌⟹◌,
}
use aqua_sim_ng.Sfama.Train.{choose_train, prepare_sending_data, release_sent_packets, schedule_rts}

-- The packets handed up, the newest first.
unfoldable pub deliveries : List SfamaEffect → List SfamaPacket
deliveries [] = []
deliveries (deliver_frame p ∷ es) = p ∷ deliveries es
deliveries (_ ∷ es) = deliveries es

-- The answer to a data packet.
pub record IsAck (p : SfamaPacket) (m n : Sfama) : Type 0 where
  pub ack : SfamaPacket
  pub waits : n.wait_send_packet ≡ some ack
  pub timer_runs : is_running wait_send_timer n.out ≡ true
  pub is_ack : ack.type ≡ sfama_ack
  pub to_sender : ack.da ≡ p.sa
  pub from_node : ack.sa ≡ m.address

-- A data packet that the node waits for was handed up.
pub record IsDelivered (m n : Sfama) : Type 0 where
  pub packet : SfamaPacket
  pub for_node : packet.da ≡ m.address
  pub before : m.status ≡ wait_recv_data
  pub after : n.status ≡ wait_send_ack
  pub delivered : deliveries n.out ≡ packet ∷ deliveries m.out
  pub acked : IsAck packet m n

prepare-out :
    (env : SfamaEnv) (m : Sfama)
    → (deliveries (prepare_sending_data env m).out ≡ deliveries m.out)
      × ((prepare_sending_data env m).released ≡ m.released)
unfolding prepare_sending_data schedule_rts choose_train deliveries
prepare-out env m = ground arith

pub data-IsDelivered :
    (env : SfamaEnv) (p : SfamaPacket) (m : Sfama)
    → p.da ≡ m.address
    → m.status ≡ wait_recv_data
    → IsDelivered m (process_data env p m)
unfolding process_data make_ack deliveries is_running
data-IsDelivered env p m h k = record {
  packet = record p { size = 5 };
  for_node = h;
  before = k;
  after = ground (arith, ==_iff p.da m.address);
  delivered = ground (arith, ==_iff p.da m.address);
  acked = record {
    ack = make_ack env p.sa m;
    waits = ground (arith, ==_iff p.da m.address);
    timer_runs = ground (arith, ==_iff p.da m.address);
    is_ack = refl;
    to_sender = refl;
    from_node = refl;
  };
}

data_refused :
    (env : SfamaEnv) (p : SfamaPacket) (m : Sfama)
    → p.da == m.address && is_status wait_recv_data m.status ≡ false
    → deliveries (process_data env p m).out ≡ deliveries m.out
unfolding process_data deliveries
data_refused env p m h = rw h refl

data-cases :
    (env : SfamaEnv) (p : SfamaPacket) (m : Sfama)
    → (deliveries (process_data env p m).out ≡ deliveries m.out)
      ⊎ IsDelivered m (process_data env p m)
data-cases env p m = elim (Bool-cases (p.da == m.address && is_status wait_recv_data m.status)) [
  | inl e ↦ inr (
      data-IsDelivered env p m (ground (arith, ==_iff p.da m.address))
        (ground (arith, ==_iff p.da m.address)))
  | inr e ↦ inl (data_refused env p m e)
]

ack-out :
    (env : SfamaEnv) (p : SfamaPacket) (m : Sfama)
    → deliveries (process_ack env p m).out ≡ deliveries m.out
unfolding process_ack release_sent_packets deliveries
ack-out env p m =
    ground (
      arith,
      prepare-out env (release_sent_packets (record (stop_timers m) { status = idle_wait })),
    )

recv-cases :
    (env : SfamaEnv) (p : SfamaPacket) (m : Sfama)
    → (deliveries (recv_process env p m).out ≡ deliveries m.out)
      ⊎ IsDelivered m (recv_process env p m)
unfolding recv_process process_rts process_cts deliveries
recv-cases env p m = ground (arith, data-cases env p m, ack-out env p m)

tx-out :
    (env : SfamaEnv) (p : SfamaPacket) (m : Sfama)
    → deliveries (tx_process env p m).out ≡ deliveries m.out
unfolding tx_process
tx-out env p m =
    ground (arith, prepare-out env (record m { cached = m.cached ++ fill_data env p m ∷ [] }))

pub wait_send-out :
    (env : SfamaEnv) (m : Sfama) → deliveries (wait_send_timer_process env m).out ≡ deliveries m.out
unfolding wait_send_timer_process send_pkt deliveries
wait_send-out env m = ground arith

data_send-out :
    (env : SfamaEnv) (m : Sfama) → deliveries (data_send_timer_process env m).out ≡ deliveries m.out
unfolding data_send_timer_process send_data_pkt deliveries
data_send-out env m = ground arith

pub slot-out :
    (env : SfamaEnv) (m : Sfama) → deliveries (slot_init_handler env m).out ≡ deliveries m.out
unfolding status_process wait_reply_timer_process deliveries
slot-out env m = ground arith

-- Each event hands up nothing, or one packet, which is for this node and which it waited for in
-- WAIT_RECV_DATA. Then the status is WAIT_SEND_ACK, an ACK from this node to the packet's sender waits
-- to be sent, and the timer for sending runs.
pub event-IsDelivered :
    (m n : Sfama) → m ⟹ n → (deliveries n.out ≡ deliveries m.out) ⊎ IsDelivered m n
unfolding wait_reply_timer_process backoff_timer_process deliveries
event-IsDelivered _ _ (packet_received env p m) = recv-cases env p m
event-IsDelivered _ _ (packet_from_above env p m) = inl (tx-out env p m)
event-IsDelivered _ _ (wait_send_expires env m on) =
    inl (wait_send-out env (expire wait_send_timer m))
event-IsDelivered _ _ (wait_reply_expires env m on) = inl refl
event-IsDelivered _ _ (backoff_expires env m on) =
    inl (prepare-out env (record (expire backoff_timer m) { status = idle_wait })).0
event-IsDelivered _ _ (data_send_expires env m on) =
    inl (data_send-out env (expire data_send_timer m))
event-IsDelivered _ _ (slot_begins env m) = inl (slot-out env m)

-- Where a data packet was taken, a second one, before anything else happens, is not handed up. It puts
-- the node in BACKOFF, and the timer that would have sent the ACK of the first no longer runs.
pub second_data_cancels_ack :
    (env env' : SfamaEnv) (p q : SfamaPacket) (m : Sfama)
    → p.da ≡ m.address
    → m.status ≡ wait_recv_data
    → (let n = process_data env' q (process_data env p m) in
        (n.status ≡ backoff)
        × (is_running wait_send_timer n.out ≡ false)
        × (deliveries n.out ≡ record p { size = 5 } ∷ deliveries m.out))
unfolding process_data make_ack deliveries is_running
second_data_cancels_ack env env' p q m h k = ground (arith, ==_iff p.da m.address)
