-- ===== src/Sfama/Handshake/Steps.antt =====
-- What each step of the exchange does to a node.
use aqua_sim_ng.Prelude.{==_iff, List, Option, [], arith, none, some, true, ℕ, ◌++◌, ◌∷◌, ◌≡◌}
use aqua_sim_ng.Sfama.{
  data_send_timer_process, process_ack, process_cts, process_data, process_rts, recv_process,
  send_data_pkt, send_pkt, slot_init_handler, status_process, tx_process, wait_reply_timer_process,
  wait_send_timer_process,
}
use aqua_sim_ng.Sfama.Deliver.{deliveries}
use aqua_sim_ng.Sfama.Handshake.{At, data_slot, is_scheduled, last_sent, rts_slots, send_slot}
use aqua_sim_ng.Sfama.Packets.{fill_data, make_ack, make_cts, make_rts}
use aqua_sim_ng.Sfama.State.{
  Sfama, SfamaEnv, SfamaPacket, Status, backoff_fair, data_send_timer, idle_wait, nidle, sfama_ack,
  sfama_cts, sfama_data, sfama_rts, wait_recv_ack, wait_recv_cts, wait_recv_data, wait_send_ack,
  wait_send_cts, wait_send_data, wait_send_rts, wait_send_timer,
}
use aqua_sim_ng.Sfama.Step.{is_running}
use aqua_sim_ng.Sfama.Train.{
  choose_train, fill_train, prepare_sending_data, release_sent_packets, schedule_rts,
}

module _ {a : ℕ} {rel : List SfamaPacket} (env : SfamaEnv) (m : Sfama) where
  pub asks :
      {w : Option SfamaPacket} (p : SfamaPacket)
      → At a idle_wait [] [] rel w m
      → At a wait_send_rts
          (fill_data env p m ∷ [])
          []
          rel
          (some (make_rts env p.d_addr (rts_slots env p m) m))
          (tx_process env p m)
        × (is_running wait_send_timer (tx_process env p m).out ≡ true)
  unfolding tx_process fill_data prepare_sending_data choose_train fill_train schedule_rts make_rts
      is_running
  asks p h = grind arith

  pub sends :
      {sd bk : List SfamaPacket} {st : Status} (q : SfamaPacket)
      → env.transmission_status ≡ nidle
      → At a st sd bk rel (some q) m
      → At a st sd bk rel none (send_slot env m)
        × (last_sent (send_slot env m).out ≡ some (record q { timestamp = env.now }))
        × (deliveries (send_slot env m).out ≡ deliveries m.out)
        × (is_scheduled (send_slot env m).out ≡ true)
  unfolding wait_send_timer_process send_pkt deliveries
  sends q free h = grind arith

  pub rts_done :
      {sd bk : List SfamaPacket} {w : Option SfamaPacket}
      → At a wait_send_rts sd bk rel w m
      → At a wait_recv_cts sd bk rel w (slot_init_handler env m)
  unfolding status_process
  rts_done h = grind arith

  pub takes_cts :
      {sd bk : List SfamaPacket} {w : Option SfamaPacket} (p : SfamaPacket)
      → p.type ≡ sfama_cts
      → p.da ≡ a
      → At a wait_recv_cts sd bk rel w m
      → At a wait_send_data sd bk rel none (recv_process env p m)
        × (is_running wait_send_timer (recv_process env p m).out ≡ true)
  unfolding recv_process process_cts is_running
  takes_cts p t d h = grind (arith, ==_iff)

  pub starts_data :
      {sd bk : List SfamaPacket}
      → At a wait_send_data sd bk rel none m
      → At a wait_send_data sd bk rel none (send_slot env m)
        × (is_running data_send_timer (send_slot env m).out ≡ true)
  unfolding wait_send_timer_process is_running
  starts_data h = grind arith

  pub sends_data :
      {w : Option SfamaPacket} (d : SfamaPacket)
      → env.transmission_status ≡ nidle
      → At a wait_send_data (d ∷ []) [] rel w m
      → At a wait_send_data [] (d ∷ []) rel w (data_slot env m)
        × (last_sent (data_slot env m).out ≡ some (record d { timestamp = env.now }))
        × (is_running data_send_timer (data_slot env m).out ≡ true)
  unfolding data_send_timer_process send_data_pkt is_running
  sends_data d free h = grind arith

  pub ends_data :
      {bk : List SfamaPacket} {w : Option SfamaPacket}
      → At a wait_send_data [] bk rel w m
      → At a wait_send_data bk [] rel w (data_slot env m)
        × (is_scheduled (data_slot env m).out ≡ true)
  unfolding data_send_timer_process
  ends_data h = grind arith

  pub data_done :
      {sd bk : List SfamaPacket} {w : Option SfamaPacket}
      → At a wait_send_data sd bk rel w m
      → At a wait_recv_ack sd bk rel w (slot_init_handler env m)
  unfolding status_process
  data_done h = grind arith

  pub takes_ack :
      {sd bk : List SfamaPacket} {w : Option SfamaPacket} (p : SfamaPacket)
      → p.type ≡ sfama_ack
      → p.da ≡ a
      → At a wait_recv_ack sd bk rel w m
      → At a idle_wait [] bk (rel ++ sd) w (recv_process env p m)
  unfolding recv_process process_ack release_sent_packets prepare_sending_data
  takes_ack p t d h = grind (arith, ==_iff)

  pub takes_rts :
      {sd bk : List SfamaPacket} {w : Option SfamaPacket} (p : SfamaPacket)
      → p.type ≡ sfama_rts
      → p.da ≡ a
      → At a idle_wait sd bk rel w m
      → At a wait_send_cts sd bk rel (some (make_cts env p.sa p.slot_num m)) (recv_process env p m)
        × (deliveries (recv_process env p m).out ≡ deliveries m.out)
        × (is_running wait_send_timer (recv_process env p m).out ≡ true)
  unfolding recv_process process_rts deliveries is_running
  takes_rts p t d h = grind (arith, ==_iff)

  pub cts_done :
      {sd bk : List SfamaPacket} {w : Option SfamaPacket}
      → At a wait_send_cts sd bk rel w m
      → At a wait_recv_data sd bk rel w (slot_init_handler env m)
        × (deliveries (slot_init_handler env m).out ≡ deliveries m.out)
  unfolding deliveries status_process
  cts_done h = grind arith

  pub takes_data :
      {sd bk : List SfamaPacket} {w : Option SfamaPacket} (p : SfamaPacket)
      → p.type ≡ sfama_data
      → p.da ≡ a
      → At a wait_recv_data sd bk rel w m
      → At a wait_send_ack sd bk rel (some (make_ack env p.sa m)) (recv_process env p m)
        × (deliveries (recv_process env p m).out ≡ record p { size = 5 } ∷ deliveries m.out)
        × (is_running wait_send_timer (recv_process env p m).out ≡ true)
  unfolding recv_process process_data deliveries is_running
  takes_data p t d h = grind (arith, ==_iff)

  pub ack_done :
      {sd bk : List SfamaPacket} {w : Option SfamaPacket}
      → At a wait_send_ack sd bk rel w m
      → At a backoff_fair sd bk rel w (slot_init_handler env m)
        × (deliveries (slot_init_handler env m).out ≡ deliveries m.out)
  unfolding deliveries status_process wait_reply_timer_process
  ack_done h = grind arith
