-- ===== src/Tests/Slots.antt =====
-- Slotted FAMA at inputs.
use aqua_sim_ng.Prelude.{
  [], arith, count, false, inl, length, none, refl, some, true, ◌%◌, ◌*◌, ◌+◌, ◌==◌, ◌∷◌, ◌≡◌, ◌⊎◌,
}
use aqua_sim_ng.Sfama.{process_data, recv_process, tx_process, wait_send_timer_process}
use aqua_sim_ng.Sfama.Conserve.{all_accepted, holds, packets_conserved}
use aqua_sim_ng.Sfama.Deliver.{IsDelivered, deliveries, event-IsDelivered, second_data_cancels_ack}
use aqua_sim_ng.Sfama.Diagram.{IsTimed, ◌⟶◌}
use aqua_sim_ng.Sfama.Diagram.Moves.{event_follows_edge, reachable-IsTimed}
use aqua_sim_ng.Sfama.Handshake.{exchange, send_slot}
use aqua_sim_ng.Sfama.Handshake.Delivers.{IsIdle, exchange_delivers}
use aqua_sim_ng.Sfama.Packets.{fill_data, make_rts}
use aqua_sim_ng.Sfama.State.{
  Sfama, SfamaEnv, SfamaPacket, TransStatus, backoff, backoff_fair, new_sfama, nidle, receiving,
  sfama_data, sfama_other, timer_expired, wait_recv_data, wait_send_rts, wait_send_timer,
}
use aqua_sim_ng.Sfama.Step.{
  and_then, expire, is_running, no_event, packet_from_above, packet_received, wait_send_expires,
  ◌⟹*◌,
}
use aqua_sim_ng.Sfama.Stuck.{collision_is_final, tx_all}
use aqua_sim_ng.Sfama.Train.{choose_train, fill_train, prepare_sending_data, schedule_rts}
use aqua_sim_ng.Sfama.Train.Firsts.{choose_train-firsts}

-- Events at which the modem is in some state.
abbrev env_with : TransStatus → SfamaEnv
env_with t = record {
  now = 5;
  slot_len = 1000;
  coming_slot = 995;
  transmission_status = t;
  random_slots = λ i. i % 4;
  tx_time_of = λ n. 8 * n;
  new_uid = 900;
}

abbrev free_env : SfamaEnv
free_env = env_with nidle

-- A packet for node 2.
abbrev hello : SfamaPacket
hello = record {
  type = sfama_other;
  slot_num = 0;
  sa = 0;
  da = 0;
  d_addr = 2;
  size = 50;
  tx_time = 0;
  timestamp = 0;
  error_flag = false;
  uid = 11;
}

abbrev goodbye : SfamaPacket
goodbye = record hello { d_addr = 3; uid = 12 }

abbrev alice : Sfama
alice = new_sfama 1 2

abbrev bob : Sfama
bob = new_sfama 2 2

abbrev asking : Sfama
asking = tx_process free_env hello alice

asked : alice ⟹* asking
asked = and_then no_event (packet_from_above free_env hello alice)

asking_runs : is_running wait_send_timer asking.out ≡ true
unfolding tx_process prepare_sending_data choose_train fill_train schedule_rts fill_data is_running
asking_runs = refl

asking_status : asking.status ≡ wait_send_rts
unfolding tx_process prepare_sending_data choose_train fill_train schedule_rts fill_data
asking_status = refl

asking_packet : asking.wait_send_packet ≡ some (make_rts free_env 2 1 alice)
unfolding tx_process prepare_sending_data choose_train fill_train schedule_rts fill_data make_rts
asking_packet = refl

reachable-IsTimed_example : IsTimed asking
reachable-IsTimed_example = reachable-IsTimed 1 2 asking asked

event_follows_edge_example :
    ((send_slot free_env asking).status ≡ asking.status)
    ⊎ (asking.status ⟶ (send_slot free_env asking).status)
event_follows_edge_example =
    event_follows_edge 1 2 asking (send_slot free_env asking) asked
      (wait_send_expires free_env asking asking_runs)

packets_conserved_example :
    holds (λ p. p.uid == 11) asking
    ≡ holds (λ p. p.uid == 11) alice + count (λ p. p.uid == 11) (all_accepted asked)
packets_conserved_example = packets_conserved (λ p. p.uid == 11) alice asking asked

-- Node 2 when its CTS is away.
abbrev bob_ready : Sfama
bob_ready = record bob { status = wait_recv_data }

abbrev data_frame : SfamaPacket
data_frame = record hello { type = sfama_data; sa = 1; da = 2 }

event-IsDelivered_example :
    (deliveries (recv_process free_env data_frame bob_ready).out ≡ deliveries bob_ready.out)
    ⊎ IsDelivered bob_ready (recv_process free_env data_frame bob_ready)
event-IsDelivered_example =
    event-IsDelivered bob_ready (recv_process free_env data_frame bob_ready)
      (packet_received free_env data_frame bob_ready)

second_data_cancels_ack_example :
    (let n =
        process_data free_env
          (record data_frame { uid = 12 })
          (process_data free_env data_frame bob_ready) in
      (n.status ≡ backoff)
      × (is_running wait_send_timer n.out ≡ false)
      × (deliveries n.out ≡ record data_frame { size = 5 } ∷ []))
unfolding deliveries
second_data_cancels_ack_example =
    second_data_cancels_ack free_env free_env data_frame (record data_frame { uid = 12 }) bob_ready
      refl refl

-- The slot comes while the modem receives.
collision_is_final_example :
    (let n =
        tx_all
          ((free_env, goodbye) ∷ [])
          (wait_send_timer_process (env_with receiving) (expire wait_send_timer asking)) in
      (n.status ≡ wait_send_rts)
      × (n.wait_send_packet ≡ none)
      × (n.out ≡ timer_expired wait_send_timer ∷ asking.out)
      × (length n.cached ≡ length asking.cached + 1))
collision_is_final_example =
    collision_is_final (env_with receiving) (make_rts free_env 2 1 alice) ((free_env, goodbye) ∷ [])
      asking asking_status asking_packet (inl refl)

-- Two packets with receivers of their own.
abbrev loaded : Sfama
loaded = record alice {
  cached = fill_data free_env hello alice ∷ fill_data free_env goodbye alice ∷ [];
}

choose_train-firsts_example :
    choose_train loaded ≡ (2, record loaded { sending = loaded.cached; cached = [] })
unfolding fill_data
choose_train-firsts_example =
    choose_train-firsts loaded (fill_data free_env hello alice)
      (fill_data free_env goodbye alice ∷ []) refl refl refl (omega arith)

exchange_delivers_example :
    (s' r' : Sfama) × (exchange (λ i. free_env) hello alice bob ≡ some (s', r'))
    × IsIdle s'
    × (s'.released ≡ fill_data free_env hello alice ∷ [])
    × (r'.status ≡ backoff_fair)
    × (deliveries r'.out ≡ record (fill_data free_env hello alice) { size = 5; timestamp = 5 } ∷ [])
unfolding deliveries
exchange_delivers_example =
    exchange_delivers (λ i. free_env) hello alice bob (λ i. refl) (ground arith) (ground arith) refl
