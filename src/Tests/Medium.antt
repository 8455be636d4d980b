-- ===== src/Tests/Medium.antt =====
-- ALOHA at inputs.
use aqua_sim_ng.Aloha.{do_backoff, recv_process}
use aqua_sim_ng.Aloha.GiveUp.{give_up_stalls, tx_all}
use aqua_sim_ng.Aloha.LateAck.{ack_ignored}
use aqua_sim_ng.Aloha.Run.{AlohaEvent, packet_from_above, packet_received, status_due}
use aqua_sim_ng.Aloha.State.{
  Aloha, AlohaEnv, AlohaPacket, Modem, aloha_ack, aloha_data, new_aloha, nidle, passive, receiving,
  wait_ack,
}
use aqua_sim_ng.Prelude.{List, [], arith, false, inl, length, refl, some, true, ◌*◌, ◌+◌, ◌∷◌, ◌≡◌}

abbrev env_with : Modem → AlohaEnv
env_with s = record {
  now = 5;
  modem = s;
  persists = λ i. true;
  tx_time_of = λ n. 8 * n;
  estimated_rtt = λ t. t + 100;
  new_uid = 900;
  new_timer = 1;
}

abbrev outgoing : AlohaPacket
outgoing = record {
  type = aloha_data;
  sa = 0;
  da = 0;
  next_hop = 2;
  d_addr = 2;
  size = 50;
  tx_time = 0;
  timestamp = 0;
  error_flag = false;
  uid = 11;
}

abbrev ack_of_two : AlohaPacket
ack_of_two = record outgoing { type = aloha_ack; sa = 2; da = 1 }

abbrev sender : Aloha
sender = new_aloha 1 true

-- A packet is sent, and another waits. Then the first is acknowledged.
abbrev story : List (AlohaEnv × AlohaEvent)
story =
    (env_with nidle, packet_from_above outgoing)
    ∷ (env_with receiving, packet_from_above (record outgoing { uid = 12 }))
    ∷ (env_with nidle, status_due false)
    ∷ (env_with nidle, packet_received ack_of_two)
    ∷ []

-- A node that waits for an acknowledgement, after its last backoff.
abbrev tired : Aloha
tired = record sender { status = wait_ack; bo_counter = 65534; queue = outgoing ∷ outgoing ∷ [] }

give_up_stalls_example :
    (n m' : Aloha) × (do_backoff (env_with nidle) tired ≡ some n)
    × (n.queue ≡ outgoing ∷ [])
    × (n.out ≡ [])
    × (tx_all ((env_with nidle, outgoing) ∷ []) n ≡ some m')
    × (m'.status ≡ wait_ack)
    × (m'.out ≡ [])
    × (length m'.queue ≡ 1 + 1)
give_up_stalls_example =
    give_up_stalls (env_with nidle) ((env_with nidle, outgoing) ∷ []) outgoing (outgoing ∷ []) tired
      refl (omega arith) refl

abbrev data_for_one : AlohaPacket
data_for_one = record outgoing { sa = 3; da = 1; next_hop = 1 }

ack_ignored_example :
    (n : Aloha) × (recv_process (env_with receiving) data_for_one tired ≡ some n)
    × (n.status ≡ passive)
    × (n.queue ≡ outgoing ∷ outgoing ∷ [])
    × (recv_process (env_with nidle) ack_of_two n ≡ some n)
ack_ignored_example =
    ack_ignored (env_with receiving) (env_with nidle) data_for_one ack_of_two tired refl refl
      (inl refl) refl refl (λ e. omega arith) refl refl
