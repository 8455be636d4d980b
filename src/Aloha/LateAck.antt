-- ===== src/Aloha/LateAck.antt =====
-- An ALOHA node that gets a data packet while it waits for an acknowledgement.
use aqua_sim_ng.Address.{broadcast}
use aqua_sim_ng.Aloha.{
  aloha_size, make_ack, recv_ack, recv_data_packet, recv_process, refuse_with, reply_ack,
  reset_counter, retry_ack, send_with,
}
use aqua_sim_ng.Aloha.State.{
  Aloha, AlohaEnv, AlohaPacket, aloha_ack, aloha_data, busy, emit_all, frame_up, passive, receiving,
  wait_ack,
}
use aqua_sim_ng.Prelude.{
  ==_iff, [], arith, false, refl, some, true, ◌%◌, ◌+◌, ◌-◌, ◌^◌, ◌∷◌, ◌≡◌, ◌≢◌, ◌⊎◌,
}

passive_ignores :
    (env : AlohaEnv) (a : AlohaPacket) (n : Aloha)
    → a.type ≡ aloha_ack
    → n.status ≡ passive
    → recv_process env a n ≡ some n
unfolding recv_process recv_ack
passive_ignores env a n h k = ground arith

-- A node that waits for an ACK gets a data packet for itself and cannot answer it at once, since the
-- modem receives or sends. It becomes PASSIVE and keeps its front packet, and the ACK of that packet is
-- then ignored.
pub ack_ignored :
    (env env' : AlohaEnv) (p a : AlohaPacket) (m : Aloha)
    → m.status ≡ wait_ack
    → m.ack_on ≡ true
    → (env.modem ≡ receiving) ⊎ (env.modem ≡ busy)
    → p.type ≡ aloha_data
    → p.da ≡ m.address
    → p.da ≢ broadcast
    → p.error_flag ≡ false
    → a.type ≡ aloha_ack
    → (n : Aloha) × (recv_process env p m ≡ some n)
      × (n.status ≡ passive)
      × (n.queue ≡ m.queue)
      × (recv_process env' a n ≡ some n)
unfolding recv_process recv_data_packet reply_ack send_with refuse_with make_ack
ack_ignored env env' p a m st on mo ty da nb er at =
    let m' =
      emit_all (frame_up (record p { size = (p.size + 2 ^ 16 - aloha_size) % 2 ^ 16 }) ∷ []) m in
    let ack = make_ack env p.sa m' in
    let n =
      reset_counter
        (record (retry_ack env (record ack { timestamp = env.now }) m') { status = passive }) in
    (n, grind (arith, ==_iff), refl, refl, passive_ignores env' a n at refl)
