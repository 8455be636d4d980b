-- ===== src/Aloha/Conserve.antt =====
-- What each call of an ALOHA node returns, and the packets that it then holds.
use aqua_sim_ng.Aloha.{
  aloha_size, attempt_with, backoff_with, depth, do_backoff, fill_data, make_ack, passive_with,
  process_passive, put_on_air, recv_ack, recv_data_packet, recv_process, refuse_with, release_front,
  reply_ack, send_data_pkt, send_pkt, send_with, status_process, tx_process,
}
use aqua_sim_ng.Aloha.State.{
  Aloha, AlohaEnv, AlohaPacket, cancel_wait_ack, emit_all, frame_up, is_ack, is_status, passive,
  power_up, send_data,
}
use aqua_sim_ng.Prelude.{
  Bool, List, Option, [], ap, arith, count, count-append, false, inl, inr, length, length-append,
  none, refl, some, sym, true, zero, ℕ, ◌%◌, ◌++◌, ◌+◌, ◌-◌, ◌==◌, ◌^◌, ◌∙◌, ◌∷◌, ◌≡◌, ◌⊎◌,
}

-- What the node took from above and did not forget.
abbrev pub holds : (AlohaPacket → Bool) → Aloha → ℕ
holds q m = count q m.queue + count q m.released + count q m.dropped

abbrev pub returns : Option Aloha → Bool
returns none = false
returns (some m) = true

abbrev pub weight : (AlohaPacket → Bool) → Option Aloha → ℕ
weight q none = 0
weight q (some m) = holds q m

-- m_txPacketDrops is the number of the packets given up.
abbrev pub is_counted : Option Aloha → Bool
is_counted none = false
is_counted (some m) = m.tx_packet_drops == length m.dropped

-- A call returns, the node holds so many packets, and those given up are counted.
pub record Ends (q : AlohaPacket → Bool) (n : ℕ) (r : Option Aloha) : Type 0 where
  pub returned : returns r ≡ true
  pub weighs : weight q r ≡ n
  pub counted : is_counted r ≡ true

release-holds : (q : AlohaPacket → Bool) (m : Aloha) → holds q (release_front m) ≡ holds q m
unfolding release_front
release-holds q m = grind (arith, count-append q)

module _ (q : AlohaPacket → Bool) (m : Aloha) (h : m.tx_packet_drops ≡ length m.dropped) where
  put_on_air-Ends :
      (env : AlohaEnv) (p : AlohaPacket) → Ends q (holds q m) (some (put_on_air env p m))
  unfolding put_on_air release_front
  put_on_air-Ends env p = grind (arith, count-append q, release-holds q m)

  -- While the status is not PASSIVE, the calls go no deeper.
  backoff-Ends :
      (send : Aloha → Option Aloha) (k : ℕ)
      → is_status passive m.status ≡ false
      → Ends q (holds q m) (backoff_with send k m)
  unfolding backoff_with passive_with
  backoff-Ends send k off = grind (arith, count-append q, length-append)

  -- Nor do they in whichever status, when SendDataPkt returns.
  refuse-Ends :
      (send : Aloha → Option Aloha) (env : AlohaEnv) (p : AlohaPacket)
      → is_status passive m.status ≡ false
      → Ends q (holds q m) (refuse_with send env p m)
  unfolding refuse_with
  refuse-Ends send env p off = ground (arith, backoff-Ends send (m.bo_counter + 1) off)

  refuse_ack-Ends :
      (send : Aloha → Option Aloha) (env : AlohaEnv) (p : AlohaPacket)
      → is_ack p.type ≡ true
      → Ends q (holds q m) (refuse_with send env p m)
  unfolding refuse_with
  refuse_ack-Ends send env p off = ground arith

powered-Ends :
    (q : AlohaPacket → Bool) (m : Aloha)
    → m.tx_packet_drops ≡ length m.dropped
    → (env : AlohaEnv) (p : AlohaPacket)
    → Ends q (holds q m) (some (put_on_air env p (emit_all (power_up ∷ []) m)))
powered-Ends q m h env p = put_on_air-Ends q (emit_all (power_up ∷ []) m) h env p

send-Ends :
    (q : AlohaPacket → Bool) (m : Aloha)
    → m.tx_packet_drops ≡ length m.dropped
    → (send : Aloha → Option Aloha) (env : AlohaEnv) (p : AlohaPacket)
    → (is_status passive m.status ≡ false) ⊎ (is_ack p.type ≡ true)
    → Ends q (holds q m) (send_with send env p m)
unfolding send_with
send-Ends q m h send env p s =
    let refused = elim s as (λ _. Ends q (holds q m) (refuse_with send env p m)) [
      | inl off ↦ refuse-Ends q m h send env p off
      | inr ack ↦ refuse_ack-Ends q m h send env p ack
    ] in
    ground (arith, put_on_air-Ends q m h env p, powered-Ends q m h env p, refused)

attempt-Ends :
    (q : AlohaPacket → Bool) (send : Aloha → Option Aloha) (env : AlohaEnv) (m : Aloha)
    → m.tx_packet_drops ≡ length m.dropped
    → Ends q (holds q m) (attempt_with send env m)
unfolding attempt_with
attempt-Ends q send env m h =
    let m' = record m { draws = m.draws + 1; status = send_data } in
    grind (
      arith,
      backoff-Ends q m' h send m.bo_counter refl,
      λ (p : AlohaPacket). send-Ends q m' h send env p (inl refl),
    )

pub send_data-Ends :
    (q : AlohaPacket → Bool) (env : AlohaEnv) (m : Aloha)
    → m.tx_packet_drops ≡ length m.dropped
    → Ends q (holds q m) (send_data_pkt depth env m)
unfolding send_data_pkt
send_data-Ends q env m h = attempt-Ends q (send_data_pkt zero env) env m h

passive-Ends :
    (q : AlohaPacket → Bool) (env : AlohaEnv) (m : Aloha)
    → m.tx_packet_drops ≡ length m.dropped
    → Ends q (holds q m) (process_passive env m)
unfolding passive_with
passive-Ends q env m h = grind (arith, send_data-Ends q env m h)

-- DoBackoff after the last backoff.
give_up-Ends :
    (q : AlohaPacket → Bool) (env : AlohaEnv) (k : ℕ) (p : AlohaPacket) (ps : List AlohaPacket)
    (m : Aloha)
    → m.tx_packet_drops ≡ length m.dropped
    → m.queue ≡ p ∷ ps
    → (let m' = record m {
      draws = m.draws + 1;
      bo_counter = 0;
      queue = ps;
      tx_packet_drops = m.tx_packet_drops + 1;
      dropped = m.dropped ++ p ∷ [];
    } in
        Ends q (holds q m) (process_passive env m'))
give_up-Ends q env k p ps m h e =
    let m' = record m {
      draws = m.draws + 1;
      bo_counter = 0;
      queue = ps;
      tx_packet_drops = m.tx_packet_drops + 1;
      dropped = m.dropped ++ p ∷ [];
    } in
    let r = passive-Ends q env m' (ground (arith, length-append m.dropped (p ∷ []))) in
    grind (arith, r, count-append q m.dropped (p ∷ []))

pub do_backoff-Ends :
    (q : AlohaPacket → Bool) (env : AlohaEnv) (m : Aloha)
    → m.tx_packet_drops ≡ length m.dropped
    → Ends q (holds q m) (do_backoff env m)
unfolding backoff_with
do_backoff-Ends q env m h = grind (arith, give_up-Ends q env)

release-counted : (m : Aloha) → (release_front m).tx_packet_drops ≡ m.tx_packet_drops
unfolding release_front
release-counted m = ground arith

release-dropped : (m : Aloha) → (release_front m).dropped ≡ m.dropped
unfolding release_front
release-dropped m = ground arith

-- SendPkt in whichever status.
pub send_any-Ends :
    (q : AlohaPacket → Bool) (env : AlohaEnv) (p : AlohaPacket) (m : Aloha)
    → m.tx_packet_drops ≡ length m.dropped
    → Ends q (holds q m) (send_pkt env p m)
unfolding send_with refuse_with
send_any-Ends q env p m h =
    ground (arith, put_on_air-Ends q m h env p, powered-Ends q m h env p, do_backoff-Ends q env m h)

pub status-Ends :
    (q : AlohaPacket → Bool) (env : AlohaEnv) (is_ack : Bool) (m : Aloha)
    → m.tx_packet_drops ≡ length m.dropped
    → Ends q (holds q m) (status_process env is_ack m)
unfolding status_process
status-Ends q env is_ack m h = ground (
  arith,
  passive-Ends q env (record m { blocked = false }) h,
  passive-Ends q env (record m { status = passive }) h,
)

pub tx-Ends :
    (q : AlohaPacket → Bool) (env : AlohaEnv) (p : AlohaPacket) (m : Aloha)
    → m.tx_packet_drops ≡ length m.dropped
    → Ends q (holds q m + count q (fill_data env p m ∷ [])) (tx_process env p m)
unfolding tx_process
tx-Ends q env p m h =
    let d = fill_data env p m in
    let m' = record m { queue = m.queue ++ d ∷ [] } in
    ground (arith, send_data-Ends q env m' h, count-append q m.queue (d ∷ []))

reply-Ends :
    (q : AlohaPacket → Bool) (env : AlohaEnv) (p : AlohaPacket) (m : Aloha)
    → m.tx_packet_drops ≡ length m.dropped
    → Ends q (holds q m) (reply_ack env p m)
unfolding reply_ack make_ack
reply-Ends q env p m h =
    grind (arith, send-Ends q m h (send_data_pkt depth env) env (make_ack env p.sa m) (inr refl))

recv_ack-Ends :
    (q : AlohaPacket → Bool) (env : AlohaEnv) (p : AlohaPacket) (m : Aloha)
    → m.tx_packet_drops ≡ length m.dropped
    → Ends q (holds q m) (recv_ack env p m)
unfolding recv_ack
recv_ack-Ends q env p m h =
    let m1 = emit_all (cancel_wait_ack ∷ []) (record m { bo_counter = 0 }) in
    let m2 = release_front m1 in
    let same =
      release-counted m1
      ∙ h
      ∙ ap (λ (ps : List AlohaPacket). length ps) (sym (release-dropped m1)) in
    ground (arith, passive-Ends q env (record m2 { status = passive }) same, release-holds q m1)

recv_data-Ends :
    (q : AlohaPacket → Bool) (env : AlohaEnv) (p : AlohaPacket) (m : Aloha)
    → m.tx_packet_drops ≡ length m.dropped
    → Ends q (holds q m) (recv_data_packet env p m)
unfolding recv_data_packet
recv_data-Ends q env p m h =
    let m' =
      emit_all (frame_up (record p { size = (p.size + 2 ^ 16 - aloha_size) % 2 ^ 16 }) ∷ []) m in
    ground (arith, reply-Ends q env p m' h, passive-Ends q env m' h)

pub recv-Ends :
    (q : AlohaPacket → Bool) (env : AlohaEnv) (p : AlohaPacket) (m : Aloha)
    → m.tx_packet_drops ≡ length m.dropped
    → Ends q (holds q m) (recv_process env p m)
unfolding recv_process
recv-Ends q env p m h = ground (arith, recv_ack-Ends q env p m h, recv_data-Ends q env p m h)
