-- ===== src/Aodv/Invariant/Sends.antt =====
-- Packets that are handed down or wait.
use aqua_sim_ng.Address.{address_key}
use aqua_sim_ng.Aodv.Data.{
  broadcast_data_packet, deliver_data_packet, drop_queued_packets, enqueue_packet, flush_queue,
  forward_data_packet, pending, report_stale_route, send_queued_packets,
}
use aqua_sim_ng.Aodv.Data.Report.{report_induction}
use aqua_sim_ng.Aodv.Header.{uwaodv_data}
use aqua_sim_ng.Aodv.Invariant.{
  Inv, Inv2, IsQueue, IsSent, IsWaiting, relayed, with_effect, with_queues,
}
use aqua_sim_ng.Aodv.Invariant.Routes.{invalidate_route-Inv}
use aqua_sim_ng.Aodv.Rerr.{forward_rerr, send_rerr_to}
use aqua_sim_ng.Aodv.Send.{send_down, send_up}
use aqua_sim_ng.Aodv.State.{AodvPacket, Env, Node}
use aqua_sim_ng.Aodv.Table.{has_valid_route, lookup_route}
use aqua_sim_ng.Prelude.{
  All, All-append, Bool-cases, List, Option-cases, [], arith, inl, inr, leb, length, length-append,
  refl, ℕ, ◌++◌, ◌∷◌, ◌≡◌, ◌≤◌,
}
use aqua_sim_ng.Prelude.Cases.{if_both, if_cases, option_both}
use aqua_sim_ng.Prelude.KeySet.{KeySet}
use aqua_sim_ng.Prelude.Map.{All-erase, All-find, All-insert, find}

module _ (o : Node) where
  -- The packet as `send_down` leaves it.
  pub send_down-Inv :
      (p : AodvPacket) (next_hop delay : ℕ) (n : Node)
      → relayed p ≤ o.max_hop_count
      → Inv o n
      → Inv o (send_down p next_hop delay n).0
  unfolding send_down IsSent
  send_down-Inv p next_hop delay n h i = with_effect i _ (i.address_same, refl, h)

  send_rerr_to-Inv : (env : Env) (d s p : ℕ) (n : Node) → Inv o n → Inv o (send_rerr_to env d s p n)
  unfolding send_rerr_to IsSent
  send_rerr_to-Inv env d s p n i =
      if_both (Inv o) _ _ _ i (with_effect i _ (i.address_same, refl, ground arith))

  pub forward_rerr-Inv :
      (env : Env) (d s : ℕ) (ps : KeySet ℕ) (n : Node) → Inv o n → Inv o (forward_rerr env d s ps n)
  unfolding forward_rerr
  forward_rerr-Inv env d s [] n i = i
  forward_rerr-Inv env d s (p ∷ ps) n i =
      forward_rerr-Inv env d s ps _ (send_rerr_to-Inv env d s p n i)

  pub report-Inv : (env : Env) (d : ℕ) (n : Node) → Inv o n → Inv o (report_stale_route env d n)
  report-Inv env d n i =
      report_induction env d n (Inv o) i
        (λ s v ps. forward_rerr-Inv env d s ps _ (invalidate_route-Inv o env.now d s v n i))

  pub forward_data_packet-Inv :
      (env : Env) (p : AodvPacket) (d : ℕ) (n : Node)
      → p.aodv.type ≡ uwaodv_data
      → p.ash.num_forwards ≤ o.max_hop_count
      → Inv o n
      → Inv o (forward_data_packet env p d n).0
  unfolding forward_data_packet IsSent
  forward_data_packet-Inv env p d n h b i =
      option_both (Inv2 o) (lookup_route env.now d n) _ _ (λ _. report-Inv env d n i)
        (λ route _. with_effect i _ (i.address_same, refl, ground arith))

  pub broadcast_data_packet-Inv :
      (p : AodvPacket) (n : Node) → IsWaiting p → Inv o n → Inv o (broadcast_data_packet p n).0
  unfolding broadcast_data_packet IsSent
  broadcast_data_packet-Inv p n h i = with_effect i _ (i.address_same, refl, ground arith)

  pub deliver_data_packet-Inv :
      (p : AodvPacket) (n : Node) → Inv o n → Inv o (deliver_data_packet p n).0
  unfolding deliver_data_packet send_up IsSent
  deliver_data_packet-Inv p n i = with_effect i _ tt

  flush_queue-Inv :
      (env : Env) (d : ℕ) (q : List AodvPacket) (n : Node)
      → All IsWaiting q
      → length q ≤ o.max_queue_len
      → Inv o n
      → Inv o (flush_queue env d q n)
  unfolding flush_queue
  flush_queue-Inv env d [] n h b i =
      with_queues i _ (All-erase (IsQueue o) d n.pending_queue i.queues_good)
  flush_queue-Inv env d (p ∷ q) n h b i =
      let m = (forward_data_packet env p d n).0 in
      elim (Bool-cases (has_valid_route env.now d n)) [
        | inl e ↦
            rw (e, flush_queue)
              (flush_queue-Inv env d q m h.1 (omega arith)
                (forward_data_packet-Inv env p d n h.0.0 (ground arith) i))
        | inr e ↦
            rw (e, flush_queue)
              (with_queues i _
                (All-insert (IsQueue o) d (p ∷ q) n.pending_queue (b, h) i.queues_good))
      ]

  pub send_queued_packets-Inv :
      (env : Env) (d : ℕ) (n : Node) → Inv o n → Inv o (send_queued_packets env d n)
  unfolding send_queued_packets
  send_queued_packets-Inv env d n i =
      option_both (Inv o) (find d n.pending_queue) _ _ (λ _. i)
        (λ q e.
          let h = All-find (IsQueue o) d q n.pending_queue i.queues_good e in
          flush_queue-Inv env d q n h.1 h.0 i)

  pub drop_queued_packets-Inv : (d : ℕ) (n : Node) → Inv o n → Inv o (drop_queued_packets d n)
  unfolding drop_queued_packets
  drop_queued_packets-Inv d n i =
      option_both (Inv o) (find d n.pending_queue) _ _ (λ _. i)
        (λ q e. with_queues i _ (All-erase (IsQueue o) d n.pending_queue i.queues_good))

  pending-IsQueue : (d : ℕ) (n : Node) → Inv o n → IsQueue o (d, pending d n)
  pending-IsQueue d n i = elim (Option-cases (find d n.pending_queue)) [
    | inl e ↦ rw e (omega arith, tt)
    | inr (q, e) ↦ rw e (All-find (IsQueue o) d q n.pending_queue i.queues_good e)
  ]

  pub enqueue_packet-Inv :
      (d : ℕ) (p : AodvPacket) (n : Node) → IsWaiting p → Inv o n → Inv o (enqueue_packet d p n).0
  unfolding enqueue_packet
  enqueue_packet-Inv d p n h i =
      let (len, all) = pending-IsQueue d n i in
      if_cases (Inv2 o) (leb n.max_queue_len (length (pending d n))) _ _
        (λ _.
          with_queues i _
            (All-insert (IsQueue o) d (pending d n) n.pending_queue (len, all) i.queues_good))
        (λ e. with_queues i _ (
          All-insert (IsQueue o) d (pending d n ++ p ∷ []) n.pending_queue
            (
              ground (arith, length-append (pending d n) (p ∷ []), i.config_same),
              All-append IsWaiting (pending d n) (p ∷ []) all (h, tt),
            )
            i.queues_good))
