-- ===== src/Aodv/Invariant/Requests.antt =====
-- RecvRreq.
use aqua_sim_ng.Address.{address_key}
use aqua_sim_ng.Aodv.Header.{AodvHeader, uwaodv_rreq}
use aqua_sim_ng.Aodv.Invariant.{Inv, Inv2, IsSent, with_effect}
use aqua_sim_ng.Aodv.Invariant.Replies.{
  queue_rrep_candidate-Inv, seen-Inv, send_rrep-Inv, send_rrep_via-Inv,
}
use aqua_sim_ng.Aodv.Invariant.Routes.{update_route-Inv}
use aqua_sim_ng.Aodv.Recv.{
  answer_rreq, catch_up, effective_hop_limit, forward_rreq, has_fresh_route, is_duplicate_rreq,
  key_of, recv_rreq, relay_rreq,
}
use aqua_sim_ng.Aodv.State.{AodvPacket, Config, Env, Node, inc16, inc32, request_key}
use aqua_sim_ng.Aodv.Table.{update_route}
use aqua_sim_ng.Prelude.{
  Bool-cases, ap, arith, if◌then◌else◌, inl, inr, leb, refl, true, ℕ, ◌&&◌, ◌<◌, ◌==◌, ◌≡◌, ◌≤◌,
}
use aqua_sim_ng.Prelude.Cases.{if_both}
use aqua_sim_ng.Prelude.KeySet.{include}

module _ (o : Node) where
  effective_hop_limit-bound :
      (aodv : AodvHeader) (n : Node) → Inv o n → effective_hop_limit aodv n ≤ o.max_hop_count
  unfolding effective_hop_limit
  effective_hop_limit-bound aodv n i = ground (arith, ap Config.max_hop_count i.config_same)

  forward_rreq-Inv :
      (env : Env) (p : AodvPacket) (n : Node)
      → p.aodv.type ≡ uwaodv_rreq
      → p.aodv.hop_count < o.max_hop_count
      → Inv o n
      → Inv o (forward_rreq env p n)
  unfolding forward_rreq IsSent
  forward_rreq-Inv env p n h b i = with_effect i _ (i.address_same, refl, ground arith)

  pub relay_rreq-Inv :
      (env : Env) (p : AodvPacket) (n : Node)
      → p.aodv.type ≡ uwaodv_rreq
      → Inv o n
      → Inv2 o (relay_rreq env p n)
  unfolding relay_rreq
  relay_rreq-Inv env p n h i = elim (Bool-cases (has_fresh_route env.now p.aodv n)) [
    | inl e ↦ rw (e, relay_rreq) (send_rrep-Inv o env p.aodv.origin p.aodv.destination n i)
    | inr e ↦
        rw (e, relay_rreq)
          (elim (Bool-cases (leb (effective_hop_limit p.aodv n) p.aodv.hop_count)) [
            | inl f ↦ rw f i
            | inr f ↦ rw f (
                forward_rreq-Inv env p n h (ground (arith, effective_hop_limit-bound p.aodv n i)) i)
          ])
  ]

  catch_up-Inv : (aodv : AodvHeader) (n : Node) → Inv o n → Inv o (catch_up aodv n)
  unfolding catch_up
  catch_up-Inv aodv n i =
      if_both (Inv o) _ (record n { sequence_number = inc32 aodv.dest_seq_no }) n i i

  answer_rreq-Inv :
      (env : Env) (aodv : AodvHeader) (previous_hop : ℕ) (n : Node)
      → Inv o n
      → Inv2 o (answer_rreq env aodv previous_hop n)
  unfolding answer_rreq
  answer_rreq-Inv env aodv previous_hop n i =
      let m = catch_up aodv n in
      let j : Inv o m = catch_up-Inv aodv n i in
      elim (Bool-cases m.enable_rreq_collection) [
        | inl e ↦ rw e (queue_rrep_candidate-Inv o env (key_of aodv) aodv previous_hop m j)
        | inr e ↦ rw e (
            send_rrep_via-Inv o env aodv.origin m.address previous_hop _
              (seen-Inv o (key_of aodv) m j))
      ]

  pub recv_rreq-Inv :
      (env : Env) (p : AodvPacket) (previous_hop : ℕ) (n : Node)
      → p.aodv.type ≡ uwaodv_rreq
      → Inv o n
      → Inv2 o (recv_rreq env p previous_hop n)
  unfolding recv_rreq
  recv_rreq-Inv env p previous_hop n h i =
      let seen = record n { seen_rreqs = include (key_of p.aodv) n.seen_rreqs } in
      let m = if (p.aodv.destination == n.address) && n.enable_rreq_collection then n else seen in
      let j : Inv o m =
        if_both (Inv o) ((p.aodv.destination == n.address) && n.enable_rreq_collection) n seen i
          (seen-Inv o (key_of p.aodv) n i) in
      let m' =
        update_route env.now p.aodv.origin previous_hop (inc16 p.aodv.hop_count)
          p.aodv.origin_seq_no true m.route_lifetime m in
      let j' : Inv o m' =
        update_route-Inv o env.now p.aodv.origin previous_hop (inc16 p.aodv.hop_count)
          p.aodv.origin_seq_no true m.route_lifetime m j in
      elim (Bool-cases (is_duplicate_rreq p.aodv n)) [
        | inl e ↦ rw e i
        | inr e ↦ rw e (elim (Bool-cases (p.aodv.origin == n.address)) [
          | inl f ↦ rw f j
          | inr f ↦ rw f (
              if_both (Inv2 o) (p.aodv.destination == n.address)
                (answer_rreq env p.aodv previous_hop m') (relay_rreq env p m')
                (answer_rreq-Inv env p.aodv previous_hop m' j') (relay_rreq-Inv env p m' h j'))
        ])
      ]
