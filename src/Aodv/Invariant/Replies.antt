-- ===== src/Aodv/Invariant/Replies.antt =====
-- Route replies.
use aqua_sim_ng.Address.{address_key}
use aqua_sim_ng.Aodv.Header.{AodvHeader, uwaodv_rrep}
use aqua_sim_ng.Aodv.Invariant.{Inv, IsSent, Remembers, with_effect, with_seen}
use aqua_sim_ng.Aodv.Invariant.Routes.{update_route-Inv}
use aqua_sim_ng.Aodv.Reply.{
  count_no_route, forward_rrep, queue_rrep_candidate, reply_to_candidate, send_collected_rrep,
  send_rrep, send_rrep_via, transmit_rrep,
}
use aqua_sim_ng.Aodv.State.{AodvPacket, Env, Node, RequestKey, RreqCandidate, inc32, request_key}
use aqua_sim_ng.Aodv.Table.{lookup_route}
use aqua_sim_ng.Prelude.{
  Bool-cases, Option-cases, arith, if◌then◌else◌, inl, inr, not, refl, true, ℕ, ◌==◌, ◌≡◌,
}
use aqua_sim_ng.Prelude.Cases.{if_both, option_both}
use aqua_sim_ng.Prelude.KeySet.{KeySet, contains-include, include}
use aqua_sim_ng.Prelude.Map.{erase, find}

module _ (o : Node) where
  Remembers-include :
      (k : RequestKey) (s : KeySet RequestKey)
      → Remembers o.seen_rreqs s
      → Remembers o.seen_rreqs (include k s)
  Remembers-include k s h j = ground (arith, contains-include k j s, h j)

  -- A request is marked as seen.
  pub seen-Inv :
      (k : RequestKey) (n : Node)
      → Inv o n
      → Inv o (record n { seen_rreqs = include k n.seen_rreqs })
  seen-Inv k n i = with_seen i _ (Remembers-include k n.seen_rreqs i.remembers)

  transmit_rrep-Inv :
      (env : Env) (origin d next_hop hop_count seq_no lifetime : ℕ) (n : Node)
      → Inv o n
      → Inv o (transmit_rrep env origin d next_hop hop_count seq_no lifetime n)
  unfolding transmit_rrep IsSent
  transmit_rrep-Inv env origin d next_hop hop_count seq_no lifetime n i =
      with_effect i _ (i.address_same, refl, ground arith)

  pub send_rrep_via-Inv :
      (env : Env) (origin d next_hop : ℕ) (n : Node)
      → Inv o n
      → Inv o (send_rrep_via env origin d next_hop n)
  unfolding send_rrep_via
  send_rrep_via-Inv env origin d next_hop n i =
      let m =
        if n.sequence_number == 0
        then record n { sequence_number = inc32 n.sequence_number }
        else n in
      let j : Inv o m =
        if_both (Inv o) (n.sequence_number == 0)
          (record n { sequence_number = inc32 n.sequence_number }) n i i in
      elim (Bool-cases (d == n.address)) [
        | inl e ↦
            rw e (transmit_rrep-Inv env origin d next_hop 0 m.sequence_number m.route_lifetime m j)
        | inr e ↦ rw e (
            option_both (Inv o) (lookup_route env.now d n) (count_no_route n) _ (λ _. i)
              (λ route _.
                transmit_rrep-Inv env origin d next_hop route.hop_count route.dest_seq_no _ n i))
      ]

  pub send_rrep-Inv :
      (env : Env) (origin d : ℕ) (n : Node) → Inv o n → Inv o (send_rrep env origin d n)
  unfolding send_rrep
  send_rrep-Inv env origin d n i =
      option_both (Inv o) (lookup_route env.now origin n) (count_no_route n) _ (λ _. i)
        (λ r _. send_rrep_via-Inv env origin d r.next_hop n i)

  pub queue_rrep_candidate-Inv :
      (env : Env) (key : RequestKey) (aodv : AodvHeader) (previous_hop : ℕ) (n : Node)
      → Inv o n
      → Inv o (queue_rrep_candidate env key aodv previous_hop n)
  unfolding queue_rrep_candidate IsSent
  queue_rrep_candidate-Inv env key aodv previous_hop n i =
      elim (Option-cases (find key n.rreq_collections)) [
        | inl e ↦ rw (e, queue_rrep_candidate) (with_effect i _ tt)
        | inr (c, e) ↦ rw (e, queue_rrep_candidate) i
      ]

  reply_to_candidate-Inv :
      (env : Env) (key : RequestKey) (best : RreqCandidate) (n : Node)
      → Inv o n
      → Inv o (reply_to_candidate env key best n)
  unfolding reply_to_candidate
  reply_to_candidate-Inv env key best n i = send_rrep_via-Inv env key.first _ best.previous_hop _ (
      update_route-Inv o env.now key.first best.previous_hop best.hop_count best.origin_seq_no true
        n.route_lifetime
        (record n {
          rreq_collections = erase key n.rreq_collections;
          seen_rreqs = include key n.seen_rreqs;
        })
        (seen-Inv key n i))

  pub send_collected_rrep-Inv :
      (env : Env) (key : RequestKey) (n : Node) → Inv o n → Inv o (send_collected_rrep env key n)
  unfolding send_collected_rrep
  send_collected_rrep-Inv env key n i = elim (Option-cases (find key n.rreq_collections)) [
    | inl e ↦ rw (e, send_collected_rrep) i
    | inr (c, e) ↦
        rw (e, send_collected_rrep)
          (if_both (Inv o) (not c.has_candidate) n (reply_to_candidate env key c.best n) i
            (reply_to_candidate-Inv env key c.best n i))
  ]

  pub forward_rrep-Inv :
      (p : AodvPacket) (next_hop : ℕ) (n : Node)
      → p.aodv.type ≡ uwaodv_rrep
      → Inv o n
      → Inv o (forward_rrep p next_hop n)
  unfolding forward_rrep IsSent
  forward_rrep-Inv p next_hop n h i = with_effect i _ (i.address_same, refl, ground arith)
