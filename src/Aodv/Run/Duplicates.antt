-- ===== src/Aodv/Run/Duplicates.antt =====
-- Copies of a request over the life of a node.
use aqua_sim_ng.Address.{address_key}
use aqua_sim_ng.Aodv.Header.{uwaodv_rreq}
use aqua_sim_ng.Aodv.Invariant.{Inv, IsSent, Remembers}
use aqua_sim_ng.Aodv.Invariant.Replies.{seen-Inv}
use aqua_sim_ng.Aodv.Invariant.Requests.{recv_rreq-Inv, relay_rreq-Inv}
use aqua_sim_ng.Aodv.Invariant.Routes.{update_route-Inv}
use aqua_sim_ng.Aodv.Recv.{is_duplicate_rreq, key_of, recv_rreq}
use aqua_sim_ng.Aodv.Run.{Event, run}
use aqua_sim_ng.Aodv.Run.Always.{new_node-Inv, run-Inv}
use aqua_sim_ng.Aodv.State.{AodvPacket, Config, Env, Node, RequestKey, inc16, new_node, request_key}
use aqua_sim_ng.Aodv.Table.{update_route}
use aqua_sim_ng.Prelude.{
  Bool, Bool-cases, List, arith, false, inl, inr, refl, true, ℕ, ◌==◌, ◌∙◌, ◌≡◌, ◌≢◌,
}
use aqua_sim_ng.Prelude.KeySet.{KeySet, contains, contains-include_self, include}

-- The node `o`, had it seen the given requests.
abbrev having_seen : KeySet RequestKey → Node → Node
having_seen s o = record o { seen_rreqs = s }

-- What holds with respect to a node holds with respect to its present set of requests.
rebase : (o n : Node) → Inv o n → Inv (having_seen n.seen_rreqs o) n
unfolding IsSent
rebase o n i = record {
  address_same = i.address_same;
  config_same = i.config_same;
  remembers = λ k. ground arith;
  table_good = i.table_good;
  queues_good = i.queues_good;
  limits_good = i.limits_good;
  attempts_good = i.attempts_good;
  out_good = i.out_good;
}

-- What the first set has, the second has.
Remembers-contains :
    (s t : KeySet RequestKey) (k : RequestKey)
    → Remembers s t
    → contains k s ≡ true
    → contains k t ≡ true
Remembers-contains s t k r h = ground (arith, r k)

-- At a node that it is not for, a request is seen after RecvRreq.
recv_rreq-seen :
    (o : Node) (env : Env) (p : AodvPacket) (previous_hop : ℕ) (n : Node)
    → p.aodv.type ≡ uwaodv_rreq
    → p.aodv.destination ≢ n.address
    → Inv o n
    → contains (key_of p.aodv) (recv_rreq env p previous_hop n).0.seen_rreqs ≡ true
unfolding recv_rreq is_duplicate_rreq
recv_rreq-seen o env p previous_hop n h away i =
    let k = key_of p.aodv in
    let elsewhere : (p.aodv.destination == n.address) ≡ false = ground arith in
    let seen = record n { seen_rreqs = include k n.seen_rreqs } in
    let o' = having_seen seen.seen_rreqs o in
    let j : Inv o' seen = rebase o seen (seen-Inv o k n i) in
    let has = contains-include_self k n.seen_rreqs in
    let m =
      update_route env.now p.aodv.origin previous_hop (inc16 p.aodv.hop_count) p.aodv.origin_seq_no
        true n.route_lifetime seen in
    let i' : Inv o' m =
      update_route-Inv o' env.now p.aodv.origin previous_hop (inc16 p.aodv.hop_count)
        p.aodv.origin_seq_no true n.route_lifetime seen j in
    elim (Bool-cases (contains k n.seen_rreqs)) [
      | inl e ↦ rw (elsewhere, recv_rreq) (rw e e)
      | inr e ↦
          rw (elsewhere, recv_rreq)
            (rw e (elim (Bool-cases (p.aodv.origin == n.address)) [
              | inl f ↦ rw f has
              | inr f ↦ rw f (
                  Remembers-contains seen.seen_rreqs _ k (relay_rreq-Inv o' env p m h i').remembers
                    has)
            ]))
    ]

-- A request that is seen is dropped, and nothing changes, at a node that it is not for.
recv_rreq_seen :
    (env : Env) (p : AodvPacket) (previous_hop : ℕ) (n : Node)
    → p.aodv.destination ≢ n.address
    → contains (key_of p.aodv) n.seen_rreqs ≡ true
    → recv_rreq env p previous_hop n ≡ (n, false)
unfolding recv_rreq is_duplicate_rreq
recv_rreq_seen env p previous_hop n away seen =
    let elsewhere : (p.aodv.destination == n.address) ≡ false = ground arith in
    rw (elsewhere, recv_rreq) (rw seen refl)

-- A node that a request is not for handles it once: after RecvRreq, and whatever happens then,
-- RecvRreq drops every further copy of it, and nothing changes. So no node forwards the request of
-- an origin with one id, or answers it, a second time.
pub handled_once :
    (a : ℕ) (c : Config) (hello : Bool) (es fs : List (Env × Event)) (env env' : Env)
    (p p' : AodvPacket) (previous_hop previous_hop' : ℕ)
    → p.aodv.type ≡ uwaodv_rreq
    → p.aodv.destination ≢ a
    → p'.aodv.destination ≢ a
    → key_of p'.aodv ≡ key_of p.aodv
    → let n = run es (new_node a c hello) in
      let m = run fs (recv_rreq env p previous_hop n).0 in
      recv_rreq env' p' previous_hop' m ≡ (m, false)
handled_once a c hello es fs env env' p p' previous_hop previous_hop' h away away' same =
    let o = new_node a c hello in
    let n = run es o in
    let i : Inv o n = run-Inv o es o (new_node-Inv a c hello) in
    let r = (recv_rreq env p previous_hop n).0 in
    let m = run fs r in
    let j : Inv (having_seen r.seen_rreqs o) m =
      run-Inv _ fs r (rebase o r (recv_rreq-Inv o env p previous_hop n h i)) in
    let seen = recv_rreq-seen o env p previous_hop n h (λ e. away (e ∙ i.address_same)) i in
    recv_rreq_seen env' p' previous_hop' m (λ e. away' (e ∙ j.address_same))
      (rw same (Remembers-contains r.seen_rreqs m.seen_rreqs (key_of p.aodv) j.remembers seen))
