-- ===== src/Aodv/Reply/Answered.antt =====
-- The reply that SendCollectedRrep sends.
use aqua_sim_ng.Address.{address_key}
use aqua_sim_ng.Aodv.Header.{uwaodv_rrep}
use aqua_sim_ng.Aodv.Reply.{reply_to_candidate, rrep_packet, send_rrep_via, transmit_rrep}
use aqua_sim_ng.Aodv.Send.{create_packet, send_down}
use aqua_sim_ng.Aodv.State.{
  AodvPacket, Effect, Env, Node, RequestKey, RreqCandidate, RreqCollection, inc32, request_key,
  transmit,
}
use aqua_sim_ng.Aodv.Table.{update_route}
use aqua_sim_ng.Aodv.Table.Frame.{update_route-routes}
use aqua_sim_ng.Packet.{down}
use aqua_sim_ng.Prelude.{
  ==_iff, Bool-cases, List, ap, arith, inl, inr, none, refl, true, ℕ, ◌<◌, ◌==◌, ◌∙◌, ◌∷◌, ◌≡◌,
}
use aqua_sim_ng.Prelude.KeySet.{KeySet, contains, contains-include_self, include}
use aqua_sim_ng.Prelude.Map.{Map, erase, find, find-erase_self}

-- A reply of a node about itself, handed down as the last thing.
pub record IsReply (origin next_hop address : ℕ) (before : List Effect) (r : Node) : Type 0 where
  pub packet : AodvPacket
  pub sent : r.out ≡ transmit 0 packet ∷ before
  pub type_is : packet.aodv.type ≡ uwaodv_rrep
  pub next_hop_is : packet.ash.next_hop ≡ next_hop
  pub origin_is : packet.aodv.origin ≡ origin
  pub about : packet.aodv.destination ≡ address
  pub no_hops : packet.aodv.hop_count ≡ 0
  pub number_is : packet.aodv.dest_seq_no ≡ r.sequence_number
  pub numbered : 0 < r.sequence_number

-- What a node does besides.
record Replied (origin next_hop : ℕ) (n r : Node) : Type 0 where
  pub reply : IsReply origin next_hop n.address n.out r
  pub routes : r.route_table ≡ n.route_table
  pub seen : r.seen_rreqs ≡ n.seen_rreqs
  pub collections : r.rreq_collections ≡ n.rreq_collections

transmit-Replied :
    (env : Env) (origin next_hop lifetime : ℕ) (n : Node)
    → 0 < n.sequence_number
    → Replied origin next_hop n
        (transmit_rrep env origin n.address next_hop 0 n.sequence_number lifetime n)
unfolding transmit_rrep create_packet send_down
transmit-Replied env origin next_hop lifetime n pos =
    let m = create_packet env n in
    let p = rrep_packet env m.0 origin n.address next_hop 0 n.sequence_number lifetime m.1 in
    record {
      reply = record {
        packet = record p {
          ash = record (p.ash) { direction = down; next_hop = next_hop; s_addr = n.address };
        };
        sent = refl;
        type_is = refl;
        next_hop_is = refl;
        origin_is = refl;
        about = refl;
        no_hops = refl;
        number_is = refl;
        numbered = pos;
      };
      routes = refl;
      seen = refl;
      collections = refl;
    }

-- SendRrep about the node itself.
via-Replied :
    (env : Env) (origin next_hop : ℕ) (n : Node)
    → Replied origin next_hop n (send_rrep_via env origin n.address next_hop n)
unfolding send_rrep_via
via-Replied env origin next_hop n =
    let here = (==_iff n.address n.address).1 refl in
    elim (Bool-cases (n.sequence_number == 0)) [
      | inl e ↦
          let m = record n { sequence_number = inc32 n.sequence_number } in
          let t = transmit-Replied env origin next_hop n.route_lifetime m (ground (arith, e)) in
          rw (here, send_rrep_via)
            (rw (e, send_rrep_via)
              (record {
                reply = t.reply;
                routes = t.routes;
                seen = t.seen;
                collections = t.collections;
              }))
      | inr e ↦
          rw (here, send_rrep_via)
            (rw (e, send_rrep_via)
              (transmit-Replied env origin next_hop n.route_lifetime n (ground (arith, e))))
    ]

-- The node after its answer to a candidate: the reverse route is updated, the request is seen and no
-- longer collected.
pub record Answered (env : Env) (key : RequestKey) (best : RreqCandidate) (n : Node)
    (before : List Effect) (r : Node) : Type 0 where
  pub reply : IsReply key.first best.previous_hop n.address before r
  pub routes :
      r.route_table
      ≡ (update_route env.now key.first best.previous_hop best.hop_count best.origin_seq_no true
          n.route_lifetime n).route_table
  pub seen : contains key r.seen_rreqs ≡ true
  pub collected : find key r.rreq_collections ≡ none

module _ (now d next_hop hop_count seq_no lifetime : ℕ) (n : Node)
    (cs : Map RequestKey RreqCollection) (ks : KeySet RequestKey) where
  abbrev other : Node
  other = record n { rreq_collections = cs; seen_rreqs = ks }

  -- UpdateRoute looks at neither the requests seen nor those collected, and schedules nothing.
  update_other :
      ((update_route now d next_hop hop_count seq_no true lifetime other).out ≡ n.out)
      × ((update_route now d next_hop hop_count seq_no true lifetime other).route_table
          ≡ (update_route now d next_hop hop_count seq_no true lifetime n).route_table)
  unfolding update_route
  update_other = (ground arith, ground arith)

pub reply-Answered :
    (env : Env) (key : RequestKey) (best : RreqCandidate) (n : Node)
    → Answered env key best n n.out (reply_to_candidate env key best n)
unfolding reply_to_candidate
reply-Answered env key best n =
    let cs = erase key n.rreq_collections in
    let ks = include key n.seen_rreqs in
    let m = record n { rreq_collections = cs; seen_rreqs = ks } in
    let m' =
      update_route env.now key.first best.previous_hop best.hop_count best.origin_seq_no true
        m.route_lifetime m in
    let u =
      update_route-routes env.now key.first best.previous_hop best.hop_count best.origin_seq_no true
        m.route_lifetime m in
    let (out, table) =
      update_other env.now key.first best.previous_hop best.hop_count best.origin_seq_no
        n.route_lifetime n cs ks in
    let v = via-Replied env key.first best.previous_hop m' in
    record {
      reply = record {
        packet = v.reply.packet;
        sent = v.reply.sent ∙ ap (λ o. transmit 0 v.reply.packet ∷ o) out;
        type_is = v.reply.type_is;
        next_hop_is = v.reply.next_hop_is;
        origin_is = v.reply.origin_is;
        about = v.reply.about ∙ u.address;
        no_hops = v.reply.no_hops;
        number_is = v.reply.number_is;
        numbered = v.reply.numbered;
      };
      routes = v.routes ∙ table;
      seen = ap (contains key) (v.seen ∙ u.seen_rreqs) ∙ contains-include_self key n.seen_rreqs;
      collected =
          ap (find key) (v.collections ∙ u.rreq_collections)
          ∙ find-erase_self key n.rreq_collections;
    }
