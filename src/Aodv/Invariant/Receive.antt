-- ===== src/Aodv/Invariant/Receive.antt =====
-- Packets that arrive, from above and from below.
use aqua_sim_ng.Address.{address_key}
use aqua_sim_ng.Aodv.Data.{
  enqueue_packet, forward_data_packet, prepare_data_packet, send_queued_packets,
}
use aqua_sim_ng.Aodv.Discovery.{start_route_discovery}
use aqua_sim_ng.Aodv.Header.{
  AodvHeader, uwaodv_data, uwaodv_hello, uwaodv_rerr, uwaodv_rrep, uwaodv_rreq,
}
use aqua_sim_ng.Aodv.Hello.{recv_hello, update_neighbor}
use aqua_sim_ng.Aodv.Invariant.{Inv, Inv2, IsWaiting}
use aqua_sim_ng.Aodv.Invariant.Discoveries.{end_discovery-Inv, start_route_discovery-Inv}
use aqua_sim_ng.Aodv.Invariant.Neighbors.{
  maybe_start_hello-Inv, recv_hello-Inv, update_neighbor-Inv,
}
use aqua_sim_ng.Aodv.Invariant.Replies.{forward_rrep-Inv}
use aqua_sim_ng.Aodv.Invariant.Requests.{recv_rreq-Inv}
use aqua_sim_ng.Aodv.Invariant.Routes.{add_precursor-Inv, invalidate_route-Inv, update_route-Inv}
use aqua_sim_ng.Aodv.Invariant.Sends.{
  broadcast_data_packet-Inv, deliver_data_packet-Inv, enqueue_packet-Inv, forward_data_packet-Inv,
  forward_rerr-Inv, send_queued_packets-Inv,
}
use aqua_sim_ng.Aodv.Recv.{
  dispatch, is_packet_for_me, output_packet, recv, recv_aodv_packet, recv_data, recv_rrep,
  route_output,
}
use aqua_sim_ng.Aodv.Rerr.{recv_rerr}
use aqua_sim_ng.Aodv.Send.{from_milliseconds}
use aqua_sim_ng.Aodv.State.{AodvPacket, Config, Env, Node, Packet, inc16, inc32, plain, tagged}
use aqua_sim_ng.Aodv.Table.{
  add_precursor, is_broadcast_destination, lookup_route, should_accept_rerr, update_route,
}
use aqua_sim_ng.Prelude.{
  ==_iff, Bool-cases, Option, Option-cases, ap, arith, false, get_or, if◌then◌else◌, inl, inr, leb,
  not, refl, true, ℕ, ◌==◌, ◌||◌, ◌≡◌,
}
use aqua_sim_ng.Prelude.Cases.{if_both}
use aqua_sim_ng.Prelude.KeySet.{contains}

module _ (o : Node) where
  recv_data-Inv :
      (env : Env) (p : AodvPacket) (n : Node)
      → p.aodv.type ≡ uwaodv_data
      → Inv o n
      → Inv2 o (recv_data env p n)
  unfolding recv_data
  recv_data-Inv env p n h i =
      let m =
        update_route env.now p.aodv.origin p.ash.s_addr (inc16 p.aodv.hop_count)
          p.aodv.origin_seq_no true n.route_lifetime n in
      let j : Inv o m =
        update_route-Inv o env.now p.aodv.origin p.ash.s_addr (inc16 p.aodv.hop_count)
          p.aodv.origin_seq_no true n.route_lifetime n i in
      elim (Bool-cases
        (p.aodv.destination == m.address || is_broadcast_destination p.aodv.destination)) [
          | inl e ↦ rw e (deliver_data_packet-Inv o p m j)
          | inr e ↦ rw e (elim (Bool-cases (leb m.max_hop_count p.ash.num_forwards)) [
            | inl f ↦ rw f j
            | inr f ↦ rw f (
                forward_data_packet-Inv o env _ p.aodv.destination
                  (add_precursor p.aodv.destination p.ash.s_addr m) h
                  (ground (arith, ap Config.max_hop_count j.config_same))
                  (add_precursor-Inv o p.aodv.destination p.ash.s_addr m j))
          ])
        ]

  recv_rrep-Inv :
      (env : Env) (p : AodvPacket) (previous_hop : ℕ) (n : Node)
      → p.aodv.type ≡ uwaodv_rrep
      → Inv o n
      → Inv2 o (recv_rrep env p previous_hop n)
  unfolding recv_rrep
  recv_rrep-Inv env p previous_hop n h i =
      let d = p.aodv.destination in
      let lifetime = from_milliseconds p.aodv.lifetime_ms in
      let u =
        update_route env.now d previous_hop (inc16 p.aodv.hop_count) p.aodv.dest_seq_no true
          lifetime n in
      let m = send_queued_packets env d u in
      let j : Inv o m = send_queued_packets-Inv o env d u (
        update_route-Inv o env.now d previous_hop (inc16 p.aodv.hop_count) p.aodv.dest_seq_no true
          lifetime n i) in
      elim (Bool-cases (p.aodv.origin == m.address)) [
        | inl e ↦ rw e (end_discovery-Inv o d m j)
        | inr e ↦ rw e (elim (Option-cases (lookup_route env.now p.aodv.origin m)) [
          | inl f ↦ rw f j
          | inr (route, f) ↦ rw f (
              forward_rrep-Inv o p route.next_hop _ h (
                add_precursor-Inv o p.aodv.origin previous_hop _
                  (add_precursor-Inv o d route.next_hop m j)))
        ])
      ]

  recv_rerr-Inv :
      (env : Env) (aodv : AodvHeader) (previous_hop : ℕ) (n : Node)
      → Inv o n
      → Inv2 o (recv_rerr env aodv previous_hop n)
  unfolding recv_rerr
  recv_rerr-Inv env aodv previous_hop n i =
      if_both (Inv2 o) (should_accept_rerr aodv.destination aodv.dest_seq_no n) _ (n, false)
        (forward_rerr-Inv o env aodv.destination aodv.dest_seq_no _ _
          (invalidate_route-Inv o env.now aodv.destination aodv.dest_seq_no true n i))
        i

  dispatch-Inv : (env : Env) (p : AodvPacket) (n : Node) → Inv o n → Inv2 o (dispatch env p n)
  unfolding dispatch
  dispatch-Inv env p n i =
      let t = p.aodv.type in
      elim (Bool-cases (t == uwaodv_data)) [
        | inl e ↦ rw e (recv_data-Inv env p n ((==_iff t uwaodv_data).0 e) i)
        | inr e ↦ rw e (elim (Bool-cases (t == uwaodv_rreq)) [
          | inl f ↦ rw f (
              recv_rreq-Inv o env p p.ash.s_addr
                (record n { stats = record (n.stats) { rreq_rx = inc32 n.stats.rreq_rx } })
                ((==_iff t uwaodv_rreq).0 f) i)
          | inr f ↦ rw f (elim (Bool-cases (t == uwaodv_rrep)) [
            | inl g ↦ rw g (
                recv_rrep-Inv env p p.ash.s_addr
                  (record n { stats = record (n.stats) { rrep_rx = inc32 n.stats.rrep_rx } })
                  ((==_iff t uwaodv_rrep).0 g) i)
            | inr g ↦ rw g (elim (Bool-cases (t == uwaodv_rerr)) [
              | inl u ↦ rw u (
                  recv_rerr-Inv env p.aodv p.ash.s_addr
                    (record n { stats = record (n.stats) { rerr_rx = inc32 n.stats.rerr_rx } }) i)
              | inr u ↦ rw u (
                  if_both (Inv2 o) (t == uwaodv_hello)
                    (recv_hello env p.ash.s_addr
                      (record n { stats = record (n.stats) { hello_rx = inc32 n.stats.hello_rx } }))
                    (n, false)
                    (recv_hello-Inv o env p.ash.s_addr
                      (record n { stats = record (n.stats) { hello_rx = inc32 n.stats.hello_rx } })
                      i)
                    i)
            ])
          ])
        ])
      ]

  recv_aodv_packet-Inv :
      (env : Env) (p : AodvPacket) (n : Node) → Inv o n → Inv2 o (recv_aodv_packet env p n)
  unfolding recv_aodv_packet
  recv_aodv_packet-Inv env p n i =
      if_both (Inv2 o) (is_packet_for_me p.ash n) _ (n, false)
        (dispatch-Inv env p (update_neighbor env.now p.ash.s_addr n)
          (update_neighbor-Inv o env.now p.ash.s_addr n i))
        i

  output_packet-Inv :
      (env : Env) (p : AodvPacket) (d : ℕ) (n : Node)
      → IsWaiting p
      → Inv o n
      → Inv2 o (output_packet env p d n)
  unfolding output_packet
  output_packet-Inv env p d n h i =
      let r = forward_data_packet env p d n in
      let j : Inv2 o r = forward_data_packet-Inv o env p d n h.0 (ground arith) i in
      let q = enqueue_packet d p r.0 in
      let k : Inv2 o q = enqueue_packet-Inv o d p r.0 h j in
      elim (Bool-cases (d == n.address)) [
        | inl e ↦ rw e (deliver_data_packet-Inv o p n i)
        | inr e ↦ rw e (elim (Bool-cases (is_broadcast_destination d)) [
          | inl f ↦ rw f (broadcast_data_packet-Inv o p n h i)
          | inr f ↦ rw f (elim (Bool-cases r.1) [
            | inl g ↦ rw g j
            | inr g ↦ rw g (elim (Bool-cases q.1) [
              | inr u ↦ rw u k
              | inl u ↦ rw u (
                  if_both (Inv2 o) (not (contains d q.0.active_discoveries))
                    (start_route_discovery env d q.0, true) (q.0, true)
                    (start_route_discovery-Inv o env d q.0 k) k)
            ])
          ])
        ])
      ]

  -- `Recv` keeps the invariant.
  pub recv-Inv :
      (env : Env) (p : Packet) (dest : Option ℕ) (n : Node) → Inv o n → Inv2 o (recv env p dest n)
  unfolding recv route_output prepare_data_packet
  recv-Inv env (tagged p) dest n i = recv_aodv_packet-Inv env p _ (maybe_start_hello-Inv o env n i)
  recv-Inv env (plain ash payload) dest n i =
      let d = if ash.d_addr == 65535 then get_or dest ash.d_addr else ash.d_addr in
      output_packet-Inv env _ d _ (refl, refl)
        (maybe_start_hello-Inv o env _ (maybe_start_hello-Inv o env n i))
