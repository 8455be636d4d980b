-- ===== src/Aodv/Recv/Answer.antt =====
-- A request at the node that it is for.
use aqua_sim_ng.Address.{address_key}
use aqua_sim_ng.Aodv.Header.{AodvHeader, is_unknown_dest_seq_no, uwaodv_rrep}
use aqua_sim_ng.Aodv.Recv.{answer_rreq, catch_up, key_of}
use aqua_sim_ng.Aodv.Reply.{send_rrep_via, transmit_rrep}
use aqua_sim_ng.Aodv.Rerr.Targets.{messages}
use aqua_sim_ng.Aodv.Send.{create_packet, send_down}
use aqua_sim_ng.Aodv.SeqNo.{is_seq_no_newer}
use aqua_sim_ng.Aodv.State.{Env, Node, request_key}
use aqua_sim_ng.Prelude.{arith, false, true, ℕ, ◌<◌, ◌^◌, ◌∷◌, ◌≡◌, ◌≢◌, ◌⊎◌}
use aqua_sim_ng.Prelude.KeySet.{contains, contains-include_self}

-- A request at its destination that names a known sequence number, where requests are not
-- collected, is answered at once, with one packet to the neighbour it came from, and is then seen.
-- The answer carries the sequence number that the node then has. If the numbers fit 32 bits, and the
-- node had one that is not 0 or the request's is not 2 ^ 31, then the answer's is not 0 and not the
-- request's, and the request's is not newer.
pub answer_rreq_lem :
    (env : Env) (aodv : AodvHeader) (previous_hop : ℕ) (n : Node)
    → aodv.dest_seq_no < 2 ^ 32
    → n.sequence_number < 2 ^ 32
    → (0 < n.sequence_number) ⊎ (aodv.dest_seq_no ≢ 2 ^ 31)
    → n.enable_rreq_collection ≡ false
    → is_unknown_dest_seq_no aodv ≡ false
    → let r = answer_rreq env aodv previous_hop n in
      let s = r.0.sequence_number in
      (r.1 ≡ true)
      × (messages r.0.out ≡ (previous_hop, uwaodv_rrep, n.address, s) ∷ messages n.out)
      × (0 < s)
      × (s < 2 ^ 32)
      × (s ≢ aodv.dest_seq_no)
      × (is_seq_no_newer aodv.dest_seq_no s ≡ false)
      × (contains (key_of aodv) r.0.seen_rreqs ≡ true)
unfolding answer_rreq catch_up is_seq_no_newer messages send_rrep_via transmit_rrep create_packet
    send_down
answer_rreq_lem env aodv previous_hop n bound own started off known = (
  ground arith,
  ground arith,
  ground arith,
  ground arith,
  ground arith,
  ground arith,
  ground (arith, contains-include_self (key_of aodv) n.seen_rreqs),
)
