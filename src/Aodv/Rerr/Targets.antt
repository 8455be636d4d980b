-- ===== src/Aodv/Rerr/Targets.antt =====
-- To whom route errors go.
use aqua_sim_ng.Address.{address_key, broadcast}
use aqua_sim_ng.Aodv.Header.{AodvHeader, uwaodv_rerr}
use aqua_sim_ng.Aodv.Rerr.{forward_rerr, recv_rerr, send_rerr_to}
use aqua_sim_ng.Aodv.State.{Effect, Env, Node, RouteEntry, transmit}
use aqua_sim_ng.Aodv.State.Frame.{SameState, SameState-refl, SameState-trans}
use aqua_sim_ng.Aodv.Table.{invalidate_route, lookup_route, should_accept_rerr}
use aqua_sim_ng.Aodv.Table.Frame.{lookup_route_same}
use aqua_sim_ng.Aodv.Table.Invalidate.{
  invalidate_route_found, lookup_route-invalidate_route, should_accept_rerr_iff,
}
use aqua_sim_ng.Prelude.{
  Bool-cases, List, [], ap, arith, false, if◌then◌else◌, inl, inr, none, refl, some, true, ℕ, ◌==◌,
  ◌||◌, ◌∙◌, ◌∷◌, ◌≡◌, ◌≢◌, ◌⊎◌,
}
use aqua_sim_ng.Prelude.KeySet.{KeySet, contains, contains-exclude_self, exclude}
use aqua_sim_ng.Prelude.Map.{find}

-- What a packet says, to whom: the next hop, the type, the destination and its sequence number.
abbrev pub Message : Type 0
Message = ℕ × ℕ × ℕ × ℕ

-- The packets that were handed down, the newest first.
unfoldable pub messages : List Effect → List Message
messages [] = []
messages (transmit _ p ∷ es) =
    (p.ash.next_hop, p.aodv.type, p.aodv.destination, p.aodv.dest_seq_no) ∷ messages es
messages (_ ∷ es) = messages es

-- The errors about a destination for a set of precursors less the node itself and the broadcast
-- address, in front of a list, the last first.
unfoldable pub push_errors : ℕ → ℕ → ℕ → KeySet ℕ → List Message → List Message
push_errors address d seq_no [] acc = acc
push_errors address d seq_no (p ∷ ps) acc =
    push_errors address d seq_no ps
      (if p == address || p == broadcast then acc else (p, uwaodv_rerr, d, seq_no) ∷ acc)

module _ (env : Env) (d seq_no : ℕ) where
  send_rerr_to-SameState : (p : ℕ) (n : Node) → SameState n (send_rerr_to env d seq_no p n)
  unfolding send_rerr_to
  send_rerr_to-SameState p n = ground arith

  pub forward_rerr-SameState :
      (ps : KeySet ℕ) (n : Node) → SameState n (forward_rerr env d seq_no ps n)
  unfolding forward_rerr
  forward_rerr-SameState [] n = SameState-refl n
  forward_rerr-SameState (p ∷ ps) n =
      SameState-trans (send_rerr_to-SameState p n)
        (forward_rerr-SameState ps (send_rerr_to env d seq_no p n))

  messages-send_rerr_to :
      (p : ℕ) (n : Node)
      → messages (send_rerr_to env d seq_no p n).out ≡ (
          if p == n.address || p == broadcast
          then messages n.out
          else (p, uwaodv_rerr, d, seq_no) ∷ messages n.out)
  unfolding send_rerr_to messages
  messages-send_rerr_to p n = ground arith

  messages_forward :
      (ps : KeySet ℕ) (n : Node)
      → messages (forward_rerr env d seq_no ps n).out
        ≡ push_errors n.address d seq_no ps (messages n.out)
  unfolding forward_rerr push_errors
  messages_forward [] n = refl
  messages_forward (p ∷ ps) n =
      messages_forward ps (send_rerr_to env d seq_no p n)
      ∙ rw ((send_rerr_to-SameState p n).address, messages-send_rerr_to p n) refl

  -- ForwardRerr sends one error to each precursor but the node itself and the broadcast address,
  -- in the order of the set, and nothing else; the tables and queues stay.
  messages-forward_rerr :
      (ps : KeySet ℕ) (n : Node)
      → (messages (forward_rerr env d seq_no ps n).out
          ≡ push_errors n.address d seq_no ps (messages n.out))
        × SameState n (forward_rerr env d seq_no ps n)
  messages-forward_rerr ps n = (messages_forward ps n, forward_rerr-SameState ps n)

-- RecvRerr of an error that ShouldAcceptRerr takes, about an entry of the table.
recv_rerr_accepted :
    (env : Env) (aodv : AodvHeader) (previous_hop : ℕ) (n : Node) (e : RouteEntry)
    → should_accept_rerr aodv.destination aodv.dest_seq_no n ≡ true
    → find aodv.destination n.route_table ≡ some e
    → recv_rerr env aodv previous_hop n ≡ (
      forward_rerr env aodv.destination aodv.dest_seq_no
          (exclude previous_hop e.precursors)
          (invalidate_route env.now aodv.destination aodv.dest_seq_no true n).0,
      true,
    )
unfolding recv_rerr
recv_rerr_accepted env aodv previous_hop n e accepted found =
    rw (accepted, recv_rerr)
      (rw (invalidate_route_found env.now aodv.destination aodv.dest_seq_no true n e found) refl)

-- RecvRerr drops an error that ShouldAcceptRerr refuses, and nothing changes. Otherwise the route
-- is unusable at any later time, every other entry is as it was, and the error goes on, with the
-- same number, to exactly the precursors of the entry but the neighbour it came from.
pub recv_rerr_cases :
    (env : Env) (aodv : AodvHeader) (previous_hop : ℕ) (n : Node)
    → let r = recv_rerr env aodv previous_hop n in
      let d = aodv.destination in
      ((should_accept_rerr d aodv.dest_seq_no n ≡ false) × (r ≡ (n, false)))
      ⊎ ((e : RouteEntry) × (find d n.route_table ≡ some e)
          × (r.1 ≡ true)
          × ((t : ℕ) → lookup_route t d r.0 ≡ none)
          × ((k : ℕ) → d ≢ k → find k r.0.route_table ≡ find k n.route_table)
          × (messages r.0.out
              ≡ push_errors n.address d aodv.dest_seq_no
                  (exclude previous_hop e.precursors)
                  (messages n.out))
          × (contains previous_hop (exclude previous_hop e.precursors) ≡ false))
unfolding recv_rerr
recv_rerr_cases env aodv previous_hop n =
    elim (Bool-cases (should_accept_rerr aodv.destination aodv.dest_seq_no n)) [
      | inr no_more ↦ inl (no_more, rw no_more)
      | inl accepted ↦
          let d = aodv.destination in
          let (e, found, _) = (should_accept_rerr_iff d aodv.dest_seq_no n).0 accepted in
          let (gone, others) = lookup_route-invalidate_route env.now d aodv.dest_seq_no true n in
          let m = (invalidate_route env.now d aodv.dest_seq_no true n).0 in
          let same =
            (forward_rerr-SameState env d aodv.dest_seq_no (exclude previous_hop e.precursors)
              m).route_table in
          rw (recv_rerr_accepted env aodv previous_hop n e accepted found) (
            inr (
              e,
              found,
              refl,
              λ t. lookup_route_same t d m _ same ∙ gone t,
              λ k h. ap (find k) same ∙ others k h,
              messages_forward env d aodv.dest_seq_no (exclude previous_hop e.precursors) m
                  ∙ rw (invalidate_route_found env.now d aodv.dest_seq_no true n e found) refl,
              contains-exclude_self previous_hop e.precursors,
            ))
    ]
