-- ===== src/Aodv/Discovery/Stuck.antt =====
-- RouteRequestTimeout where the route became usable in another way than by a reply to this node,
-- as by a request that passed by and left a reverse route.
use aqua_sim_ng.Address.{address_key}
use aqua_sim_ng.Aodv.Data.{
  enqueue_packet, forward_data_packet, pending, report_stale_route, send_queued_packets,
}
use aqua_sim_ng.Aodv.Data.Flush.{push_sent, send_queued_packets_lem, sent_along}
use aqua_sim_ng.Aodv.Data.Report.{report-routes, report_induction}
use aqua_sim_ng.Aodv.Discovery.{route_request_timeout}
use aqua_sim_ng.Aodv.Recv.{output_packet}
use aqua_sim_ng.Aodv.Rerr.{forward_rerr, send_rerr_to}
use aqua_sim_ng.Aodv.State.{AodvPacket, Effect, Env, Node, RouteEntry, inc32, schedule_timeout}
use aqua_sim_ng.Aodv.Table.{invalidate_route, is_broadcast_destination, lookup_route}
use aqua_sim_ng.Prelude.{
  Bool, List, Option-cases, [], ap, arith, false, inl, inr, length, none, refl, some, suc, true, ℕ,
  ◌++◌, ◌<◌, ◌∙◌, ◌∷◌, ◌≡◌, ◌≢◌,
}
use aqua_sim_ng.Prelude.KeySet.{KeySet, contains}
use aqua_sim_ng.Prelude.Map.{find, find-insert_self, insert}

-- The timeouts that were scheduled.
unfoldable pub timers : List Effect → ℕ
timers [] = 0
timers (schedule_timeout _ _ _ ∷ es) = suc (timers es)
timers (_ ∷ es) = timers es

timers-push_sent :
    (route : RouteEntry) (n : Node) (q : List AodvPacket) (es : List Effect)
    → timers (push_sent route n q es) ≡ timers es
unfolding push_sent timers sent_along
timers-push_sent route n [] es = refl
timers-push_sent route n (p ∷ q) es = timers-push_sent route n q (sent_along route n p ∷ es)

timers-forward_rerr :
    (env : Env) (d seq_no : ℕ) (ps : KeySet ℕ) (n : Node)
    → timers (forward_rerr env d seq_no ps n).out ≡ timers n.out
unfolding forward_rerr timers send_rerr_to
timers-forward_rerr env d seq_no [] n = refl
timers-forward_rerr env d seq_no (p ∷ ps) n =
    timers-forward_rerr env d seq_no ps (send_rerr_to env d seq_no p n) ∙ ground arith

invalidate_route-out :
    (now d s : ℕ) (v : Bool) (n : Node) → (invalidate_route now d s v n).0.out ≡ n.out
unfolding invalidate_route
invalidate_route-out now d s v n = ground arith

timers-report :
    (env : Env) (d : ℕ) (n : Node) → timers (report_stale_route env d n).out ≡ timers n.out
timers-report env d n =
    report_induction env d n (λ m. timers m.out ≡ timers n.out) refl
      (λ s v ps.
        timers-forward_rerr env d s ps (invalidate_route env.now d s v n).0
        ∙ ap timers (invalidate_route-out env.now d s v n))

pub forward_missing :
    (env : Env) (p : AodvPacket) (d : ℕ) (n : Node)
    → lookup_route env.now d n ≡ none
    → forward_data_packet env p d n ≡ (report_stale_route env d n, false)
unfolding forward_data_packet
forward_missing env p d n missing = rw (missing, forward_data_packet) refl

pub enqueued :
    (d : ℕ) (p : AodvPacket) (n : Node)
    → length (pending d n) < n.max_queue_len
    → enqueue_packet d p n ≡ (
      record n {
        pending_queue = insert d (pending d n ++ p ∷ []) n.pending_queue;
        stats = record (n.stats) { queued_packets = inc32 n.stats.queued_packets };
      },
      true,
    )
unfolding enqueue_packet
enqueued d p n room = ground arith

-- A packet for a destination that is marked as active only joins the queue, if there is room.
output_waits :
    (env : Env) (p : AodvPacket) (d : ℕ) (n : Node)
    → d ≢ n.address
    → is_broadcast_destination d ≡ false
    → lookup_route env.now d n ≡ none
    → contains d n.active_discoveries ≡ true
    → length (pending d n) < n.max_queue_len
    → let r = output_packet env p d n in
      (r.1 ≡ true)
      × (timers r.0.out ≡ timers n.out)
      × (find d r.0.pending_queue ≡ some (pending d n ++ p ∷ []))
      × (contains d r.0.active_discoveries ≡ true)
unfolding output_packet
output_waits env p d n away unicast missing active room =
    let m = report_stale_route env d n in
    let frame = report-routes env d n in
    let waiting : pending d m ≡ pending d n = rw frame.pending_queue refl in
    let room' : length (pending d m) < m.max_queue_len = rw (waiting, frame.config) room in
    rw (forward_missing env p d n missing, output_packet)
      (rw (enqueued d p m room') (
        ground (
          arith,
          frame,
          timers-report env d n,
          find-insert_self d (pending d m ++ p ∷ []) m.pending_queue,
          waiting,
        )))

timeout_flushes :
    (env : Env) (d attempt : ℕ) (route : RouteEntry) (n : Node)
    → lookup_route env.now d n ≡ some route
    → route_request_timeout env d attempt n ≡ send_queued_packets env d n
unfolding route_request_timeout
timeout_flushes env d attempt route n found = rw (found, route_request_timeout) (ground arith)

flushed :
    (env : Env) (d : ℕ) (route : RouteEntry) (n : Node)
    → lookup_route env.now d n ≡ some route
    → let m = send_queued_packets env d n in
      (timers m.out ≡ timers n.out)
      × (pending d m ≡ [])
      × (m.active_discoveries ≡ n.active_discoveries)
      × (m.address ≡ n.address)
      × (m.config ≡ n.config)
unfolding send_queued_packets
flushed env d route n found = elim (Option-cases (find d n.pending_queue)) [
  | inl e ↦ rw (e, send_queued_packets) (refl, rw e, refl, refl, refl)
  | inr (q, e) ↦
      let l = send_queued_packets_lem env d route q n e found in
      (
        ap (λ m. timers m.out) l.0 ∙ timers-push_sent route n q n.out,
        rw l.1 refl,
        ap (λ m. m.active_discoveries) l.0,
        ap (λ m. m.address) l.0,
        ap (λ m. m.config) l.0,
      )
]

-- Where a discovery is active and the node has a usable route when its timeout comes, the discovery
-- stays active and no timeout is scheduled. So, once that route is gone, a packet for the
-- destination is accepted and waits alone in the queue, with the discovery still marked as active
-- and no timeout scheduled, neither by the old one nor by the packet.
pub stuck_discovery :
    (env env' : Env) (d attempt : ℕ) (route : RouteEntry) (p : AodvPacket) (n : Node)
    → contains d n.active_discoveries ≡ true
    → lookup_route env.now d n ≡ some route
    → d ≢ n.address
    → is_broadcast_destination d ≡ false
    → 0 < n.max_queue_len
    → lookup_route env'.now d (route_request_timeout env d attempt n) ≡ none
    → let r = output_packet env' p d (route_request_timeout env d attempt n) in
      (r.1 ≡ true)
      × (timers r.0.out ≡ timers n.out)
      × (find d r.0.pending_queue ≡ some (p ∷ []))
      × (contains d r.0.active_discoveries ≡ true)
stuck_discovery env env' d attempt route p n active found away unicast room gone =
    let m = send_queued_packets env d n in
    let e = timeout_flushes env d attempt route n found in
    let (quiet, empty, marks, here, cfg) = flushed env d route n found in
    let waits =
      output_waits env' p d m (rw here away) unicast (rw (← e) gone)
        (ap (contains d) marks ∙ active) (rw (empty, cfg) room) in
    rw e (waits.0, waits.1 ∙ quiet, waits.2 ∙ rw empty refl, waits.3)
