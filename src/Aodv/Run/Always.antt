-- ===== src/Aodv/Run/Always.antt =====
-- What holds after any sequence of events.
use aqua_sim_ng.Address.{address_key, broadcast}
use aqua_sim_ng.Aodv.Invariant.{Inv, IsAttempt, IsQueue, IsSent}
use aqua_sim_ng.Aodv.Invariant.Discoveries.{route_request_timeout-Inv}
use aqua_sim_ng.Aodv.Invariant.Neighbors.{send_hello-Inv}
use aqua_sim_ng.Aodv.Invariant.Receive.{recv-Inv}
use aqua_sim_ng.Aodv.Invariant.Replies.{send_collected_rrep-Inv}
use aqua_sim_ng.Aodv.Run.{Event, collection_due, handle, hello_due, received, request_timeout, run}
use aqua_sim_ng.Aodv.State.{Config, Env, Node, new_node}
use aqua_sim_ng.Prelude.{All, Bool, List, [], none, refl, ℕ, ◌∷◌, ◌≡◌, ◌≤◌}
use aqua_sim_ng.Prelude.KeySet.{contains}
use aqua_sim_ng.Prelude.Map.{find}

handle-Inv : (o : Node) (env : Env) (e : Event) (n : Node) → Inv o n → Inv o (handle env e n)
unfolding handle
handle-Inv o env (received p dest) n i = recv-Inv o env p dest n i
handle-Inv o env (request_timeout d attempt) n i = route_request_timeout-Inv o env d attempt n i
handle-Inv o env (collection_due key) n i = send_collected_rrep-Inv o env key n i
handle-Inv o env hello_due n i = send_hello-Inv o env n i

pub run-Inv : (o : Node) (es : List (Env × Event)) (n : Node) → Inv o n → Inv o (run es n)
unfolding run
run-Inv o [] n i = i
run-Inv o ((env, e) ∷ es) n i = run-Inv o es (handle env e n) (handle-Inv o env e n i)

pub new_node-Inv :
    (a : ℕ) (c : Config) (hello : Bool) → Inv (new_node a c hello) (new_node a c hello)
unfolding contains find
new_node-Inv a c hello = record {
  address_same = refl;
  config_same = refl;
  remembers = λ k. refl;
  table_good = (refl, refl);
  queues_good = tt;
  limits_good = tt;
  attempts_good = tt;
  out_good = tt;
}

-- Whatever happens to a new node, every packet that it ever hands down names the node as its
-- sender and goes down, and no request or data packet among them was passed on more often than
-- the maximal hop count.
pub run-IsSent :
    (a : ℕ) (c : Config) (hello : Bool) (es : List (Env × Event))
    → All (IsSent (new_node a c hello)) (run es (new_node a c hello)).out
run-IsSent a c hello es = (run-Inv _ es _ (new_node-Inv a c hello)).out_good

-- Whatever happens to a new node, it keeps its address and attributes and has no route to itself
-- or to everyone, no more packets wait for a destination than a queue may hold, and these are data
-- packets that were not passed on; no discovery made more requests than allowed, or more than one,
-- and no hop limit exceeds the maximal hop count.
pub run_bounded :
    (a : ℕ) (c : Config) (hello : Bool) (es : List (Env × Event))
    → let o = new_node a c hello in
      let n = run es o in
      (n.address ≡ a)
      × (n.config ≡ c)
      × (find a n.route_table ≡ none)
      × (find broadcast n.route_table ≡ none)
      × All (IsQueue o) n.pending_queue
      × All (IsAttempt o) n.rreq_attempts
      × All (λ x. x.1 ≤ c.max_hop_count) n.rreq_hop_limits
run_bounded a c hello es =
    let i = run-Inv _ es _ (new_node-Inv a c hello) in
    (
      i.address_same, i.config_same, i.table_good.0, i.table_good.1, i.queues_good, i.attempts_good,
      i.limits_good,
    )
