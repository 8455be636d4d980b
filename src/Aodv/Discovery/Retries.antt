-- ===== src/Aodv/Discovery/Retries.antt =====
-- The timeouts of a discovery that gets no answer.
use aqua_sim_ng.Address.{address_key}
use aqua_sim_ng.Aodv.Data.{drop_queued_packets}
use aqua_sim_ng.Aodv.Discovery.{end_discovery, route_request_timeout, send_rreq, touch_attempts}
use aqua_sim_ng.Aodv.Discovery.Request.{send_rreq-routes, send_rreq_lem}
use aqua_sim_ng.Aodv.Rerr.Targets.{messages}
use aqua_sim_ng.Aodv.State.{AodvPacket, Config, Effect, Env, Node}
use aqua_sim_ng.Aodv.Table.{lookup_route}
use aqua_sim_ng.Aodv.Table.Frame.{lookup_route_same}
use aqua_sim_ng.Prelude.{
  List, [], ap, arith, dec_lt, false, get_or, length, nil_of_length, none, refl, some, suc, true, ℕ,
  ◌%◌, ◌+◌, ◌-◌, ◌<◌, ◌^◌, ◌∙◌, ◌∷◌, ◌≡◌, ◌≤◌,
}
use aqua_sim_ng.Prelude.KeySet.{contains, contains-exclude_self}
use aqua_sim_ng.Prelude.Map.{find, find-erase_self, find-insert_self}

-- The timeouts of one discovery, each in its environment, from an attempt on.
unfoldable pub timeouts : List Env → ℕ → ℕ → Node → Node
timeouts [] d attempt n = n
timeouts (env ∷ envs) d attempt n =
    timeouts envs d (attempt + 1) (route_request_timeout env d attempt n)

module _ (d : ℕ) where
  -- A discovery that is open at an attempt, with no usable route.
  pub record IsOpen (attempt : ℕ) (n : Node) : Type 0 where
    pub active : contains d n.active_discoveries ≡ true
    pub attempts : find d n.rreq_attempts ≡ some attempt
    pub no_route : (t : ℕ) → lookup_route t d n ≡ none

  timeout_retries :
      (env : Env) (attempt : ℕ) (n : Node)
      → IsOpen attempt n
      → attempt < n.max_rreq_attempts
      → route_request_timeout env d attempt n ≡ send_rreq env d (touch_attempts d n)
  unfolding route_request_timeout
  timeout_retries env attempt n o h =
      rw (o.active, route_request_timeout) (rw (o.no_route env.now) (rw o.attempts (ground arith)))

  timeout_gives_up :
      (env : Env) (attempt : ℕ) (n : Node)
      → IsOpen attempt n
      → n.max_rreq_attempts ≤ attempt
      → route_request_timeout env d attempt n
        ≡ drop_queued_packets d (end_discovery d (touch_attempts d n))
  unfolding route_request_timeout
  timeout_gives_up env attempt n o h =
      rw (o.active, route_request_timeout) (rw (o.no_route env.now) (rw o.attempts (ground arith)))

  touched :
      (attempt : ℕ) (n : Node)
      → IsOpen attempt n
      → get_or (find d (touch_attempts d n).rreq_attempts) 0 ≡ attempt
  touched attempt n o = rw find-insert_self (rw o.attempts)

  send_rreq-IsOpen :
      (env : Env) (attempt : ℕ) (n : Node)
      → IsOpen attempt n
      → attempt + 1 < 2 ^ 32
      → IsOpen (attempt + 1) (send_rreq env d (touch_attempts d n))
  send_rreq-IsOpen env attempt n o h =
      let m = touch_attempts d n in
      let frame = send_rreq-routes env d m in
      record {
        active = ap (contains d) frame.4 ∙ o.active;
        attempts = (send_rreq_lem env d m).3 ∙ rw (touched attempt n o) (ground arith);
        no_route = λ t. lookup_route_same t d n _ frame.2 ∙ o.no_route t;
      }

  -- What is left of a discovery that was given up: nothing is active, counted or waiting for the
  -- destination, the packets that waited are counted as dropped.
  pub record IsOver (q : List AodvPacket) (n m : Node) : Type 0 where
    pub inactive : contains d m.active_discoveries ≡ false
    pub no_attempts : find d m.rreq_attempts ≡ none
    pub no_hop_limit : find d m.rreq_hop_limits ≡ none
    pub no_queue : find d m.pending_queue ≡ none
    pub drops : m.stats.no_route_drops ≡ (n.stats.no_route_drops + length q % 2 ^ 32) % 2 ^ 32

  give_up-IsOver :
      (q : List AodvPacket) (n : Node)
      → find d n.pending_queue ≡ some q
      → IsOver q n (drop_queued_packets d (end_discovery d (touch_attempts d n)))
  unfolding drop_queued_packets
  give_up-IsOver q n waiting =
      rw (waiting, drop_queued_packets)
        (record {
          inactive = contains-exclude_self d n.active_discoveries;
          no_attempts = find-erase_self d _;
          no_hop_limit = find-erase_self d n.rreq_hop_limits;
          no_queue = find-erase_self d n.pending_queue;
          drops = refl;
        })

  pub messages-send_rreq :
      (env : Env) (n : Node)
      → length (messages (send_rreq env d n).out) ≡ length (messages n.out) + 1
  unfolding messages
  messages-send_rreq env n = rw (send_rreq_lem env d n).2 (omega arith)

  messages_give_up :
      (n : Node) → (drop_queued_packets d (end_discovery d (touch_attempts d n))).out ≡ n.out
  unfolding drop_queued_packets
  messages_give_up n = ground arith

  pub IsOver-same :
      (q : List AodvPacket) (n n' m : Node)
      → n'.stats.no_route_drops ≡ n.stats.no_route_drops
      → IsOver q n' m
      → IsOver q n m
  IsOver-same q n n' m e o = ground arith

  timeouts_step :
      (env : Env) (envs : List Env) (attempt : ℕ) (n m : Node)
      → route_request_timeout env d attempt n ≡ m
      → timeouts (env ∷ envs) d attempt n ≡ timeouts envs d (attempt + 1) m
  unfolding timeouts
  timeouts_step env envs attempt n m e = rw e refl

  timeouts_last :
      (env : Env) (envs : List Env) (attempt : ℕ) (n m : Node)
      → envs ≡ []
      → route_request_timeout env d attempt n ≡ m
      → timeouts (env ∷ envs) d attempt n ≡ m
  unfolding timeouts
  timeouts_last env envs attempt n m none_left e = rw none_left e

  pub timeouts_end :
      (envs : List Env) (attempt : ℕ) (n : Node) (q : List AodvPacket)
      → IsOpen attempt n
      → find d n.pending_queue ≡ some q
      → n.max_rreq_attempts < 2 ^ 32
      → length envs ≡ suc (n.max_rreq_attempts - attempt)
      → let m = timeouts envs d attempt n in
        IsOver q n m
        × (length (messages m.out) ≡ length (messages n.out) + (n.max_rreq_attempts - attempt))
  timeouts_end [] attempt n q o waiting wide rounds = absurd (omega arith)
  timeouts_end (env ∷ envs) attempt n q o waiting wide rounds =
      elim (dec_lt attempt n.max_rreq_attempts) [
        | yes more ↦
            let m = send_rreq env d (touch_attempts d n) in
            let frame = send_rreq-routes env d (touch_attempts d n) in
            let cfg = ap (λ (c : Config). c.max_rreq_attempts) frame.1 in
            let ih =
              timeouts_end envs (attempt + 1) m q (send_rreq-IsOpen env attempt n o (omega arith))
                (ap (find d) frame.3 ∙ waiting) (omega arith) (omega arith) in
            rw (timeouts_step env envs attempt n m (timeout_retries env attempt n o more)) (
              IsOver-same q n m _ frame.6 ih.0,
              omega (arith, ih.1, messages-send_rreq env (touch_attempts d n)),
            )
        | no last ↦
            rw
              (timeouts_last env envs attempt n _ (nil_of_length envs (omega arith))
                (timeout_gives_up env attempt n o (omega arith)))
              (
                give_up-IsOver q n waiting,
                ap (λ (es : List Effect). length (messages es)) (messages_give_up n) ∙ omega arith,
              )
      ]
