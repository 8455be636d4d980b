-- ===== src/Aodv/Run.antt =====
-- The life of a node: the calls of its entry points, one after the other, each at its own time.
-- DoDispose ends it.
pub mod Always
pub mod Duplicates
use aqua_sim_ng.Aodv.Discovery.{route_request_timeout}
use aqua_sim_ng.Aodv.Hello.{send_hello}
use aqua_sim_ng.Aodv.Recv.{recv}
use aqua_sim_ng.Aodv.Reply.{send_collected_rrep}
use aqua_sim_ng.Aodv.State.{Env, Node, Packet, RequestKey}
use aqua_sim_ng.Prelude.{List, Option, [], ℕ, ◌∷◌}

-- What calls the node: `Recv`, and the events that it scheduled itself. Any number of these may
-- come in any order.
pub data Event : Type 0 where
  received : Packet → Option ℕ → Event
  request_timeout : ℕ → ℕ → Event
  collection_due : RequestKey → Event
  hello_due : Event

-- The call of an entry point.
unfoldable pub handle : Env → Event → Node → Node
handle env (received p dest) n = (recv env p dest n).0
handle env (request_timeout d attempt) n = route_request_timeout env d attempt n
handle env (collection_due key) n = send_collected_rrep env key n
handle env hello_due n = send_hello env n

unfoldable pub run : List (Env × Event) → Node → Node
run [] n = n
run ((env, e) ∷ es) n = run es (handle env e n)
