-- ===== src/Aloha/Run.antt =====
-- The events of an ALOHA node, one after the other.
pub mod Ledger
use aqua_sim_ng.Aloha.{
  backoff_with, depth, do_backoff, fill_data, process_retry_timer, recv_process, send_data_pkt,
  status_process, tx_process,
}
use aqua_sim_ng.Aloha.State.{Aloha, AlohaEnv, AlohaPacket, is_ack}
use aqua_sim_ng.Prelude.{Bool, List, Option, [], none, some, ℕ, ◌++◌, ◌∷◌}

-- What calls the node: the layers around it, and the calls that it scheduled.
pub data AlohaEvent : Type 0 where
  packet_received : AlohaPacket → AlohaEvent
  packet_from_above : AlohaPacket → AlohaEvent
  status_due : Bool → AlohaEvent
  send_due : AlohaEvent
  ack_timeout : AlohaEvent
  retry_due : ℕ → AlohaPacket → AlohaEvent

unfoldable pub handle : AlohaEnv → AlohaEvent → Aloha → Option Aloha
unfolding backoff_with send_data_pkt
handle env (packet_received p) m = recv_process env p m
handle env (packet_from_above p) m = tx_process env p m
handle env (status_due is_ack) m = status_process env is_ack m
handle env send_due m = send_data_pkt depth env m
handle env ack_timeout m = do_backoff env m
handle env (retry_due id p) m = process_retry_timer env id p m

abbrev bind : Option Aloha → (Aloha → Option Aloha) → Option Aloha
bind none k = none
bind (some m) k = k m

unfoldable pub run : List (AlohaEnv × AlohaEvent) → Aloha → Option Aloha
run [] m = some m
run ((env, e) ∷ es) m = bind (handle env e m) (run es)

-- The packets that came from above, as TxProcess makes them.
abbrev pub taken : AlohaEnv → AlohaEvent → Aloha → List AlohaPacket
taken env (packet_from_above p) m = fill_data env p m ∷ []
taken env _ m = []

abbrev taken_after : (Aloha → List AlohaPacket) → Option Aloha → List AlohaPacket
taken_after k none = []
taken_after k (some m) = k m

unfoldable pub all_taken : List (AlohaEnv × AlohaEvent) → Aloha → List AlohaPacket
all_taken [] m = []
all_taken ((env, e) ∷ es) m = taken env e m ++ taken_after (all_taken es) (handle env e m)
