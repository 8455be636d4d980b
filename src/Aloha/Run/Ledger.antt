-- ===== src/Aloha/Run/Ledger.antt =====
-- The packets of an ALOHA node over any sequence of events.
use aqua_sim_ng.Aloha.Conserve.{holds}
use aqua_sim_ng.Aloha.Run.{AlohaEvent, all_taken, run}
use aqua_sim_ng.Aloha.State.{Aloha, AlohaEnv, AlohaPacket}
use aqua_sim_ng.Prelude.{Bool, List, count, length, some, ◌+◌, ◌≡◌}

-- What the run of some events from `m` yields.
abbrev Accounted : (AlohaPacket → Bool) → List (AlohaEnv × AlohaEvent) → Aloha → Type 0
Accounted q es m =
    (m' : Aloha) × (run es m ≡ some m')
    × (holds q m' ≡ holds q m + count q (all_taken es m))
    × (m'.tx_packet_drops ≡ length m'.dropped)
