-- ===== src/Sfama/Stuck.antt =====
-- A slotted FAMA node whose modem is receiving when the slot of its RTS comes.
use aqua_sim_ng.Prelude.{
  List, [], arith, length, length-append, none, refl, some, ◌++◌, ◌+◌, ◌∷◌, ◌≡◌, ◌⊎◌,
}
use aqua_sim_ng.Sfama.{send_pkt, tx_process, wait_send_timer_process}
use aqua_sim_ng.Sfama.Packets.{fill_data}
use aqua_sim_ng.Sfama.State.{
  Sfama, SfamaEnv, SfamaPacket, busy, receiving, timer_expired, wait_send_rts, wait_send_timer,
}
use aqua_sim_ng.Sfama.Step.{expire}

-- `TxProcess`, packet by packet.
abbrev pub tx_all : List (SfamaEnv × SfamaPacket) → Sfama → Sfama
tx_all [] m = m
tx_all ((env, p) ∷ ps) m = tx_all ps (tx_process env p m)

tx_all-waits :
    (ps : List (SfamaEnv × SfamaPacket)) (m : Sfama)
    → m.status ≡ wait_send_rts
    → ((tx_all ps m).status ≡ wait_send_rts)
      × ((tx_all ps m).wait_send_packet ≡ m.wait_send_packet)
      × ((tx_all ps m).out ≡ m.out)
      × (length (tx_all ps m).cached ≡ length m.cached + length ps)
unfolding tx_process
tx_all-waits [] m h = (h, refl, refl, omega arith)
tx_all-waits ((env, p) ∷ ps) m h =
    let d = fill_data env p m in
    let m' = record m { cached = m.cached ++ d ∷ [] } in
    ground (arith, tx_all-waits ps m' h, length-append m.cached (d ∷ []))

-- When the slot of a waiting RTS comes while the modem receives or sends, the RTS is gone, no timer
-- runs but those that ran before, nothing else is scheduled, and the node stays in WAIT_SEND_RTS:
-- however many packets come from above, it only queues them.
pub collision_is_final :
    (env : SfamaEnv) (rts : SfamaPacket) (ps : List (SfamaEnv × SfamaPacket)) (m : Sfama)
    → m.status ≡ wait_send_rts
    → m.wait_send_packet ≡ some rts
    → (env.transmission_status ≡ receiving) ⊎ (env.transmission_status ≡ busy)
    → (let n = tx_all ps (wait_send_timer_process env (expire wait_send_timer m)) in
        (n.status ≡ wait_send_rts)
        × (n.wait_send_packet ≡ none)
        × (n.out ≡ timer_expired wait_send_timer ∷ m.out)
        × (length n.cached ≡ length m.cached + length ps))
unfolding wait_send_timer_process send_pkt
collision_is_final env rts ps m h k r =
    let n = wait_send_timer_process env (expire wait_send_timer m) in
    grind (arith, tx_all-waits ps n)
