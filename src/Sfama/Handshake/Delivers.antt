-- ===== src/Sfama/Handshake/Delivers.antt =====
-- What the exchange of two nodes brings about.
use aqua_sim_ng.Prelude.{[], arith, refl, some, true, ℕ, ◌++◌, ◌∷◌, ◌≡◌}
use aqua_sim_ng.Sfama.{recv_process, slot_init_handler, tx_process}
use aqua_sim_ng.Sfama.Deliver.{deliveries}
use aqua_sim_ng.Sfama.Handshake.{At, data_slot, exchange, is_scheduled, last_sent, send_slot}
use aqua_sim_ng.Sfama.Handshake.Steps.{
  ack_done, asks, cts_done, data_done, ends_data, rts_done, sends, sends_data, starts_data,
  takes_ack, takes_cts, takes_data, takes_rts,
}
use aqua_sim_ng.Sfama.Packets.{fill_data, make_ack, make_cts, make_rts}
use aqua_sim_ng.Sfama.State.{
  Sfama, SfamaEnv, SfamaPacket, backoff_fair, data_send_timer, idle_wait, nidle, wait_send_timer,
}
use aqua_sim_ng.Sfama.Step.{is_running}

-- A node with nothing to do.
pub record IsIdle (m : Sfama) : Type 0 where
  pub idle : m.status ≡ idle_wait
  pub no_sending : m.sending ≡ []
  pub no_backup : m.backup ≡ []
  pub no_cached : m.cached ≡ []

IsIdle-At : (m : Sfama) → IsIdle m → At m.address idle_wait [] [] m.released m.wait_send_packet m
IsIdle-At m h = grind arith

-- One after the other, with the timers that run, the calls that are scheduled and the frames that the
-- exchange passes on.
exchange_eq :
    (env : ℕ → SfamaEnv) (p rts cts frame ack : SfamaPacket) (s r : Sfama)
    → (let tx = tx_process (env 0) p s in
        let asking = send_slot (env 1) tx in
        let waiting = slot_init_handler (env 2) asking in
        let asked = recv_process (env 3) rts r in
        let answering = send_slot (env 4) asked in
        let ready = slot_init_handler (env 5) answering in
        let cleared = recv_process (env 6) cts waiting in
        let granted = send_slot (env 7) cleared in
        let sending = data_slot (env 8) granted in
        let ended = data_slot (env 9) sending in
        let sent = slot_init_handler (env 10) ended in
        let taken = recv_process (env 11) frame ready in
        let acking = send_slot (env 12) taken in
        is_running wait_send_timer tx.out ≡ true
        → last_sent asking.out ≡ some rts
        → is_scheduled asking.out ≡ true
        → is_running wait_send_timer asked.out ≡ true
        → last_sent answering.out ≡ some cts
        → is_scheduled answering.out ≡ true
        → is_running wait_send_timer cleared.out ≡ true
        → is_running data_send_timer granted.out ≡ true
        → last_sent sending.out ≡ some frame
        → is_running data_send_timer sending.out ≡ true
        → is_scheduled ended.out ≡ true
        → is_running wait_send_timer taken.out ≡ true
        → last_sent acking.out ≡ some ack
        → is_scheduled acking.out ≡ true
        → exchange env p s r
          ≡ some (recv_process (env 14) ack sent, slot_init_handler (env 13) acking))
unfolding exchange
exchange_eq env p rts cts frame ack s r h1 h2 h3 h4 h5 h6 h7 h8 h9 h10 h11 h12 h13 h14 =
    rw (h1, h2, h3, h4, h5, h6, h7, h8, h9, h10, h11, h12, h13, h14) refl

-- Two nodes with nothing to do exchange a packet for the second, while their modems are free and the
-- medium brings each frame to the other: the exchange comes to its end, and each timer that expires in
-- it was started, and each SlotInitHandler scheduled, by the node itself. The second node has handed
-- up the data packet with the size that it gives it and the time of sending. The first has released
-- that packet and no other, and has nothing to do. The second is in BACKOFF_FAIR.
pub exchange_delivers :
    (env : ℕ → SfamaEnv) (p : SfamaPacket) (s r : Sfama)
    → ((i : ℕ) → (env i).transmission_status ≡ nidle)
    → IsIdle s
    → IsIdle r
    → p.d_addr ≡ r.address
    → (s' r' : Sfama) × (exchange env p s r ≡ some (s', r'))
      × IsIdle s'
      × (s'.released ≡ s.released ++ fill_data (env 0) p s ∷ [])
      × (r'.status ≡ backoff_fair)
      × (deliveries r'.out
          ≡ record (fill_data (env 0) p s) { size = 5; timestamp = (env 8).now } ∷ deliveries r.out)
unfolding make_rts make_cts make_ack fill_data
exchange_delivers env p s r free hs hr d =
    let (asked, runs0) = asks (env 0) s p (IsIdle-At s hs) in
    let (asking, rts, _, due1) = sends (env 1) _ _ (free 1) asked in
    let waiting = rts_done (env 2) _ asking in
    let (heard, out1, runs3) = takes_rts (env 3) r _ refl d (IsIdle-At r hr) in
    let (answering, cts, out2, due4) = sends (env 4) _ _ (free 4) heard in
    let (ready, out5) = cts_done (env 5) _ answering in
    let (granted, runs6) = takes_cts (env 6) _ _ refl refl waiting in
    let (starting, runs7) = starts_data (env 7) _ granted in
    let (sending, frame, runs8) = sends_data (env 8) _ _ (free 8) starting in
    let (ending, due9) = ends_data (env 9) _ sending in
    let sent = data_done (env 10) _ ending in
    let (taken, out3, runs11) = takes_data (env 11) _ _ refl d ready in
    let (acking, ack, out4, due12) = sends (env 12) _ _ (free 12) taken in
    let (finished, out6) = ack_done (env 13) _ acking in
    let acked = takes_ack (env 14) _ _ refl refl sent in
    (
      _,
      _,
      exchange_eq env p _ _ _ _ s r runs0 rts due1 runs3 cts due4 runs6 runs7 frame runs8 due9
          runs11 ack due12,
      record {
        idle = acked.status_is;
        no_sending = acked.sending_is;
        no_backup = acked.backup_is;
        no_cached = acked.cached_is;
      },
      acked.released_is,
      finished.status_is,
      cc (out1, out2, out3, out4, out5, out6),
    )
