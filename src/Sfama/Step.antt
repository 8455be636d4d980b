-- ===== src/Sfama/Step.antt =====
-- The events of a slotted FAMA node: what the layers around it and the scheduler call.
use aqua_sim_ng.Prelude.{Bool, List, [], false, not, true, ℕ, ◌&&◌, ◌==◌, ◌||◌, ◌∷◌, ◌≡◌}
use aqua_sim_ng.Sfama.{
  backoff_timer_process, data_send_timer_process, recv_process, slot_init_handler, tx_process,
  wait_reply_timer_process, wait_send_timer_process,
}
use aqua_sim_ng.Sfama.State.{
  Sfama, SfamaEffect, SfamaEnv, SfamaPacket, SfamaTimer, backoff_timer, cancel_timer,
  data_send_timer, emit_all, schedule_timer, timer_expired, wait_reply_timer, wait_send_timer,
}

abbrev pub timer_code : SfamaTimer → ℕ
timer_code wait_send_timer = 0
timer_code wait_reply_timer = 1
timer_code backoff_timer = 2
timer_code data_send_timer = 3

abbrev pub same_timer : SfamaTimer → SfamaTimer → Bool
same_timer t u = timer_code t == timer_code u

-- `Timer::IsRunning`, from what was done with the timer so far.
unfoldable pub is_running : SfamaTimer → List SfamaEffect → Bool
is_running t [] = false
is_running t (schedule_timer u delay ∷ es) = same_timer t u || is_running t es
is_running t (cancel_timer u ∷ es) = not (same_timer t u) && is_running t es
is_running t (timer_expired u ∷ es) = not (same_timer t u) && is_running t es
is_running t (_ ∷ es) = is_running t es

abbrev pub expire : SfamaTimer → Sfama → Sfama
expire t m = emit_all (timer_expired t ∷ []) m

-- One event. A packet from below or above may come at any time, and so may a SlotInitHandler. A timer
-- expires if it runs.
infix 40 ◌⟹◌ ◌⟹*◌
pub data ◌⟹◌ : Sfama → Sfama → Type 0 where
  packet_received : (env : SfamaEnv) (p : SfamaPacket) (m : Sfama) → m ⟹ recv_process env p m
  packet_from_above : (env : SfamaEnv) (p : SfamaPacket) (m : Sfama) → m ⟹ tx_process env p m
  wait_send_expires :
      (env : SfamaEnv) (m : Sfama)
      → is_running wait_send_timer m.out ≡ true
      → m ⟹ wait_send_timer_process env (expire wait_send_timer m)
  wait_reply_expires :
      (env : SfamaEnv) (m : Sfama)
      → is_running wait_reply_timer m.out ≡ true
      → m ⟹ wait_reply_timer_process env false (expire wait_reply_timer m)
  backoff_expires :
      (env : SfamaEnv) (m : Sfama)
      → is_running backoff_timer m.out ≡ true
      → m ⟹ backoff_timer_process env (expire backoff_timer m)
  data_send_expires :
      (env : SfamaEnv) (m : Sfama)
      → is_running data_send_timer m.out ≡ true
      → m ⟹ data_send_timer_process env (expire data_send_timer m)
  slot_begins : (env : SfamaEnv) (m : Sfama) → m ⟹ slot_init_handler env m

-- The events, one after the other.
pub data ◌⟹*◌ : Sfama → Sfama → Type 0 where
  no_event : {m : Sfama} → m ⟹* m
  and_then : {m n o : Sfama} → m ⟹* n → n ⟹ o → m ⟹* o
