-- ===== src/Sfama/Train/Firsts.antt =====
-- Which packets go into a train.
use aqua_sim_ng.Prelude.{List, [], arith, drop, refl, take, ℕ, ◌+◌, ◌-◌, ◌<◌, ◌∷◌, ◌≡◌}
use aqua_sim_ng.Sfama.State.{Sfama, SfamaPacket, idle_wait}
use aqua_sim_ng.Sfama.Train.{choose_train, fill_train}

-- The number of packets that the train has room for.
less_one : (b k : ℕ) → b - (k + 1) ≡ b - k - 1
less_one b k = omega arith

fill_train-firsts :
    (r max_burst pkt_num : ℕ) (ps : List SfamaPacket)
    → fill_train r r max_burst pkt_num ps
      ≡ (take (max_burst - pkt_num) ps, [], drop (max_burst - pkt_num) ps)
unfolding fill_train
fill_train-firsts r max_burst pkt_num [] = refl
fill_train-firsts r max_burst pkt_num (p ∷ ps) =
    let e = fill_train-firsts r max_burst (pkt_num + 1) ps in
    ground (arith, e, less_one max_burst pkt_num)

-- In IDLE_WAIT, with no train left over, PrepareSendingDATA takes the first packets of the queue, up to
-- the size of a train, in their order. It sends them all to the receiver of the first, whatever
-- their own receivers are.
pub choose_train-firsts :
    (m : Sfama) (p : SfamaPacket) (ps : List SfamaPacket)
    → m.status ≡ idle_wait
    → m.sending ≡ []
    → m.cached ≡ p ∷ ps
    → 0 < m.max_burst
    → choose_train m
      ≡ (p.da, record m { sending = take m.max_burst (p ∷ ps); cached = drop m.max_burst (p ∷ ps) })
unfolding choose_train
choose_train-firsts m p ps h s c b = ground (arith, fill_train-firsts p.da m.max_burst 1 ps)
