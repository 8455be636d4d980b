-- ===== src/Aloha/GiveUp.antt =====
-- An ALOHA node that gives a packet up.
use aqua_sim_ng.Aloha.{backoff_with, do_backoff, fill_data, passive_with, tx_process}
use aqua_sim_ng.Aloha.State.{Aloha, AlohaEnv, AlohaPacket, is_status, maximum_counter, passive}
use aqua_sim_ng.Prelude.{
  List, Option, [], arith, false, length, length-append, none, refl, some, ℕ, ◌++◌, ◌+◌, ◌∷◌, ◌≡◌,
  ◌≤◌,
}

-- `TxProcess`, packet by packet.
abbrev pub tx_all : List (AlohaEnv × AlohaPacket) → Aloha → Option Aloha
tx_all [] m = some m
tx_all ((env, p) ∷ ps) m = elim (tx_process env p m) [ none ↦ none | some m' ↦ tx_all ps m' ]

-- A node that is neither PASSIVE nor has anything to do.
record Waits (n : ℕ) (m m' : Aloha) : Type 0 where
  pub same_status : m'.status ≡ m.status
  pub same_out : m'.out ≡ m.out
  pub longer : length m'.queue ≡ length m.queue + n

tx_waits :
    (env : AlohaEnv) (p : AlohaPacket) (m : Aloha)
    → is_status passive m.status ≡ false
    → tx_process env p m ≡ some (record m { queue = m.queue ++ fill_data env p m ∷ [] })
unfolding tx_process
tx_waits env p m h = rw h refl

tx_all-Waits :
    (ps : List (AlohaEnv × AlohaPacket)) (m : Aloha)
    → is_status passive m.status ≡ false
    → (m' : Aloha) × (tx_all ps m ≡ some m') × Waits (length ps) m m'
tx_all-Waits [] m h =
    (m, refl, record { same_status = refl; same_out = refl; longer = omega arith })
tx_all-Waits ((env, p) ∷ ps) m h =
    let d = fill_data env p m in
    let n = record m { queue = m.queue ++ d ∷ [] } in
    let (m', ran, w) = tx_all-Waits ps n h in
    (
      m',
      rw (tx_waits env p m h, tx_all) ran,
      record {
        same_status = w.same_status;
        same_out = w.same_out;
        longer = omega (arith, w.longer, length-append m.queue (d ∷ []));
      },
    )

-- When DoBackoff gives up the front packet in a status other than PASSIVE, it schedules nothing, although
-- ProcessPassive is there to send the next packet. The status stays, and however many packets come
-- from above, they only join the queue behind those that waited.
pub give_up_stalls :
    (env : AlohaEnv) (ps : List (AlohaEnv × AlohaPacket)) (p : AlohaPacket) (q : List AlohaPacket)
    (m : Aloha)
    → is_status passive m.status ≡ false
    → maximum_counter ≤ m.bo_counter + 1
    → m.queue ≡ p ∷ q
    → (n m' : Aloha) × (do_backoff env m ≡ some n)
      × (n.queue ≡ q)
      × (n.out ≡ m.out)
      × (tx_all ps n ≡ some m')
      × (m'.status ≡ m.status)
      × (m'.out ≡ m.out)
      × (length m'.queue ≡ length q + length ps)
unfolding backoff_with passive_with
give_up_stalls env ps p q m h full e =
    let n = record m {
      draws = m.draws + 1;
      bo_counter = 0;
      queue = q;
      tx_packet_drops = m.tx_packet_drops + 1;
      dropped = m.dropped ++ p ∷ [];
    } in
    let (m', ran, w) = tx_all-Waits ps n h in
    (n, m', grind arith, refl, refl, ran, w.same_status, w.same_out, w.longer)
