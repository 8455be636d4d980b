-- ===== src/Tests/Schedules.antt =====
-- The schedules of JMAC.
use aqua_sim_ng.Address.{address_key}
use aqua_sim_ng.Jmac.{
  JammingMacHeader, bit, deserialize_jamming, get_node_bit, jamming_size, serialize_jamming,
  set_node_bit, set_schedule, shift_right,
}
use aqua_sim_ng.Jmac.Bits.{set_node_bit-bits}
use aqua_sim_ng.Jmac.Schedule.{deserialize-serialize_jamming}
use aqua_sim_ng.Prelude.{
  List, [], ap, arith, if◌then◌else◌, inr, length, ltb, none, refl, some, suc, zero, ℕ, ◌%◌, ◌&&◌,
  ◌++◌, ◌==◌, ◌||◌, ◌∷◌, ◌≡◌,
}
use aqua_sim_ng.Prelude.Map.{Map, find, insert}
use aqua_sim_ng.Tests.Fixtures.{bytes}

set_node_bit-bits_example :
    (bits : ℕ) × (set_node_bit 31 8 ≡ some bits)
    × (get_node_bit 40 bits ≡ (if 40 == 31 || 31 == 31 then 1 else get_node_bit 40 8))
set_node_bit-bits_example = set_node_bit-bits 31 8 40 (inr (refl, omega arith, omega arith))

-- A reply with delays for nodes 1 and 3.
abbrev reply : JammingMacHeader
reply = record {
  ptype = 2;
  node_id = 7;
  node_list = 10;
  delays_ms = (1, 500) ∷ (3, 700) ∷ [];
  x_coord = 0;
  y_coord = 0;
  z_coord = 0;
}

abbrev no_reply : JammingMacHeader
no_reply = record reply { ptype = 0; node_id = 0; node_list = 0; delays_ms = [] }

set_schedule_run :
    elim (set_schedule 1 500 (record no_reply { ptype = 2; node_id = 7 })) [
      | none ↦ none
      | some h ↦ set_schedule 3 700 h
    ]
    ≡ some reply
unfolding set_schedule set_node_bit get_node_bit bit shift_right find insert
set_schedule_run = refl

-- The delays of the two nodes.
abbrev delay_of : ℕ → ℕ
delay_of j = if j == 1 then 500 else 700

nothing_left : (j : ℕ) → shift_right j 0 ≡ 0
unfolding shift_right
nothing_left zero = refl
nothing_left (suc j) = nothing_left j

above_three : (j : ℕ) → get_node_bit (suc (suc (suc (suc j)))) 10 ≡ 0
unfolding get_node_bit shift_right
above_three j = ap (λ m. m % 2) (nothing_left j)

delay_of_found : (j : ℕ) → get_node_bit j 10 ≡ 1 → find j reply.delays_ms ≡ some (delay_of j)
unfolding get_node_bit shift_right find
delay_of_found zero h = absurd (omega (arith, h))
delay_of_found (suc zero) h = refl
delay_of_found (suc (suc zero)) h = absurd (omega (arith, h))
delay_of_found (suc (suc (suc zero))) h = refl
delay_of_found (suc (suc (suc (suc j)))) h = absurd (omega (arith, h, above_three j))

deserialize-serialize_jamming_example :
    (written : List ℕ) × (after : Map ℕ ℕ) × (serialize_jamming bytes reply ≡ some written)
    × (jamming_size reply ≡ some (length written))
    × (deserialize_jamming bytes no_reply (written ++ [])
        ≡ (record no_reply { ptype = 2; node_id = 7; node_list = 10; delays_ms = after }, []))
    × ((i : ℕ)
        → find i after
          ≡ (if ltb i 64 && get_node_bit i 10 == 1 then find i reply.delays_ms else none))
deserialize-serialize_jamming_example =
    deserialize-serialize_jamming bytes no_reply reply [] refl refl (omega arith) (omega arith)
      (record { delay = delay_of; delay_is = delay_of_found; delay_range = λ j. ground arith })
