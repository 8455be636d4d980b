-- ===== src/Tests/Fixtures.antt =====
-- Small nodes, packets and routes.
use mathlib.Core.List.{append_assoc}
use aqua_sim_ng.Aodv.Header.{default_header, uwaodv_data}
use aqua_sim_ng.Aodv.State.{AodvPacket, Env, Node, RouteEntry, default_config, new_node}
use aqua_sim_ng.Packet.{default_ash}
use aqua_sim_ng.Prelude.{
  List, [], ap, arith, length, length-append, refl, true, ℕ, ◌%◌, ◌*◌, ◌++◌, ◌+◌, ◌/◌, ◌<◌, ◌^◌,
  ◌∙◌, ◌∷◌, ◌≡◌,
}
use aqua_sim_ng.Wire.{Buffer}

-- The clock at a time, a random variable that always gives its bound, ids that count up.
abbrev pub env_at : ℕ → Env
env_at now = record {
  now = now;
  uniform = λ i bound. bound;
  uid = λ i. i;
  scale_seconds = λ t k. t * k;
}

-- To a destination through neighbour 2, good until 100, for the precursors 1, 3 and 4.
abbrev pub route : RouteEntry
route = record {
  next_hop = 2;
  hop_count = 3;
  dest_seq_no = 10;
  valid_seq_no = true;
  valid = true;
  expire = 100;
  precursors = 1 ∷ 3 ∷ 4 ∷ [];
}

-- Node 1 with no routes.
abbrev pub alone : Node
alone = new_node 1 default_config true

-- Node 1 with the route to 9, which it learned from neighbour 2 at time 0.
abbrev pub routed : Node
routed = record alone { route_table = (9, route) ∷ []; neighbors = (2, 0) ∷ [] }

-- A data packet from 1 to 9.
abbrev pub packet : AodvPacket
packet = record {
  ash = default_ash;
  aodv = record default_header { type = uwaodv_data; origin = 1; destination = 9 };
  payload = record { uid = 7; size = 100 };
}

-- Bytes as numbers, the lower one first.
abbrev write16 : ℕ → List ℕ
write16 n = n % 256 ∷ n / 256 ∷ []

abbrev take8 : List ℕ → ℕ × List ℕ
take8 [] = (0, [])
take8 (b ∷ bs) = (b, bs)

abbrev take16 : List ℕ → ℕ × List ℕ
take16 bs = let (lo, bs1) = take8 bs in let (hi, bs2) = take8 bs1 in (lo + 256 * hi, bs2)

abbrev take32 : List ℕ → ℕ × List ℕ
take32 bs = let (lo, bs1) = take16 bs in let (hi, bs2) = take16 bs1 in (lo + 65536 * hi, bs2)

abbrev write32 : ℕ → List ℕ
write32 n = n % 256 ∷ n / 256 % 256 ∷ n / 65536 % 256 ∷ n / 16777216 ∷ []

pub read16 : (n : ℕ) (b : List ℕ) → n < 2 ^ 16 → take16 (write16 n ++ b) ≡ (n, b)
read16 n b h = ground arith

pub read32 : (n : ℕ) (b : List ℕ) → n < 2 ^ 32 → take32 (write32 n ++ b) ≡ (n, b)
read32 n b h = ground arith

abbrev high64 : ℕ → ℕ × List ℕ → ℕ × List ℕ
high64 lo r = (lo + 2 ^ 32 * r.0, r.1)

abbrev low64 : ℕ × List ℕ → ℕ × List ℕ
low64 r = high64 r.0 (take32 r.1)

abbrev take64 : List ℕ → ℕ × List ℕ
take64 bs = low64 (take32 bs)

abbrev write64 : ℕ → List ℕ
write64 n = write32 (n % 2 ^ 32) ++ write32 (n / 2 ^ 32)

pub read64 : (n : ℕ) (b : List ℕ) → n < 2 ^ 64 → take64 (write64 n ++ b) ≡ (n, b)
read64 n b h =
    let lo = read32 (n % 2 ^ 32) (write32 (n / 2 ^ 32) ++ b) (omega arith) in
    let hi = read32 (n / 2 ^ 32) b (omega (arith, h)) in
    ap low64 lo ∙ ap (λ r. high64 (n % 2 ^ 32) r) hi ∙ ap (λ k. (k, b)) (omega arith)

abbrev pub bytes : Buffer
bytes = record {
  Bytes = List ℕ;
  append = λ a b. a ++ b;
  size = length;
  write_u8 = λ n. n ∷ [];
  write_u16 = write16;
  write_u32 = write32;
  write_u64 = write64;
  read_u8 = take8;
  read_u16 = take16;
  read_u32 = take32;
  read_u64 = take64;
  append_assoc = λ a b c. append_assoc a b c;
  size-append = length-append;
  size-u8 = λ n. refl;
  size-u16 = λ n. refl;
  size-u32 = λ n. refl;
  size-u64 = λ n. refl;
  read-u8 = λ n b h. refl;
  read-u16 = read16;
  read-u32 = read32;
  read-u64 = read64;
}
