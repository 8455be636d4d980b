-- ===== src/Jmac/Schedule.antt =====
-- Reading the schedule of a reply back.
use aqua_sim_ng.Address.{address_key}
use aqua_sim_ng.Jmac.{
  JammingMacHeader, deserialize_jamming, get_node_bit, get_nodes_amount, jamming_size, read_reply,
  read_schedule, serialize_jamming, write_schedule,
}
use aqua_sim_ng.Jmac.Bits.{bit_value}
use aqua_sim_ng.Jmac.Count.{get_nodes_amount-nodes_from, nodes_from}
use aqua_sim_ng.Prelude.{
  ==_iff, Bool-cases, Option, [], ap, arith, if◌then◌else◌, inl, inr, leb, ltb, none, refl, some,
  subst, suc, sym, zero, ℕ, ◌&&◌, ◌*◌, ◌+◌, ◌<◌, ◌==◌, ◌^◌, ◌∙◌, ◌≡◌, ◌≤◌,
}
use aqua_sim_ng.Prelude.Map.{Map, find, find-insert, insert}
use aqua_sim_ng.Wire.{Buffer}

-- Every node of the list has a delay, which fits 16 bits.
pub record IsScheduled (h : JammingMacHeader) : Type 0 where
  pub delay : ℕ → ℕ
  pub delay_is : (j : ℕ) → get_node_bit j h.node_list ≡ 1 → find j h.delays_ms ≡ some (delay j)
  pub delay_range : (j : ℕ) → delay j < 2 ^ 16

-- The delays read for the nodes from one up to another, over those that were there.
abbrev read_of : ℕ → ℕ → JammingMacHeader → Map ℕ ℕ → ℕ → Option ℕ
read_of k j h m i =
    if (leb j i && ltb i (j + k)) && get_node_bit i h.node_list == 1
    then find i h.delays_ms
    else find i m

module _ (buf : Buffer) where
  open buf use {
    Bytes, append, size, append_assoc, size-append, size-u8, size-u16, size-u64, read-u8, read-u16,
    read-u64, write_u8, write_u16, write_u64,
  }

  -- The two loops from a node on.
  record Loops (k j : ℕ) (h : JammingMacHeader) (m : Map ℕ ℕ) (w : Bytes) : Type 0 where
    pub written : Bytes
    pub wrote : write_schedule buf k j h w ≡ some written
    pub sized : size written ≡ size w + 2 * nodes_from k j h.node_list
    pub tail : Bytes → Bytes
    pub appended : (rest : Bytes) → append written rest ≡ append w (tail rest)
    pub after : Map ℕ ℕ
    pub reads : (rest : Bytes) → read_schedule buf k j h.node_list m (tail rest) ≡ (after, rest)
    pub found : (i : ℕ) → find i after ≡ read_of k j h m i

  stop-Loops : (j : ℕ) (h : JammingMacHeader) (m : Map ℕ ℕ) (w : Bytes) → Loops 0 j h m w
  unfolding write_schedule read_schedule nodes_from
  stop-Loops j h m w = record {
    written = w;
    wrote = refl;
    sized = omega arith;
    tail = λ rest. rest;
    appended = λ rest. refl;
    after = m;
    reads = λ rest. refl;
    found = λ i. ground arith;
  }

  from-Loops :
      (k j : ℕ) (h : JammingMacHeader) (m : Map ℕ ℕ) (w : Bytes)
      → IsScheduled h
      → ((i : ℕ) → j ≤ i → find i m ≡ none)
      → Loops k j h m w
  unfolding write_schedule read_schedule nodes_from
  from-Loops zero j h m w v fresh = stop-Loops j h m w
  from-Loops (suc k) j h m w v fresh = elim (bit_value j h.node_list) [
    | inl e ↦
        let r = from-Loops k (j + 1) h m w v (λ i low. fresh i (omega (arith, low))) in
        record {
          written = r.written;
          wrote = ground (arith, e, r.wrote);
          sized = omega (arith, e, r.sized);
          tail = r.tail;
          appended = r.appended;
          after = r.after;
          reads = λ rest. ground (arith, e, r.reads rest);
          found = λ i. ground (arith, e, r.found i, ==_iff i j);
        }
    | inr e ↦
        let d = v.delay j in
        let there = v.delay_is j e in
        let absent = fresh j (omega arith) in
        let kept : (i : ℕ) → j + 1 ≤ i → find i (insert j d m) ≡ none =
          λ i low. ground (arith, find-insert j i d m, fresh i (omega (arith, low)), low) in
        let r = from-Loops k (j + 1) h (insert j d m) (append w (write_u16 d)) v kept in
        record {
          written = r.written;
          wrote = ground (arith, e, there, r.wrote);
          sized = omega (arith, e, r.sized, size-append w (write_u16 d), size-u16 d);
          tail = λ rest. append (write_u16 d) (r.tail rest);
          appended = λ rest. r.appended rest ∙ append_assoc w (write_u16 d) (r.tail rest);
          after = r.after;
          reads = λ rest.
              let b = read-u16 d (r.tail rest) (v.delay_range j) in
              ground (arith, e, absent, b, r.reads rest);
          found = λ i. elim (Bool-cases (i == j)) [
            | inl q ↦
                let same : i ≡ j = (==_iff i j).0 q in
                subst (λ x. find x r.after ≡ read_of (suc k) j h m x) (sym same)
                  (ground (arith, e, there, absent, r.found j, find-insert j j d m))
            | inr q ↦ ground (arith, e, q, r.found i, find-insert j i d m, ==_iff i j, ==_iff j i)
          ];
        }
  ]

  -- The bytes before the schedule.
  abbrev front : JammingMacHeader → Bytes
  front h = append (append (write_u8 h.ptype) (write_u8 h.node_id)) (write_u64 h.node_list)

  read_front :
      (h0 : JammingMacHeader) (id nodes : ℕ) (b : Bytes)
      → id < 2 ^ 8
      → nodes < 2 ^ 64
      → deserialize_jamming buf h0
          (append (append (append (write_u8 2) (write_u8 id)) (write_u64 nodes)) b)
        ≡ (let r = read_schedule buf 64 0 nodes h0.delays_ms b in
            (record h0 { ptype = 2; node_id = id; node_list = nodes; delays_ms = r.0 }, r.1))
  unfolding deserialize_jamming read_reply
  read_front h0 id nodes b small word =
      let two : 2 < 2 ^ 8 = omega arith in simp (append_assoc, read-u8, read-u64, two, small, word)

  serialize_reply :
      (h : JammingMacHeader) (w : Bytes)
      → h.ptype ≡ 2
      → write_schedule buf 64 0 h (front h) ≡ some w
      → serialize_jamming buf h ≡ some w
  unfolding serialize_jamming
  serialize_reply h w e r = ground (arith, e, r)

  reply_size :
      (h : JammingMacHeader) (n : ℕ)
      → h.ptype ≡ 2
      → get_nodes_amount h.node_list ≡ some n
      → jamming_size h ≡ some (2 + 8 + 2 * n)
  unfolding jamming_size
  reply_size h n e amount = ground (arith, e, amount)

  -- What the loop read, from an empty map.
  abbrev scheduled : JammingMacHeader → ℕ → Option ℕ
  scheduled h i = if ltb i 64 && get_node_bit i h.node_list == 1 then find i h.delays_ms else none

  read_all : (h : JammingMacHeader) (i : ℕ) → read_of 64 0 h [] i ≡ scheduled h i
  unfolding find
  read_all h i = ground arith

  -- A reply with a schedule, whose fields fit, is written in as many bytes as GetSerializedSize says. A
  -- header without delays that Deserialize reads it into, whatever follows, gets its type, node and list of
  -- nodes, and for each node of the list its delay and for no other node one; what follows is left.
  pub deserialize-serialize_jamming :
      (h0 h : JammingMacHeader) (rest : Bytes)
      → h0.delays_ms ≡ []
      → h.ptype ≡ 2
      → h.node_id < 2 ^ 8
      → h.node_list < 2 ^ 64
      → IsScheduled h
      → (written : Bytes) × (after : Map ℕ ℕ) × (serialize_jamming buf h ≡ some written)
        × (jamming_size h ≡ some (size written))
        × (deserialize_jamming buf h0 (append written rest) ≡ (
          record h0 { ptype = 2; node_id = h.node_id; node_list = h.node_list; delays_ms = after },
          rest,
        ))
        × ((i : ℕ)
            → find i after
              ≡ (if ltb i 64 && get_node_bit i h.node_list == 1 then find i h.delays_ms else none))
  unfolding serialize_jamming jamming_size find
  deserialize-serialize_jamming h0 h rest none_yet e small word v =
      let r = from-Loops 64 0 h [] (front h) v (λ i low. refl) in
      let amount = get_nodes_amount-nodes_from h.node_list word in
      let total : 2 + 8 + 2 * nodes_from 64 0 h.node_list ≡ size r.written =
        omega (arith, r.sized, size-append, size-u8, size-u64) in
      let typed : append (front h) (r.tail rest)
          ≡ append (append (append (write_u8 2) (write_u8 h.node_id)) (write_u64 h.node_list))
              (r.tail rest) =
        ap
          (λ t.
            append (append (append (write_u8 t) (write_u8 h.node_id)) (write_u64 h.node_list))
              (r.tail rest))
          e in
      let reads : read_schedule buf 64 0 h.node_list h0.delays_ms (r.tail rest) ≡ (r.after, rest) =
        ap (λ m. read_schedule buf 64 0 h.node_list m (r.tail rest)) none_yet ∙ r.reads rest in
      (
        r.written,
        r.after,
        serialize_reply h r.written e r.wrote,
        reply_size h (nodes_from 64 0 h.node_list) e amount ∙ ap some total,
        ap (λ b. deserialize_jamming buf h0 b) (r.appended rest ∙ typed)
            ∙ read_front h0 h.node_id h.node_list (r.tail rest) small word
            ∙ ap
                (λ q. (
                  record h0 {
                    ptype = 2;
                    node_id = h.node_id;
                    node_list = h.node_list;
                    delays_ms = q.0;
                  },
                  q.1,
                ))
                reads,
        λ i. r.found i ∙ read_all h i,
      )
