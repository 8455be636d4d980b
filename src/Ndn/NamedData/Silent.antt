-- ===== src/Ndn/NamedData/Silent.antt =====
-- What the layer does when each packet is copied to a buffer of its own.
use aqua_sim_ng.Address.{address_key}
use aqua_sim_ng.Ndn.Fib.{Fib, add_fib_entry, interest_recv}
use aqua_sim_ng.Ndn.NamedData.{
  ContentStore, Env, NamedData, NdnPacket, fifo_store, forward_interest, lru_store, ndn_data,
  ndn_discovery, ndn_interest, recv, recv_all, recv_check, recv_data, recv_discovery, recv_interest,
  satisfy, store_get,
}
use aqua_sim_ng.Ndn.Payload.Total.{HasNul, interest_and_data-HasNul, shorten_name_prefix-HasNul}
use aqua_sim_ng.Ndn.Pit.{get_pit_entry}
use aqua_sim_ng.Ndn.Store.Fifo.{get_fifo_entry}
use aqua_sim_ng.Ndn.Store.Lru.{get_lru_entry}
use aqua_sim_ng.Prelude.{
  ==_iff, All, Bool, Bool-cases, List, Option, Option-cases, [], arith, false, inl, inr, ltb, none,
  not, refl, some, subst, sym, true, ℕ, ◌%◌, ◌&&◌, ◌++◌, ◌+◌, ◌==◌, ◌^◌, ◌∙◌, ◌∷◌, ◌≡◌, ◌⊎◌,
}
use aqua_sim_ng.Prelude.Cases.{if_both}
use aqua_sim_ng.Prelude.Map.{find, find-insert}

abbrev Input : Type 0
Input = Env × NdnPacket

-- No buffer is at an address that stands for a name of the table or for an earlier buffer.
abbrev pub AreFresh : List Input → Fib → Type 0
AreFresh [] t = Unit
AreFresh (i ∷ is) t =
    (find i.0.buffer t.table ≡ none)
    × All (λ j. (j.0.buffer == i.0.buffer) ≡ false) is
    × AreFresh is t

-- A cache without entries.
abbrev pub IsEmptyStore : Bool → Option ContentStore → Type 0
IsEmptyStore has_cache none = has_cache ≡ false
IsEmptyStore has_cache (some (fifo_store c)) = c.cache ≡ []
IsEmptyStore has_cache (some (lru_store c)) = c.item_map ≡ []

-- The node between two packets: what it has sent, and nothing pending.
record IsSilent (sent : List NdnPacket) (s : NamedData) : Type 0 where
  pub no_pit : s.pit.table ≡ []
  pub same_sent : s.sent ≡ sent
  pub no_store : IsEmptyStore s.has_cache s.store

AreFresh-add :
    (p a cost : ℕ) (is : List Input) (t : Fib)
    → All (λ j. (j.0.buffer == p) ≡ false) is
    → AreFresh is t
    → AreFresh is (add_fib_entry p a cost t)
unfolding add_fib_entry
AreFresh-add p a cost [] t h f = tt
AreFresh-add p a cost (i ∷ is) t h f = (
  elim (Option-cases (find p t.table)) [
    | inl e ↦ ground (
      arith,
      e,
      f.0,
      h.0,
      ==_iff p i.0.buffer,
      ==_iff i.0.buffer p,
      find-insert p i.0.buffer ((a, cost) ∷ []) t.table,
    )
    | inr (es, e) ↦ ground (
      arith,
      e,
      f.0,
      h.0,
      ==_iff p i.0.buffer,
      ==_iff i.0.buffer p,
      find-insert p i.0.buffer (es ++ (a, cost) ∷ []) t.table,
    )
  ],
  f.1,
  AreFresh-add p a cost is t h.1 f.2,
)

-- A store without entries finds nothing.
store_get-IsEmptyStore :
    (key : ℕ) (has_cache : Bool) (o : Option ContentStore)
    → IsEmptyStore has_cache o
    → has_cache ≡ true
    → store_get key o ≡ some (o, 0)
unfolding store_get get_fifo_entry get_lru_entry find
store_get-IsEmptyStore key has_cache none h c = absurd (ground (arith, h, c))
store_get-IsEmptyStore key has_cache (some (fifo_store c)) h e = ground (arith, h)
store_get-IsEmptyStore key has_cache (some (lru_store c)) h e = ground (arith, h)

-- One packet: it is processed, and leaves the node silent with the table of names as `table` says.
record Kept (env : Env) (o : Option (NamedData × Bool)) (sent : List NdnPacket) (t : Fib)
    : Type 0 where
  pub after : NamedData
  pub result : Bool
  pub returned : o ≡ some (after, result)
  pub silent : IsSilent sent after
  pub table_is : (after.fib ≡ t) ⊎ (after.fib ≡ add_fib_entry env.buffer 65535 0 t)

interest-Kept :
    (env : Env) (s_addr : ℕ) (bs : List ℕ) (sent : List NdnPacket) (s : NamedData)
    → IsSilent sent s
    → find env.buffer s.fib.table ≡ none
    → Kept env (recv_interest env s_addr bs s) sent s.fib
unfolding recv_interest forward_interest interest_recv
interest-Kept env s_addr bs sent s h f = elim (Bool-cases s.has_cache) [
  | inl c ↦ record {
    after = record s { buffers = (env.buffer, bs) ∷ s.buffers };
    result = false;
    returned =
        ground (arith, c, f, store_get-IsEmptyStore env.buffer s.has_cache s.store h.no_store c);
    silent = record { no_pit = h.no_pit; same_sent = h.same_sent; no_store = h.no_store };
    table_is = inl refl;
  }
  | inr c ↦ record {
    after = record s { buffers = (env.buffer, bs) ∷ s.buffers };
    result = false;
    returned = ground (arith, c, f);
    silent = record { no_pit = h.no_pit; same_sent = h.same_sent; no_store = h.no_store };
    table_is = inl refl;
  }
]

data-Kept :
    (env : Env) (bs : List ℕ) (sent : List NdnPacket) (s : NamedData)
    → IsSilent sent s
    → HasNul bs
    → Kept env (recv_data env bs s) sent s.fib
unfolding recv_data satisfy get_pit_entry find
data-Kept env bs sent s h n =
    let ((name, data', left), split) = interest_and_data-HasNul env.buffer bs n in
    record {
      after = record s { buffers = (env.buffer, left) ∷ s.buffers };
      result = false;
      returned = ground (arith, split, h.no_pit);
      silent = record { no_pit = h.no_pit; same_sent = h.same_sent; no_store = h.no_store };
      table_is = inl refl;
    }

discovery-Kept :
    (env : Env) (bs : List ℕ) (sent : List NdnPacket) (s : NamedData)
    → IsSilent sent s
    → HasNul bs
    → Kept env (recv_discovery env bs s) sent s.fib
unfolding recv_discovery
discovery-Kept env bs sent s h n =
    let (left, short) = shorten_name_prefix-HasNul bs n in
    record {
      after = record s {
        buffers = (env.buffer, left) ∷ s.buffers;
        fib = add_fib_entry env.buffer 65535 0 s.fib;
      };
      result = true;
      returned = ground (arith, short);
      silent = record { no_pit = h.no_pit; same_sent = h.same_sent; no_store = h.no_store };
      table_is = inr refl;
    }

dropped-Kept :
    (env : Env) (sent : List NdnPacket) (s : NamedData)
    → IsSilent sent s
    → Kept env (some (s, false)) sent s.fib
dropped-Kept env sent s h = record {
  after = s;
  result = false;
  returned = refl;
  silent = h;
  table_is = inl refl;
}

recv-Kept :
    (env : Env) (pkt : NdnPacket) (sent : List NdnPacket) (s : NamedData)
    → IsSilent sent s
    → HasNul pkt.bytes
    → find env.buffer s.fib.table ≡ none
    → Kept env (recv env pkt s) sent s.fib
unfolding recv
recv-Kept env pkt sent s h n f =
    let K : Option (NamedData × Bool) → Type 0 = λ o. Kept env o sent s.fib in
    let drop = dropped-Kept env sent s h in
    let num_forwards = (pkt.ash.num_forwards + 1) % 2 ^ 16 in
    if_both K (pkt.ash.s_addr == s.address && ltb 1 num_forwards) _ _ drop (
      if_both K (not (recv_check s.address pkt.ash.d_addr pkt.p_type)) _ _ drop (
        if_both K (pkt.p_type == ndn_interest) _ _
          (interest-Kept env pkt.ash.s_addr pkt.bytes sent s h f)
          (if_both K (pkt.p_type == ndn_data) _ _ (data-Kept env pkt.bytes sent s h n) (
            if_both K (pkt.p_type == ndn_discovery) _ _ (discovery-Kept env pkt.bytes sent s h n)
              drop))))

-- Packets whose bytes have a NUL, each copied to a buffer at an address that is none of the names of the
-- FIB and no earlier buffer, are all processed, and nothing is sent: neither an interest nor data is
-- forwarded, and no interest is recorded in the PIT, which was empty, as was the cache.
pub recv_all-IsSilent :
    (inputs : List Input) (s : NamedData)
    → s.pit.table ≡ []
    → IsEmptyStore s.has_cache s.store
    → All (λ i. HasNul i.1.bytes) inputs
    → AreFresh inputs s.fib
    → (s' : NamedData) × (recv_all inputs s ≡ some s') × (s'.pit.table ≡ []) × (s'.sent ≡ s.sent)
unfolding recv_all
recv_all-IsSilent [] s p e n f = (s, refl, p, refl)
recv_all-IsSilent ((env, pkt) ∷ inputs) s p e n f =
    let k =
      recv-Kept env pkt s.sent s (record { no_pit = p; same_sent = refl; no_store = e }) n.0 f.0 in
    let fresh : AreFresh inputs k.after.fib = elim k.table_is [
      | inl same ↦ subst (λ t. AreFresh inputs t) (sym same) f.2
      | inr new ↦
          subst (λ t. AreFresh inputs t) (sym new)
            (AreFresh-add env.buffer 65535 0 inputs s.fib f.1 f.2)
    ] in
    let (s', ran, p', sent') =
      recv_all-IsSilent inputs k.after k.silent.no_pit k.silent.no_store n.1 fresh in
    (s', ground (arith, k.returned, ran), p', sent' ∙ k.silent.same_sent)
