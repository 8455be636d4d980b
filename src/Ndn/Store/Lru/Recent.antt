-- ===== src/Ndn/Store/Lru/Recent.antt =====
-- The least-recently-used store against the plain list of its entries.
use aqua_sim_ng.Address.{address_key}
use aqua_sim_ng.Ndn.Store.Lru.{CsLru, LruNode, clean, forget, lru_full, push_front}
use aqua_sim_ng.Ndn.Store.Lru.Names.{
  Popped, erase-AreNames, insert-AreNames, length-erase, length-insert, pop_back-Popped,
}
use aqua_sim_ng.Ndn.Store.Lru.Nodes.{
  AreNodes, IsMatched, IsWithin, drop-AreNodes, drop_absent, drop_key, entries, entries-drop,
  fresh_id, id_of, id_of-Pointed, id_of-drop, later-AreNodes, length-drop, length-entries, without,
}
use aqua_sim_ng.Prelude.{
  ==_iff, List, Option-cases, [], ap, arith, dec_lt, false, if◌then◌else◌, inl, inr, length, ltb,
  none, refl, some, suc, sym, take, true, ℕ, ◌+◌, ◌-◌, ◌<◌, ◌==◌, ◌∙◌, ◌∷◌, ◌≡◌, ◌≤◌, ◌⊎◌,
}
use aqua_sim_ng.Prelude.Map.{erase, find, find-erase, find-erase_self, find-insert}

-- As many entries as there is room for; 0 is no limit.
abbrev pub trim : ℕ → List (ℕ × ℕ) → List (ℕ × ℕ)
trim n es = if n == 0 then es else take n es

take_all : (n : ℕ) (es : List (ℕ × ℕ)) → length es ≤ n → take n es ≡ es
take_all n [] h = refl
take_all n (e ∷ es) h = ground (arith, take_all (n - 1) es)

-- A call returns a store that matches, with these entries.
pub record Becomes (n : ℕ) (es : List (ℕ × ℕ)) (c : CsLru) : Type 0 where
  pub matched : IsMatched c
  pub size_is : c.cache_size ≡ n
  pub entries_are : entries c.item_list ≡ es

-- The name is gone.
pub record Forgets (k : ℕ) (c : CsLru) : Type 0 where
  pub after : CsLru
  pub forgot : forget k c ≡ some after
  pub becomes : Becomes c.cache_size (without k (entries c.item_list)) after
  pub gone : find k after.item_map ≡ none
  pub shorter : length after.item_list ≤ length c.item_list

forget_absent : (k : ℕ) (c : CsLru) → IsMatched c → find k c.item_map ≡ none → Forgets k c
unfolding forget
forget_absent k c h e =
    let a = drop_absent k c.item_list (sym (h.agree k) ∙ e) in
    record {
      after = c;
      forgot = ground arith;
      becomes = record {
        matched = h;
        size_is = refl;
        entries_are = ap (λ xs. entries xs) (sym a) ∙ entries-drop k c.item_list;
      };
      gone = e;
      shorter = omega arith;
    }

forget_present : (k i : ℕ) (c : CsLru) → IsMatched c → find k c.item_map ≡ some i → Forgets k c
unfolding forget
forget_present k i c h e =
    let there : id_of k c.item_list ≡ some i = sym (h.agree k) ∙ e in
    let r = id_of-Pointed c.next_id k i c.item_list h.nodes there in
    let l = length-drop c.next_id k i c.item_list h.nodes there in
    record {
      after = record c { item_list = drop_key k c.item_list; item_map = erase k c.item_map };
      forgot = ground (arith, r.taken);
      becomes = record {
        matched = record {
          nodes = drop-AreNodes c.next_id k c.item_list h.nodes;
          names = erase-AreNames k c.item_map h.names;
          agree =
              λ j. ground (arith, find-erase k j c.item_map, id_of-drop k j c.item_list, h.agree j);
          sizes = omega (arith, length-erase k i c.item_map h.names e, l, h.sizes);
        };
        size_is = refl;
        entries_are = entries-drop k c.item_list;
      };
      gone = find-erase_self k c.item_map;
      shorter = omega (arith, l);
    }

pub forgets : (k : ℕ) (c : CsLru) → IsMatched c → Forgets k c
forgets k c h = elim (Option-cases (find k c.item_map)) [
  | inl e ↦ forget_absent k c h e
  | inr (i, e) ↦ forget_present k i c h e
]

pub push-Becomes :
    (k d n : ℕ) (es : List (ℕ × ℕ)) (c : CsLru)
    → Becomes n es c
    → find k c.item_map ≡ none
    → Becomes n ((k, d) ∷ es) (push_front k d c)
unfolding entries id_of
push-Becomes k d n es c h e = record {
  matched = record {
    nodes = ground (
      arith,
      fresh_id c.next_id c.item_list h.matched.nodes,
      later-AreNodes c.next_id c.item_list h.matched.nodes,
      h.matched.agree k,
    );
    names = insert-AreNames k c.next_id c.item_map h.matched.names e;
    agree = λ j.
        ground
          (arith, find-insert k j c.next_id c.item_map, h.matched.agree j, ==_iff j k, ==_iff k j);
    sizes = omega (arith, length-insert k c.next_id c.item_map e, h.matched.sizes);
  };
  size_is = h.size_is;
  entries_are = ground (arith, h.entries_are);
}

-- The store is no fuller than it may be.
pub record Cleans (k : ℕ) (c : CsLru) : Type 0 where
  pub after : CsLru
  pub cleaned : clean (suc (suc k)) c ≡ some after
  pub becomes : Becomes c.cache_size (trim c.cache_size (entries c.item_list)) after
  pub within : IsWithin 0 after

clean_room :
    (k : ℕ) (c : CsLru)
    → IsMatched c
    → (c.cache_size ≡ 0) ⊎ (length c.item_list ≤ c.cache_size)
    → Cleans k c
unfolding clean lru_full
clean_room k c h w = record {
  after = c;
  cleaned = ground (arith, h.sizes);
  becomes = record {
    matched = h;
    size_is = refl;
    entries_are =
        ground (arith, take_all c.cache_size (entries c.item_list), length-entries c.item_list);
  };
  within = ground arith;
}

clean_one :
    (k : ℕ) (c : CsLru) (r : Popped c.next_id c.item_list)
    → IsMatched c
    → 0 < c.cache_size
    → length c.item_list ≡ c.cache_size + 1
    → Cleans k c
unfolding clean lru_full
clean_one k c r h pos l =
    let y = r.last.key in
    let here = h.agree y ∙ r.present in
    let m = length-erase y r.last.id c.item_map h.names here in
    let full : ltb c.cache_size (length c.item_map) ≡ true = ground (arith, h.sizes) in
    let room : ltb c.cache_size (length (erase y c.item_map)) ≡ false =
      ground (arith, m, h.sizes) in
    let some_size : c.cache_size == 0 ≡ false = ground arith in
    record {
      after = record c { item_list = r.others; item_map = erase y c.item_map };
      cleaned = ground (arith, full, r.popped, room);
      becomes = record {
        matched = record {
          nodes = r.nodes;
          names = erase-AreNames y c.item_map h.names;
          agree = λ j.
              find-erase y j c.item_map
              ∙ ground
                  (arith, h.agree j, id_of-drop y j c.item_list, ap (λ xs. id_of j xs) r.dropped);
          sizes = omega (arith, m, h.sizes, r.shorter);
        };
        size_is = refl;
        entries_are = ground (arith, r.firsts, r.shorter);
      };
      within = inr (omega (arith, r.shorter));
    }

pop_some : (n : ℕ) (xs : List LruNode) → AreNodes n xs → 0 < length xs → Popped n xs
pop_some n [] h l = absurd (omega arith)
pop_some n (x ∷ xs) h l = pop_back-Popped n x xs h

pub cleans : (k : ℕ) (c : CsLru) → IsMatched c → IsWithin 1 c → Cleans k c
cleans k c h (inl z) = clean_room k c h (inl z)
cleans k c h (inr l) = elim (dec_lt c.cache_size (length c.item_list)) [
  | no g ↦ clean_room k c h (inr (omega arith))
  | yes over ↦ elim (dec_lt 0 c.cache_size) [
    | no z ↦ clean_room k c h (inl (omega arith))
    | yes pos ↦
        clean_one k c (pop_some c.next_id c.item_list h.nodes (omega arith)) h pos (omega arith)
  ]
]
