-- ===== src/Ndn/Store/Lru/Names.antt =====
-- The map of names when a name comes or goes, and the list when its last node goes.
use aqua_sim_ng.Address.{address_key}
use aqua_sim_ng.Ndn.Store.Lru.{LruNode, pop_back}
use aqua_sim_ng.Ndn.Store.Lru.Nodes.{
  AreNames, AreNodes, drop_key, entries, has_id, has_id-drop, id_of, id_of-drop,
}
use aqua_sim_ng.Prelude.{
  ==_iff, Bool-cases, List, [], ap, arith, false, inl, inr, length, none, refl, some, subst, take,
  ℕ, ◌+◌, ◌==◌, ◌∙◌, ◌∷◌, ◌≡◌,
}
use aqua_sim_ng.Prelude.Map.{Map, erase, find, find-erase, find-insert, insert}

pub erase-AreNames : (k : ℕ) (m : Map ℕ ℕ) → AreNames m → AreNames (erase k m)
unfolding erase
erase-AreNames k [] h = tt
erase-AreNames k ((j, i) ∷ m) h = grind (arith, erase-AreNames k m h.1, find-erase k j m)

erase_absent : (k : ℕ) (m : Map ℕ ℕ) → find k m ≡ none → erase k m ≡ m
unfolding erase find
erase_absent k [] h = refl
erase_absent k ((j, i) ∷ m) h = ground (arith, erase_absent k m)

pub length-erase :
    (k i : ℕ) (m : Map ℕ ℕ) → AreNames m → find k m ≡ some i → length m ≡ length (erase k m) + 1
unfolding erase find
length-erase k i [] h e = ground arith
length-erase k i ((j, l) ∷ m) h e = ground (arith, length-erase k i m h.1, erase_absent k m)

pub length-insert : (k i : ℕ) (m : Map ℕ ℕ) → find k m ≡ none → length (insert k i m) ≡ length m + 1
unfolding insert find
length-insert k i [] h = refl
length-insert k i ((j, l) ∷ m) h = ground (arith, length-insert k i m)

pub insert-AreNames :
    (k i : ℕ) (m : Map ℕ ℕ) → AreNames m → find k m ≡ none → AreNames (insert k i m)
unfolding insert find
insert-AreNames k i [] h e = (refl, tt)
insert-AreNames k i ((j, l) ∷ m) h e = grind (arith, insert-AreNames k i m h.1, find-insert k j i m)

-- The last node.
pub record Popped (n : ℕ) (xs : List LruNode) : Type 0 where
  pub last : LruNode
  pub others : List LruNode
  pub popped : pop_back xs ≡ some (last, others)
  pub nodes : AreNodes n others
  pub dropped : drop_key last.key xs ≡ others
  pub present : id_of last.key xs ≡ some last.id
  pub shorter : length xs ≡ length others + 1
  pub firsts : take (length others) (entries xs) ≡ entries others

pub pop_back-Popped :
    (n : ℕ) (x : LruNode) (xs : List LruNode) → AreNodes n (x ∷ xs) → Popped n (x ∷ xs)
unfolding pop_back drop_key id_of entries
pop_back-Popped n x [] h = record {
  last = x;
  others = [];
  popped = refl;
  nodes = tt;
  dropped = ground arith;
  present = ground arith;
  shorter = refl;
  firsts = refl;
}
pop_back-Popped n x (y ∷ ys) h =
    let r = pop_back-Popped n y ys h.3 in
    let ne : r.last.key == x.key ≡ false = elim (Bool-cases (r.last.key == x.key)) [
      | inl e ↦ absurd (
          ground
            (arith, r.present, h.2, ap (λ k. id_of k (y ∷ ys)) ((==_iff r.last.key x.key).0 e)))
      | inr e ↦ e
    ] in
    let alone : has_id x.id r.others ≡ false =
      subst (λ zs. has_id x.id zs ≡ false) r.dropped (has_id-drop r.last.key x.id (y ∷ ys) h.1) in
    let named : id_of x.key r.others ≡ none =
      subst (λ zs. id_of x.key zs ≡ none) r.dropped
        (id_of-drop r.last.key x.key (y ∷ ys) ∙ ground (arith, h.2)) in
    record {
      last = r.last;
      others = x ∷ r.others;
      popped = ground (arith, r.popped);
      nodes = (h.0, alone, named, r.nodes);
      dropped = ground (arith, r.dropped, ne);
      present = ground (arith, r.present, ne);
      shorter = ground (arith, r.shorter);
      firsts = ground (arith, r.firsts);
    }
