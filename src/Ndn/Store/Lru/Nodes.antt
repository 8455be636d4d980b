-- ===== src/Ndn/Store/Lru/Nodes.antt =====
-- The nodes of the list and the names of the map.
use aqua_sim_ng.Address.{address_key}
use aqua_sim_ng.Ndn.Store.Lru.{CsLru, LruNode, take_node}
use aqua_sim_ng.Prelude.{
  Bool, Bool-cases, List, Option, [], arith, false, if◌then◌else◌, inl, inr, length, none, refl,
  some, true, ℕ, ◌+◌, ◌<◌, ◌==◌, ◌||◌, ◌∷◌, ◌≡◌, ◌≤◌, ◌⊎◌,
}
use aqua_sim_ng.Prelude.Map.{Map, find}

-- The node of a name.
unfoldable pub id_of : ℕ → List LruNode → Option ℕ
id_of k [] = none
id_of k (x ∷ xs) = if k == x.key then some x.id else id_of k xs

abbrev pub has_id : ℕ → List LruNode → Bool
has_id i [] = false
has_id i (x ∷ xs) = i == x.id || has_id i xs

-- The entries, most recent first.
unfoldable pub entries : List LruNode → List (ℕ × ℕ)
entries [] = []
entries (x ∷ xs) = (x.key, x.data') ∷ entries xs

-- The entries but that of a name.
unfoldable pub without : ℕ → List (ℕ × ℕ) → List (ℕ × ℕ)
without k [] = []
without k ((j, d) ∷ es) = if k == j then without k es else (j, d) ∷ without k es

-- No two nodes have one number or one name, and no number is still to come.
abbrev pub AreNodes : ℕ → List LruNode → Type 0
AreNodes n [] = Unit
AreNodes n (x ∷ xs) =
    (x.id < n) × (has_id x.id xs ≡ false) × (id_of x.key xs ≡ none) × AreNodes n xs

-- No name stands in the map twice.
abbrev pub AreNames : Map ℕ ℕ → Type 0
AreNames [] = Unit
AreNames ((k, i) ∷ m) = (find k m ≡ none) × AreNames m

-- The nodes but that of a name.
unfoldable pub drop_key : ℕ → List LruNode → List LruNode
drop_key k [] = []
drop_key k (x ∷ xs) = if k == x.key then drop_key k xs else x ∷ drop_key k xs

has_id_of : (k i : ℕ) (xs : List LruNode) → id_of k xs ≡ some i → has_id i xs ≡ true
unfolding id_of
has_id_of k i [] e = ground arith
has_id_of k i (x ∷ xs) e = ground (arith, has_id_of k i xs)

pub drop_absent : (k : ℕ) (xs : List LruNode) → id_of k xs ≡ none → drop_key k xs ≡ xs
unfolding id_of drop_key
drop_absent k [] e = refl
drop_absent k (x ∷ xs) e = ground (arith, drop_absent k xs)

pub id_of-drop :
    (k j : ℕ) (xs : List LruNode) → id_of j (drop_key k xs) ≡ (if k == j then none else id_of j xs)
unfolding id_of drop_key
id_of-drop k j [] = ground arith
id_of-drop k j (x ∷ xs) = ground (arith, id_of-drop k j xs)

pub has_id-drop :
    (k i : ℕ) (xs : List LruNode) → has_id i xs ≡ false → has_id i (drop_key k xs) ≡ false
unfolding drop_key
has_id-drop k i [] e = refl
has_id-drop k i (x ∷ xs) e = ground (arith, has_id-drop k i xs)

pub drop-AreNodes : (n k : ℕ) (xs : List LruNode) → AreNodes n xs → AreNodes n (drop_key k xs)
unfolding drop_key
drop-AreNodes n k [] h = tt
drop-AreNodes n k (x ∷ xs) h =
    ground (arith, drop-AreNodes n k xs h.3, has_id-drop k x.id xs h.1, id_of-drop k x.key xs)

pub length-drop :
    (n k i : ℕ) (xs : List LruNode)
    → AreNodes n xs
    → id_of k xs ≡ some i
    → length xs ≡ length (drop_key k xs) + 1
unfolding id_of drop_key
length-drop n k i [] h e = ground arith
length-drop n k i (x ∷ xs) h e = ground (arith, length-drop n k i xs h.3, drop_absent k xs)

pub entries-drop : (k : ℕ) (xs : List LruNode) → entries (drop_key k xs) ≡ without k (entries xs)
unfolding drop_key entries without
entries-drop k [] = refl
entries-drop k (x ∷ xs) = ground (arith, entries-drop k xs)

-- What an iterator of the map points to.
pub record Pointed (n k i : ℕ) (xs : List LruNode) : Type 0 where
  pub node : LruNode
  pub taken : take_node i xs ≡ some (node, drop_key k xs)
  pub key_is : node.key ≡ k
  pub id_is : node.id ≡ i
  pub below : i < n
  pub alone : has_id i (drop_key k xs) ≡ false
  pub data_is : find k (entries xs) ≡ some node.data'

pub id_of-Pointed :
    (n k i : ℕ) (xs : List LruNode) → AreNodes n xs → id_of k xs ≡ some i → Pointed n k i xs
unfolding id_of drop_key take_node entries find
id_of-Pointed n k i [] h e = absurd (ground arith)
id_of-Pointed n k i (x ∷ xs) h e = elim (Bool-cases (k == x.key)) [
  | inl a ↦ record {
    node = x;
    taken = ground (arith, drop_absent k xs);
    key_is = ground arith;
    id_is = ground arith;
    below = ground arith;
    alone = ground (arith, drop_absent k xs);
    data_is = ground arith;
  }
  | inr a ↦
      let later : id_of k xs ≡ some i = ground arith in
      let r = id_of-Pointed n k i xs h.3 later in
      let other = has_id_of k i xs later in
      record {
        node = r.node;
        taken = ground (arith, r.taken, other);
        key_is = r.key_is;
        id_is = r.id_is;
        below = r.below;
        alone = ground (arith, r.alone, other);
        data_is = ground (arith, r.data_is);
      }
]

-- The map and the list are about the same names.
pub record IsMatched (c : CsLru) : Type 0 where
  pub nodes : AreNodes c.next_id c.item_list
  pub names : AreNames c.item_map
  pub agree : (k : ℕ) → find k c.item_map ≡ id_of k c.item_list
  pub sizes : length c.item_map ≡ length c.item_list

-- The store has a limit that it keeps, or none.
abbrev pub IsWithin : ℕ → CsLru → Type 0
IsWithin extra c = (c.cache_size ≡ 0) ⊎ (length c.item_list ≤ c.cache_size + extra)

pub length-entries : (xs : List LruNode) → length (entries xs) ≡ length xs
unfolding entries
length-entries [] = refl
length-entries (x ∷ xs) = ground (arith, length-entries xs)

pub later-AreNodes : (n : ℕ) (xs : List LruNode) → AreNodes n xs → AreNodes (n + 1) xs
later-AreNodes n [] h = tt
later-AreNodes n (x ∷ xs) h = ground (arith, later-AreNodes n xs h.3)

pub fresh_id : (n : ℕ) (xs : List LruNode) → AreNodes n xs → has_id n xs ≡ false
fresh_id n xs h = fresh_above n n xs h (omega arith)
  where
    fresh_above : (n i : ℕ) (xs : List LruNode) → AreNodes n xs → n ≤ i → has_id i xs ≡ false
    fresh_above n i [] h l = refl
    fresh_above n i (x ∷ xs) h l = ground (arith, fresh_above n i xs h.3 l)

pub find_absent : (k : ℕ) (xs : List LruNode) → id_of k xs ≡ none → find k (entries xs) ≡ none
unfolding id_of entries find
find_absent k [] e = refl
find_absent k (x ∷ xs) e = ground (arith, find_absent k xs)
