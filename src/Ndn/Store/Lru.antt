-- ===== src/Ndn/Store/Lru.antt =====
-- model/ndn/cs-lru.h and .cc, class CSLru: a std::list, and a std::unordered_map from names to its
-- nodes.
pub mod Nodes
pub mod Names
pub mod Recent
pub mod Refine
use aqua_sim_ng.Address.{address_key}
use aqua_sim_ng.Prelude.{
  Bool, List, Option, [], false, if◌then◌else◌, length, ltb, none, some, suc, zero, ℕ, ◌+◌, ◌==◌,
  ◌∷◌,
}
use aqua_sim_ng.Prelude.Map.{Map, erase, find, insert}

-- A node of `item_list`. An iterator is the number of its node.
pub record LruNode : Type 0 where
  pub id : ℕ
  pub key : ℕ
  pub data' : ℕ

-- The nodes from front to back, and the number of the next one made.
pub record CsLru : Type 0 where
  pub cache_size : ℕ
  pub item_list : List LruNode
  pub item_map : Map ℕ ℕ
  pub next_id : ℕ

abbrev pub new_lru : ℕ → CsLru
new_lru size = record { cache_size = size; item_list = []; item_map = []; next_id = 0 }

-- `CacheFull`
unfoldable pub lru_full : CsLru → Bool
lru_full c = if c.cache_size == 0 then false else ltb c.cache_size (length c.item_map)

-- The node of an iterator and the others, or none where the iterator is not valid.
unfoldable pub take_node : ℕ → List LruNode → Option (LruNode × List LruNode)
take_node id [] = none
take_node id (x ∷ xs) =
    let r = take_node id xs in
    if id == x.id then some (x, xs) else elim r [ none ↦ none | some (y, ys) ↦ some (y, x ∷ ys) ]

-- The last node and the others, or none where the list is empty.
unfoldable pub pop_back : List LruNode → Option (LruNode × List LruNode)
pop_back [] = none
pop_back (x ∷ xs) = elim (pop_back xs) [ none ↦ some (x, []) | some (y, ys) ↦ some (y, x ∷ ys) ]

-- `Clean`, or none at the end of the fuel or of the list.
unfoldable pub clean : ℕ → CsLru → Option CsLru
unfolding lru_full pop_back
clean zero c = none
clean (suc k) c =
    let next : Option CsLru = elim (pop_back c.item_list) [
      | none ↦ none
      | some (y, ys) ↦ clean k (record c { item_map = erase y.key c.item_map; item_list = ys })
    ] in
    if lru_full c then next else some c

-- The first steps of `AddEntry`: an entry with the name goes.
unfoldable pub forget : ℕ → CsLru → Option CsLru
unfolding take_node
forget key c = elim (find key c.item_map) [
  | none ↦ some c
  | some id ↦ elim (take_node id c.item_list) [
    | none ↦ none
    | some (x, xs) ↦ some (record c { item_list = xs; item_map = erase key c.item_map })
  ]
]

-- `push_front`, and the name's iterator.
abbrev pub push_front : ℕ → ℕ → CsLru → CsLru
push_front key data' c = record c {
  item_list = record { id = c.next_id; key = key; data' = data' } ∷ c.item_list;
  item_map = insert key c.next_id c.item_map;
  next_id = c.next_id + 1;
}

-- `AddEntry`. The loop of Clean has as many rounds as the map has names, and one more.
unfoldable pub add_lru_entry : ℕ → ℕ → CsLru → Option CsLru
unfolding forget clean
add_lru_entry key data' c = elim (forget key c) [
  | none ↦ none
  | some c' ↦ let n = push_front key data' c' in clean (length n.item_map + 1) n
]

-- `GetEntry`: the data, or none for the null pointer, beside the store.
unfoldable pub get_lru_entry : ℕ → CsLru → Option (CsLru × Option ℕ)
unfolding take_node
get_lru_entry key c = elim (find key c.item_map) [
  | none ↦ some (c, none)
  | some id ↦ elim (take_node id c.item_list) [
    | none ↦ none
    | some (x, xs) ↦ some (record c { item_list = x ∷ xs }, some x.data')
  ]
]
