-- ===== src/Ndn/Store/Fifo.antt =====
-- model/ndn/cs-fifo.h and .cc, class CSFifo.
pub mod Window
use aqua_sim_ng.Prelude.{
  Bool, List, Option, [], false, if◌then◌else◌, is_empty, leb, length, none, some, true, ℕ, ◌++◌,
  ◌==◌, ◌∷◌,
}

-- `m_cache`, the oldest entry first.
pub record CsFifo : Type 0 where
  pub cache_size : ℕ
  pub cache : List (ℕ × ℕ)

abbrev pub new_fifo : ℕ → CsFifo
new_fifo size = record { cache_size = size; cache = [] }

-- `CacheFull`
unfoldable pub fifo_full : CsFifo → Bool
fifo_full c = if c.cache_size == 0 then false else leb c.cache_size (length c.cache)

-- `RemoveEntry`
unfoldable pub remove_fifo_entry : CsFifo → CsFifo × Bool
remove_fifo_entry c = elim c.cache [ [] ↦ (c, false) | e ∷ es ↦ (record c { cache = es }, true) ]

abbrev push_back : ℕ → ℕ → CsFifo → CsFifo
push_back key data' c = record c { cache = c.cache ++ (key, data') ∷ [] }

-- `AddEntry`
unfoldable pub add_fifo_entry : ℕ → ℕ → CsFifo → CsFifo
unfolding fifo_full remove_fifo_entry
add_fifo_entry key data' c =
    let (c', removed) = remove_fifo_entry c in
    if fifo_full c then (if removed then push_back key data' c' else c') else push_back key data' c

-- The loop of `GetEntry`.
unfoldable pub find_entry : ℕ → List (ℕ × ℕ) → Option ℕ
find_entry key [] = none
find_entry key ((k, d) ∷ es) = if k == key then some d else find_entry key es

-- `GetEntry`: the null pointer is none.
unfoldable pub get_fifo_entry : ℕ → CsFifo → Option ℕ
unfolding find_entry
get_fifo_entry key c = if is_empty c.cache then none else find_entry key c.cache
