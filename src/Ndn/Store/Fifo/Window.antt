-- ===== src/Ndn/Store/Fifo/Window.antt =====
-- What the first-in, first-out store holds after any entries.
use mathlib.Core.List.{append-nil, append_assoc}
use aqua_sim_ng.Ndn.Store.Fifo.{
  CsFifo, add_fifo_entry, fifo_full, find_entry, get_fifo_entry, new_fifo, remove_fifo_entry,
}
use aqua_sim_ng.Prelude.{
  ==_iff, All, List, Option, [], ap, arith, dec_lt, drop, false, if◌then◌else◌, inl, inr, length,
  length-append, none, refl, some, subst, sym, true, ℕ, ◌++◌, ◌+◌, ◌-◌, ◌<◌, ◌==◌, ◌∙◌, ◌∷◌, ◌≡◌,
  ◌≢◌, ◌≤◌, ◌⊎◌,
}
use aqua_sim_ng.Prelude.Cases.{if_cases}

-- `AddEntry` of each entry in turn.
abbrev pub add_all : List (ℕ × ℕ) → CsFifo → CsFifo
add_all [] c = c
add_all ((k, d) ∷ es) c = add_all es (add_fifo_entry k d c)

-- The last `n` entries.
abbrev pub last_entries : ℕ → List (ℕ × ℕ) → List (ℕ × ℕ)
last_entries n es = drop (length es - n) es

-- What a store of size `n` holds of all the entries so far; 0 is no limit.
abbrev pub window : ℕ → List (ℕ × ℕ) → List (ℕ × ℕ)
window n es = if n == 0 then es else last_entries n es

drop_snoc :
    (k : ℕ) (es : List (ℕ × ℕ)) (x : ℕ × ℕ)
    → k ≤ length es
    → drop k (es ++ x ∷ []) ≡ drop k es ++ x ∷ []
drop_snoc k [] x h = ground arith
drop_snoc k (e ∷ es) x h = ground (arith, drop_snoc (k - 1) es x)

length-drop : (k : ℕ) (es : List (ℕ × ℕ)) → length (drop k es) ≡ length es - k
length-drop k [] = omega arith
length-drop k (e ∷ es) = ground (arith, length-drop (k - 1) es)

drop_zero : (es : List (ℕ × ℕ)) → drop 0 es ≡ es
drop_zero [] = refl
drop_zero (e ∷ es) = refl

drop_one : (k : ℕ) (es : List (ℕ × ℕ)) → drop 1 (drop k es) ≡ drop (k + 1) es
drop_one k [] = refl
drop_one k (e ∷ es) = ground (arith, drop_one (k - 1) es, drop_zero es)

-- One more entry for a store that is full, and for one that is not.
add_full :
    (key data' : ℕ) (c : CsFifo)
    → fifo_full c ≡ true
    → 0 < length c.cache
    → (add_fifo_entry key data' c).cache ≡ drop 1 c.cache ++ (key, data') ∷ []
unfolding add_fifo_entry remove_fifo_entry
add_full key data' c h l = rw h (grind (arith, drop_zero))

add_room :
    (key data' : ℕ) (c : CsFifo)
    → fifo_full c ≡ false
    → (add_fifo_entry key data' c).cache ≡ c.cache ++ (key, data') ∷ []
unfolding add_fifo_entry
add_room key data' c h = rw h refl

keeps_size : (key data' : ℕ) (c : CsFifo) → (add_fifo_entry key data' c).cache_size ≡ c.cache_size
unfolding add_fifo_entry remove_fifo_entry
keeps_size key data' c = ground arith

window_full :
    (n : ℕ) (h : List (ℕ × ℕ)) (x : ℕ × ℕ)
    → 0 < n
    → n ≤ length h
    → window n (h ++ x ∷ []) ≡ drop 1 (window n h) ++ x ∷ []
window_full n h x pos le =
    let k = length h - n in
    let e : length h + 1 - n ≡ k + 1 = omega arith in
    ground (arith, length-append h (x ∷ []), drop_snoc (k + 1) h x, drop_one k h, e)

window_room :
    (n : ℕ) (h : List (ℕ × ℕ)) (x : ℕ × ℕ)
    → (n ≡ 0) ⊎ (length h < n)
    → window n (h ++ x ∷ []) ≡ window n h ++ x ∷ []
window_room n h x s =
    let a : length h < n → length h + 1 - n ≡ 0 = λ l. omega arith in
    let b : length h < n → length h - n ≡ 0 = λ l. omega arith in
    ground (arith, length-append h (x ∷ []), drop_zero h, drop_zero (h ++ x ∷ []), a, b, s)

-- How full the window is.
length-window : (n : ℕ) (h : List (ℕ × ℕ)) → 0 < n → n ≤ length h → length (window n h) ≡ n
length-window n h pos le = ground (arith, length-drop (length h - n) h)

short-window : (n : ℕ) (h : List (ℕ × ℕ)) → length h < n → length (window n h) ≡ length h
short-window n h lt = ground (arith, length-drop (length h - n) h)

module _ (key data' : ℕ) (h : List (ℕ × ℕ)) (c : CsFifo) (e : c.cache ≡ window c.cache_size h) where
  abbrev Extended : Type 0
  Extended = (add_fifo_entry key data' c).cache ≡ window c.cache_size (h ++ (key, data') ∷ [])

  while_room : (c.cache_size ≡ 0) ⊎ (length h < c.cache_size) → Extended
  unfolding fifo_full
  while_room s =
      let n = c.cache_size in
      let room : fifo_full c ≡ false = elim s [
        | inl z ↦ ground arith
        | inr l ↦ ground (arith, short-window n h l, ap (λ (es : List (ℕ × ℕ)). length es) e)
      ] in
      add_room key data' c room
      ∙ ap (λ es. es ++ (key, data') ∷ []) e
      ∙ sym (window_room n h (key, data') s)

  once_full : 0 < c.cache_size → c.cache_size ≤ length h → Extended
  unfolding fifo_full
  once_full pos le =
      let n = c.cache_size in
      let l : length c.cache ≡ n =
        ap (λ (es : List (ℕ × ℕ)). length es) e ∙ length-window n h pos le in
      add_full key data' c (ground (arith, l)) (omega (arith, l))
      ∙ ap (λ es. drop 1 es ++ (key, data') ∷ []) e
      ∙ sym (window_full n h (key, data') pos le)

  add-window : Extended
  add-window =
      let n = c.cache_size in
      elim (dec_lt 0 n) [
        | no z ↦ while_room (inl (omega arith))
        | yes pos ↦ elim (dec_lt (length h) n) [
          | yes l ↦ while_room (inr l)
          | no g ↦ once_full pos (omega arith)
        ]
      ]

adds-window :
    (n : ℕ) (es h : List (ℕ × ℕ)) (c : CsFifo)
    → c.cache_size ≡ n
    → c.cache ≡ window n h
    → (add_all es c).cache ≡ window n (h ++ es)
adds-window n [] h c z e = e ∙ ap (λ es. window n es) (sym (append-nil h))
adds-window n ((k, d) ∷ es) h c z e =
    let first = add-window k d h c (rw z e) in
    adds-window n es (h ++ (k, d) ∷ []) (add_fifo_entry k d c) (keeps_size k d c ∙ z)
      (ground (arith, first, z))
    ∙ ap (λ fs. window n fs) (append_assoc h ((k, d) ∷ []) es)

-- An entry of the name, and none before it.
pub record IsOldest (key d : ℕ) (es : List (ℕ × ℕ)) : Type 0 where
  pub before : List (ℕ × ℕ)
  pub after : List (ℕ × ℕ)
  pub parts : es ≡ before ++ (key, d) ∷ after
  pub others : All (λ e. e.0 ≢ key) before

-- What an answer says of the entries: that none has the name, or the data of the oldest that has it.
abbrev pub IsAnswer : ℕ → List (ℕ × ℕ) → Option ℕ → Type 0
IsAnswer key es none = All (λ e. e.0 ≢ key) es
IsAnswer key es (some d) = IsOldest key d es

one_more :
    (key k d : ℕ) (es : List (ℕ × ℕ)) (o : Option ℕ)
    → k ≢ key
    → IsAnswer key es o
    → IsAnswer key ((k, d) ∷ es) o
one_more key k d es none h a = (h, a)
one_more key k d es (some x) h a = record {
  before = (k, d) ∷ a.before;
  after = a.after;
  parts = ap (λ fs. (k, d) ∷ fs) a.parts;
  others = (h, a.others);
}

-- The loop of GetEntry.
find_entry-IsAnswer : (key : ℕ) (es : List (ℕ × ℕ)) → IsAnswer key es (find_entry key es)
unfolding find_entry
find_entry-IsAnswer key [] = tt
find_entry-IsAnswer key ((k, d) ∷ es) =
    if_cases (λ o. IsAnswer key ((k, d) ∷ es) o) (k == key) (some d) (find_entry key es)
      (λ e. record {
        before = [];
        after = es;
        parts = ap (λ i. (i, d) ∷ es) ((==_iff k key).0 e);
        others = tt;
      })
      (λ e.
        one_more key k d es (find_entry key es) (ground (arith, e)) (find_entry-IsAnswer key es))

-- A first-in, first-out store of some size, 0 for no limit, holds the last entries added, as many as it has
-- room for, oldest first. It answers for a name with the data of the first of these that has the name,
-- the oldest, and with nothing where none of them has it.
pub get-window :
    (size : ℕ) (es : List (ℕ × ℕ)) (key : ℕ)
    → ((add_all es (new_fifo size)).cache ≡ window size es)
      × IsAnswer key (window size es) (get_fifo_entry key (add_all es (new_fifo size)))
unfolding get_fifo_entry find_entry
get-window size es key =
    let e = adds-window size es [] (new_fifo size) refl (ground arith) in
    let found : get_fifo_entry key (add_all es (new_fifo size)) ≡ find_entry key (window size es) =
      ground (arith, e) in
    (
      e,
      subst (λ o. IsAnswer key (window size es) o) (sym found)
          (find_entry-IsAnswer key (window size es)),
    )
