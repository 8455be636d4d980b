-- ===== src/Ndn/Store/Lru/Refine.antt =====
-- The least-recently-used store and the entries used last.
use aqua_sim_ng.Address.{address_key}
use aqua_sim_ng.Ndn.Store.Lru.{CsLru, add_lru_entry, clean, get_lru_entry, new_lru, push_front}
use aqua_sim_ng.Ndn.Store.Lru.Names.{length-insert}
use aqua_sim_ng.Ndn.Store.Lru.Nodes.{
  IsWithin, drop-AreNodes, drop_key, entries, entries-drop, find_absent, id_of, id_of-Pointed,
  id_of-drop, length-drop, without,
}
use aqua_sim_ng.Ndn.Store.Lru.Recent.{Becomes, cleans, forgets, push-Becomes, trim}
use aqua_sim_ng.Prelude.{
  List, Option, Option-cases, [], ap, ap₂, arith, inl, inr, length, none, refl, some, subst, suc,
  sym, ℕ, ◌+◌, ◌∙◌, ◌∷◌, ◌≡◌,
}
use aqua_sim_ng.Prelude.Map.{find}

-- A store between two calls, and its entries, the one used last first.
pub record IsRecent (n : ℕ) (es : List (ℕ × ℕ)) (c : CsLru) : Type 0 where
  pub becomes : Becomes n es c
  pub within : IsWithin 0 c

-- The entry of a name goes to the front.
abbrev pub touch : ℕ → List (ℕ × ℕ) → List (ℕ × ℕ)
touch k es = elim (find k es) [ none ↦ es | some d ↦ (k, d) ∷ without k es ]

add-IsRecent :
    (k d n : ℕ) (es : List (ℕ × ℕ)) (c : CsLru)
    → IsRecent n es c
    → (c' : CsLru) × (add_lru_entry k d c ≡ some c')
      × IsRecent n (trim n ((k, d) ∷ without k es)) c'
unfolding add_lru_entry
add-IsRecent k d n es c h =
    let f = forgets k c h.becomes.matched in
    let m = push_front k d f.after in
    let p = push-Becomes k d c.cache_size _ f.after f.becomes f.gone in
    let j = length f.after.item_map in
    let fuel : length m.item_map + 1 ≡ suc (suc j) =
      omega (arith, length-insert k f.after.next_id f.after.item_map f.gone) in
    let size : m.cache_size ≡ n = p.size_is ∙ h.becomes.size_is in
    let within : IsWithin 1 m = ground (arith, h.within, f.shorter, size, h.becomes.size_is) in
    let cl = cleans j m p.matched within in
    (
      cl.after,
      ground (arith, f.forgot, ap (λ i. clean i m) fuel, cl.cleaned),
      record {
        becomes = record {
          matched = cl.becomes.matched;
          size_is = cl.becomes.size_is ∙ size;
          entries_are =
              cl.becomes.entries_are
              ∙ ap₂ trim size
                  (p.entries_are ∙ ap (λ fs. (k, d) ∷ without k fs) h.becomes.entries_are);
        };
        within = cl.within;
      },
    )

-- A call of GetEntry returns the data of the name, which is then the entry used last.
record Gets (k n : ℕ) (es : List (ℕ × ℕ)) (c : CsLru) : Type 0 where
  pub after : CsLru
  pub got : get_lru_entry k c ≡ some (after, find k es)
  pub recent : IsRecent n (touch k es) after

get_absent :
    (k n : ℕ) (es : List (ℕ × ℕ)) (c : CsLru)
    → IsRecent n es c
    → find k c.item_map ≡ none
    → Gets k n es c
unfolding get_lru_entry
get_absent k n es c h e =
    let m = h.becomes in
    let a = find_absent k c.item_list (sym (m.matched.agree k) ∙ e) in
    let gone : find k es ≡ none = subst (λ fs. find k fs ≡ none) m.entries_are a in
    record {
      after = c;
      got = ground (arith, gone);
      recent = subst (λ fs. IsRecent n fs c) (ground (arith, gone)) h;
    }

get_present :
    (k i n : ℕ) (es : List (ℕ × ℕ)) (c : CsLru)
    → IsRecent n es c
    → find k c.item_map ≡ some i
    → Gets k n es c
unfolding get_lru_entry id_of entries
get_present k i n es c h e =
    let m = h.becomes in
    let there : id_of k c.item_list ≡ some i = sym (m.matched.agree k) ∙ e in
    let r = id_of-Pointed c.next_id k i c.item_list m.matched.nodes there in
    let l = length-drop c.next_id k i c.item_list m.matched.nodes there in
    let x = r.node in
    let d : find k es ≡ some x.data' =
      subst (λ fs. find k fs ≡ some x.data') m.entries_are r.data_is in
    record {
      after = record c { item_list = x ∷ drop_key k c.item_list };
      got = ground (arith, r.taken, d);
      recent = record {
        becomes = record {
          matched = record {
            nodes = ground (
              arith,
              r.key_is,
              r.id_is,
              r.below,
              r.alone,
              id_of-drop k k c.item_list,
              drop-AreNodes c.next_id k c.item_list m.matched.nodes,
            );
            names = m.matched.names;
            agree = λ j. ground (
              arith,
              r.key_is,
              r.id_is,
              id_of-drop k j c.item_list,
              m.matched.agree j,
              m.matched.agree k,
              there,
            );
            sizes = omega (arith, m.matched.sizes, l);
          };
          size_is = m.size_is;
          entries_are = ground (
            arith,
            r.key_is,
            d,
            entries-drop k c.item_list,
            ap (λ fs. without k fs) m.entries_are,
          );
        };
        within = ground (arith, h.within, l);
      };
    }

gets : (k n : ℕ) (es : List (ℕ × ℕ)) (c : CsLru) → IsRecent n es c → Gets k n es c
gets k n es c h = elim (Option-cases (find k c.item_map)) [
  | inl e ↦ get_absent k n es c h e
  | inr (i, e) ↦ get_present k i n es c h e
]

-- The calls of a store, and the answers of `GetEntry`.
pub data StoreCall : Type 0 where
  add_call : ℕ → ℕ → StoreCall
  get_call : ℕ → StoreCall

unfoldable pub lru_run : List StoreCall → CsLru → Option (List (Option ℕ))
lru_run [] c = some []
lru_run (add_call k d ∷ calls) c = elim (add_lru_entry k d c) [
  | none ↦ none
  | some c' ↦ lru_run calls c'
]
lru_run (get_call k ∷ calls) c = elim (get_lru_entry k c) [
  | none ↦ none
  | some (c', d) ↦ elim (lru_run calls c') [ none ↦ none | some ds ↦ some (d ∷ ds) ]
]

-- The same calls of a plain list of entries, the one used last first.
unfoldable pub recent_run : ℕ → List StoreCall → List (ℕ × ℕ) → List (Option ℕ)
recent_run n [] es = []
recent_run n (add_call k d ∷ calls) es = recent_run n calls (trim n ((k, d) ∷ without k es))
recent_run n (get_call k ∷ calls) es = find k es ∷ recent_run n calls (touch k es)

run_from :
    (n : ℕ) (calls : List StoreCall) (es : List (ℕ × ℕ)) (c : CsLru)
    → IsRecent n es c
    → lru_run calls c ≡ some (recent_run n calls es)
unfolding lru_run recent_run
run_from n [] es c h = refl
run_from n (add_call k d ∷ calls) es c h =
    let (c', added, h') = add-IsRecent k d n es c h in
    ground (arith, added, run_from n calls _ c' h')
run_from n (get_call k ∷ calls) es c h =
    let r = gets k n es c h in ground (arith, r.got, run_from n calls (touch k es) r.after r.recent)

-- Any calls of AddEntry and GetEntry on a new store of some size, 0 for no limit, end, follow no iterator
-- that is not valid, and answer as a plain list does that holds the entries used last, one for each
-- name, as many as there is room for.
pub lru_run-recent_run :
    (n : ℕ) (calls : List StoreCall) → lru_run calls (new_lru n) ≡ some (recent_run n calls [])
unfolding find id_of entries
lru_run-recent_run n calls = run_from n calls [] (new_lru n) (record {
  becomes = record {
    matched = record { nodes = tt; names = tt; agree = λ k. refl; sizes = refl };
    size_is = refl;
    entries_are = refl;
  };
  within = inr (omega arith);
})
