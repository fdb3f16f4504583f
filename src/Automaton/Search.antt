-- ===== src/Automaton/Search.antt =====
-- The search: the current node is always that of the longest suffix of the text read, and the
-- matches are those of a scan of every suffix.
use censorhub.Prelude.{
  ℕ, zero, suc, ◌≤◌, ◌<◌, ◌≡◌, inl, inr, refl, sym, ap, ◌∙◌, none, some, List, [], ◌∷◌, ◌++◌, map,
  length, arith, Option-cases,
}
use censorhub.Text.{Text, Unicode}
use censorhub.Domain.{MatchItem}
use censorhub.Automaton.{
  WordMeta, WordEntry, Heap, child, fall_back, advance, match_at, search_from,
}
use censorhub.Automaton.Trie.{walk, walk_bound}
use censorhub.Automaton.Suffix.{
  ending, longest, longest-none, length-longest, longest-longest, ending-longest,
}
use censorhub.Automaton.Link.{IsStore, child_same, longest_next, longest_stuck, stored_none}
use censorhub.Automaton.Build.{IsComplete}
use censorhub.Automaton.Insert.{own}

-- The reference: at each rune of the text, the words that end there, the longest first.
unfoldable pub scan : (Text → List WordMeta) → ℕ → Text → Text → List MatchItem
unfolding ending match_at
scan stored i seen [] = []
scan stored i seen (r ∷ rs) =
    map (match_at i) (ending stored (seen ++ r ∷ [])) ++ scan stored (suc i) (seen ++ r ∷ []) rs

-- The matches of a list of words in a normalized text, without any automaton.
unfoldable pub occurrences : Unicode → List WordEntry → Text → List MatchItem
unfolding scan own
occurrences u es text = scan (own u es) 0 [] text

fall_back_root : (h : Heap) (k r : ℕ) → fall_back h (suc k) 0 r ≡ some 0
unfolding fall_back
fall_back_root h k r = refl

fall_back_found :
    (h : Heap) (k a r c : ℕ) → child r (h.children a) ≡ some c → fall_back h (suc k) a r ≡ some a
unfolding fall_back
fall_back_found h k zero r c e = refl
fall_back_found h k (suc a) r c e = rw (e, fall_back)

fall_back_on :
    (h : Heap) (k a r b : ℕ)
    → child r (h.children (suc a)) ≡ none
    → h.fail (suc a) ≡ some b
    → fall_back h (suc k) (suc a) r ≡ fall_back h k b r
unfolding fall_back
fall_back_on h k a r b e f = rw (e, fall_back) (rw f)

advance_found : (h : Heap) (a r c : ℕ) → child r (h.children a) ≡ some c → advance h a r ≡ c
unfolding advance
advance_found h a r c e = rw (e, advance)

advance_stuck : (h : Heap) (a r : ℕ) → child r (h.children a) ≡ none → advance h a r ≡ a
unfolding advance
advance_stuck h a r e = rw (e, advance)

module _ (h₀ : Heap) (stored : Text → List WordMeta) (store : IsStore h₀ stored) (h : Heap)
    (complete : IsComplete h₀ stored h) where
  record Falls (k a : ℕ) (t : Text) (r : ℕ) : Type 0 where
    node : ℕ
    falls : fall_back h k a r ≡ some node
    leads : walk h₀.children 0 (longest h₀.children (t ++ r ∷ [])) ≡ some (advance h node r)

  Falls-found :
      (k a r c : ℕ) (t : Text)
      → walk h₀.children 0 t ≡ some a
      → child r (h₀.children a) ≡ some c
      → Falls (suc k) a t r
  Falls-found k a r c t at e =
      let here : child r (h.children a) ≡ some c =
        child_same h₀ stored store h complete.same a r ∙ e in
      record {
        node = a;
        falls = fall_back_found h k a r c here;
        leads =
            longest_next h₀ stored store h complete.same t a r c at e
            ∙ ap some (sym (advance_found h a r c here));
      }

  Falls-root : (k r : ℕ) → child r (h₀.children 0) ≡ none → Falls (suc k) 0 [] r
  unfolding walk longest
  Falls-root k r e = record {
    node = 0;
    falls = fall_back_root h k r;
    leads =
        ap (walk h₀.children 0) (
          longest-none h₀.children r []
            (longest_stuck h₀ stored store h complete.same [] 0 r refl e))
        ∙ ap some (sym (advance_stuck h 0 r (child_same h₀ stored store h complete.same 0 r ∙ e)));
  }

  fall_back_lem :
      (k a : ℕ) (t : Text) (r : ℕ) → walk h₀.children 0 t ≡ some a → length t < k → Falls k a t r
  fall_back_lem zero a t r at fuel = absurd (omega arith)
  fall_back_lem (suc k) a [] r at fuel = elim (Option-cases (child r (h₀.children a))) [
    | inr (c, e) ↦ Falls-found k a r c [] at e
    | inl e ↦ let z : a ≡ 0 = unfold walk in ground (arith, at) in rw z (Falls-root k r (rw z at e))
  ]
  fall_back_lem (suc k) zero (y ∷ t) r at fuel =
      absurd (omega (arith, walk_bound h₀ store.tree 0 (y ∷ t) 0 store.tree.positive at))
  fall_back_lem (suc k) (suc a) (y ∷ t) r at fuel =
      elim (Option-cases (child r (h₀.children (suc a)))) [
        | inr (c, e) ↦ Falls-found k (suc a) r c (y ∷ t) at e
        | inl e ↦
            let here : child r (h.children (suc a)) ≡ none =
              child_same h₀ stored store h complete.same (suc a) r ∙ e in
            let (b, f, at_b) = (complete.links (y ∷ t) (suc a) at).fails in
            let short : length (longest h₀.children t) ≤ length t = length-longest h₀.children t in
            let up = fall_back_lem k b (longest h₀.children t) r at_b (omega arith) in
            record {
              node = up.node;
              falls = fall_back_on h k a r b here f ∙ up.falls;
              leads =
                  ap (walk h₀.children 0) (
                    longest-none h₀.children y (t ++ r ∷ [])
                      (longest_stuck h₀ stored store h complete.same (y ∷ t) (suc a) r at e)
                    ∙ longest-longest h₀.children t r)
                  ∙ up.leads;
            }
      ]

  -- From the node of the text read, the search gives what the scan gives.
  pub search_from-scan :
      (rs : Text) (i curr : ℕ) (seen : Text)
      → walk h₀.children 0 (longest h₀.children seen) ≡ some curr
      → search_from h i curr rs ≡ some (scan stored i seen rs)
  unfolding search_from scan
  search_from-scan [] i curr seen at = refl
  search_from-scan (r ∷ rs) i curr seen at =
      let room =
        walk_bound h₀ store.tree 0 (longest h₀.children seen) curr store.tree.positive at in
      let step =
        fall_back_lem h.next curr (longest h₀.children seen) r at
          (omega (arith, complete.same.next)) in
      let leads : walk h₀.children 0 (longest h₀.children (seen ++ r ∷ []))
          ≡ some (advance h step.node r) =
        ap (walk h₀.children 0) (longest-longest h₀.children seen r) ∙ step.leads in
      let out : h.output (advance h step.node r) ≡ ending stored (seen ++ r ∷ []) =
        (complete.links (longest h₀.children (seen ++ r ∷ [])) (advance h step.node r) leads).output
        ∙ ending-longest h₀.children stored (stored_none h₀ stored store h complete.same)
            (seen ++ r ∷ []) in
      rw step.falls
        (rw (search_from-scan rs (suc i) (advance h step.node r) (seen ++ r ∷ []) leads, out))
