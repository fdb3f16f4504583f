-- ===== src/Automaton/Correct.antt =====
-- The automaton built from a list of words finds what a scan of the text for them finds.
use mathlib.Core.List.{foldl}
use censorhub.Prelude.{
  ℕ, suc, ◌≡◌, inl, inr, refl, some, List, [], ◌∷◌, ◌++◌, ◌==◌, is_empty, arith, Bool-cases,
}
use censorhub.Text.{Text, Unicode, normalize}
use censorhub.Automaton.{
  WordMeta, WordEntry, Edge, AhoCorasick, insert, empty_heap, search_normalized, new_aho_corasick,
}
use censorhub.Automaton.Trie.{walk}
use censorhub.Automaton.Suffix.{ending, longest}
use censorhub.Automaton.Link.{IsStore}
use censorhub.Automaton.Build.{build_fail_pointers_lem}
use censorhub.Automaton.Levels.{VisitsAll}
use censorhub.Automaton.Insert.{own, own-nil, count_words, stores, inserted-IsTrieOf}
use censorhub.Automaton.Search.{scan, occurrences, search_from-scan}

-- Where nothing is stored nothing is found.
scan_empty :
    (stored : Text → List WordMeta)
    → ((s : Text) → stored s ≡ [])
    → (i : ℕ) (seen rs : Text) → scan stored i seen rs ≡ []
unfolding scan
scan_empty stored none_stored i seen [] = refl
scan_empty stored none_stored i seen (r ∷ rs) =
    rw (nothing (seen ++ r ∷ [])) (scan_empty stored none_stored (suc i) (seen ++ r ∷ []) rs)
  where
    nothing : (s : Text) → ending stored s ≡ []
    nothing [] = refl
    nothing (x ∷ s) = rw (none_stored (x ∷ s)) (nothing s)

own_uncounted :
    (u : Unicode) (es : List WordEntry) → count_words u es ≡ 0 → (s : Text) → own u es s ≡ []
unfolding own count_words stores
own_uncounted u [] e s = refl
own_uncounted u (w ∷ es) e s = elim (Bool-cases (is_empty (normalize u w.text))) [
  | inl y ↦ rw y (own_uncounted u es (rw y at e) s)
  | inr n ↦ absurd (ground (arith, e))
]

module _ (order : ℕ → List Edge → List Edge) (visits_all : VisitsAll order) (u : Unicode)
    (words : List WordEntry) where
  inserted : AhoCorasick
  inserted = foldl (insert u) (record { heap = empty_heap; word_count = 0 }) words

  inserted-IsStore : IsStore inserted.heap (own u words)
  unfolding inserted
  inserted-IsStore =
      let trie = inserted-IsTrieOf u words in
      record { tree = trie.tree; reads = trie.stored; root = own-nil u words }

  -- For every order in which the runtime visits the children of the nodes, the construction
  -- succeeds: no nil is dereferenced and no loop outruns its fuel. The automaton counts the words
  -- whose normalized text is not empty, and its search of any text succeeds and returns exactly
  -- the matches of the scan, in the same order.
  pub new_aho_corasick_lem :
      (ac : AhoCorasick) × (new_aho_corasick order u words ≡ some ac)
      × (ac.word_count ≡ count_words u words)
      × ((text : Text) → search_normalized ac text ≡ some (occurrences u words text))
  unfolding new_aho_corasick search_normalized occurrences inserted
  new_aho_corasick_lem =
      let (h, built, complete) =
        build_fail_pointers_lem order visits_all inserted.heap (own u words) inserted-IsStore in
      let counted = (inserted-IsTrieOf u words).counted in
      (
        record { heap = h; word_count = inserted.word_count },
        rw built,
        counted,
        λ text. elim (Bool-cases (inserted.word_count == 0)) [
          | inl y ↦ rw (
            y,
            scan_empty (own u words) (own_uncounted u words (ground (arith, counted))) 0 [] text,
          )
          | inr n ↦ rw n (
              search_from-scan inserted.heap (own u words) inserted-IsStore h complete text 0 0 []
                (unfold walk longest in refl))
        ],
      )
