-- ===== src/Automaton/Suffix.antt =====
-- The longest suffix of a text that is a node, and the words that end with a text.
use censorhub.Prelude.{
  ℕ, ◌≤◌, ◌≡◌, inl, inr, refl, sym, ap, ◌∙◌, none, some, List, [], ◌∷◌, ◌++◌, length, arith,
  Option-cases,
}
use censorhub.Text.{Text}
use censorhub.Automaton.{WordMeta, Edge}
use censorhub.Automaton.Trie.{walk, walk-append}

-- The words stored for a text and for each of its suffixes, the longest first.
unfoldable pub ending : (Text → List WordMeta) → Text → List WordMeta
ending stored [] = []
ending stored (x ∷ s) = stored (x ∷ s) ++ ending stored s

module _ (kids : ℕ → List Edge) where
  unfoldable pub longest : Text → Text
  longest [] = []
  longest (x ∷ s) =
      let rest = longest s in elim (walk kids 0 (x ∷ s)) [ none ↦ rest | some a ↦ x ∷ s ]

  pub longest_node : (s : Text) (a : ℕ) → walk kids 0 s ≡ some a → longest s ≡ s
  unfolding longest
  longest_node [] a e = refl
  longest_node (x ∷ s) a e = rw (e, longest)

  pub longest-none : (x : ℕ) (s : Text) → walk kids 0 (x ∷ s) ≡ none → longest (x ∷ s) ≡ longest s
  unfolding longest
  longest-none x s e = rw (e, longest)

  pub length-longest : (s : Text) → length (longest s) ≤ length s
  unfolding longest
  length-longest [] = omega arith
  length-longest (x ∷ s) = elim (Option-cases (walk kids 0 (x ∷ s))) [
    | inl e ↦ rw (longest-none x s e) (omega (arith, length-longest s))
    | inr (a, e) ↦ rw (longest_node (x ∷ s) a e) (omega arith)
  ]

  pub walk-longest : (s : Text) → (a : ℕ) × (walk kids 0 (longest s) ≡ some a)
  unfolding walk
  walk-longest [] = (0, unfold longest in refl)
  walk-longest (x ∷ s) = elim (Option-cases (walk kids 0 (x ∷ s))) [
    | inl e ↦ rw (longest-none x s e) (walk-longest s)
    | inr (a, e) ↦ (a, ap (walk kids 0) (longest_node (x ∷ s) a e) ∙ e)
  ]

  -- A text that is no node has no node beyond it.
  pub walk_stops : (s t : Text) → walk kids 0 s ≡ none → walk kids 0 (s ++ t) ≡ none
  walk_stops s t e = rw (walk-append kids 0 s t, e)

  -- Only the longest suffix matters for the next rune.
  pub longest-longest : (s : Text) (r : ℕ) → longest (s ++ r ∷ []) ≡ longest (longest s ++ r ∷ [])
  longest-longest [] r = unfold longest in refl
  longest-longest (x ∷ s) r = elim (Option-cases (walk kids 0 (x ∷ s))) [
    | inl e ↦
        longest-none x (s ++ r ∷ []) (walk_stops (x ∷ s) (r ∷ []) e)
        ∙ longest-longest s r
        ∙ ap (λ (t : Text). longest (t ++ r ∷ [])) (sym (longest-none x s e))
    | inr (a, e) ↦ ap (λ (t : Text). longest (t ++ r ∷ [])) (sym (longest_node (x ∷ s) a e))
  ]

  -- The suffixes that are no node store nothing.
  pub ending-longest :
      (stored : Text → List WordMeta)
      → ((s : Text) → walk kids 0 s ≡ none → stored s ≡ [])
      → (s : Text) → ending stored (longest s) ≡ ending stored s
  unfolding ending
  ending-longest stored absent [] = unfold longest in refl
  ending-longest stored absent (x ∷ s) = elim (Option-cases (walk kids 0 (x ∷ s))) [
    | inl e ↦ rw (longest-none x s e, absent (x ∷ s) e) (ending-longest stored absent s)
    | inr (a, e) ↦ ap (ending stored) (longest_node (x ∷ s) a e)
  ]
