-- ===== src/Strategy/Sort.antt =====
-- `sort.Slice(sorted, …)` by the position of the matches, and the places that matches cover.
use mathlib.Core.List.{Mem, Perm, mem-cons, not-mem-nil, mem-cons_self, mem-cons_of_mem}
use mathlib.Core.List.Perm
use mathlib.Core.Logic.Or
use censorhub.Prelude.{
  ℕ, ◌≤◌, ◌≡◌, inl, inr, sym, ◌∙◌, Bool, true, false, ◌&&◌, ◌||◌, List, [], ◌∷◌, leb, ltb, arith,
  Bool-cases,
}
use censorhub.Domain.{MatchItem}

-- The positions do not fall, from a given one on.
abbrev pub Above : ℕ → List MatchItem → Type 0
Above p [] = Unit
Above p (m ∷ ms) = (p ≤ m.position) × Above m.position ms

abbrev pub IsByPosition : List MatchItem → Type 0
IsByPosition = Above 0

-- `sort.Slice` is not stable: any order of the matches whose positions do not fall may come out.
pub record SortsByPosition (sort : List MatchItem → List MatchItem) : Type 0 where
  pub permutes : (ms : List MatchItem) → Perm (sort ms) ms
  pub sorted : (ms : List MatchItem) → IsByPosition (sort ms)

unfoldable pub in_match : MatchItem → ℕ → Bool
in_match m i = leb m.position i && ltb i m.end_pos

-- A match covers the place.
unfoldable pub covered : List MatchItem → ℕ → Bool
unfolding in_match
covered [] i = false
covered (m ∷ ms) i = in_match m i || covered ms i

pub covered-mem :
    (m : MatchItem) (ms : List MatchItem) (i : ℕ)
    → Mem m ms
    → in_match m i ≡ true
    → covered ms i ≡ true
unfolding covered
covered-mem m [] i h e = absurd (not-mem-nil h)
covered-mem m (n ∷ ms) i h e =
    Or.elim (hlevel) (mem-cons.0 h) (λ same. ground arith)
      (λ later. ground (arith, covered-mem m ms i later e))

pub covered_mono :
    (ms ns : List MatchItem) (i : ℕ)
    → ((m : MatchItem) → Mem m ms → Mem m ns)
    → covered ms i ≡ true
    → covered ns i ≡ true
unfolding covered
covered_mono [] ns i sub e = cc
covered_mono (m ∷ ms) ns i sub e = elim (Bool-cases (in_match m i)) [
  | inl y ↦ covered-mem m ns i (sub m mem-cons_self) y
  | inr n ↦ covered_mono ms ns i (λ k h. sub k (mem-cons_of_mem m h)) (ground arith)
]

-- Sorting changes nothing about the places covered.
pub covered-sort :
    (sort : List MatchItem → List MatchItem)
    → SortsByPosition sort
    → (ms : List MatchItem) (i : ℕ) → covered (sort ms) i ≡ covered ms i
covered-sort sort s ms i = elim (Bool-cases (covered ms i)) [
  | inl y ↦ covered_mono ms (sort ms) i (λ m. (Perm.mem_iff (s.permutes ms)).1) y ∙ sym y
  | inr n ↦ elim (Bool-cases (covered (sort ms) i)) [
    | inl y' ↦ cc (covered_mono (sort ms) ms i (λ m. (Perm.mem_iff (s.permutes ms)).0) y')
    | inr n' ↦ n' ∙ sym n
  ]
]
