-- ===== src/Strategy/Intervals.antt =====
-- `mergeIntervals` of internal/infrastructure/algorithm/strategy_highlight.go.
-- `none` is an index out of range.
use mathlib.Core.List.{append_assoc, Mem, mem-cons_self, not-mem-nil}
use mathlib.Core.List.Perm
use native.Mathlib.Bridge.{le_prop}
use censorhub.Prelude.{
  ℕ, suc, ◌≤◌, ◌<◌, ◌≡◌, inl, inr, refl, sym, ap, ◌∙◌, Bool, true, false, ◌&&◌, ◌||◌, Option, none,
  some, List, [], ◌∷◌, ◌++◌, ltb, leb, if◌then◌else◌, is_empty, All, All-of_mem, of_mem-All, arith,
  Bool-cases,
}
use censorhub.Domain.{MatchItem}
use censorhub.Strategy.Sort.{Above, SortsByPosition, in_match, covered, covered-sort}

pub record Interval : Type 0 where
  pub start : ℕ
  pub stop : ℕ

-- The loop of `mergeIntervals`: the intervals that are closed, and the last one.
unfoldable pub merge_from : List Interval → Interval → List MatchItem → List Interval
merge_from closed last [] = closed ++ last ∷ []
merge_from closed last (m ∷ ms) = elim (leb m.position last.stop) [
  | true ↦
      merge_from closed (if ltb last.stop m.end_pos then record last { stop = m.end_pos } else last)
        ms
  | false ↦ merge_from (closed ++ last ∷ []) (record { start = m.position; stop = m.end_pos }) ms
]

unfoldable pub merge_intervals :
    (List MatchItem → List MatchItem) → List MatchItem → Option (List Interval)
unfolding merge_from
merge_intervals sort matches =
    let sorted = sort matches in
    if is_empty matches then some [] else elim sorted [
      | [] ↦ none
      | m ∷ ms ↦ some (merge_from [] (record { start = m.position; stop = m.end_pos }) ms)
    ]

-- The same without the list of closed intervals.
spread : Interval → List MatchItem → List Interval
spread last [] = last ∷ []
spread last (m ∷ ms) = elim (leb m.position last.stop) [
  | true ↦ spread (if ltb last.stop m.end_pos then record last { stop = m.end_pos } else last) ms
  | false ↦ last ∷ spread (record { start = m.position; stop = m.end_pos }) ms
]

merge_from-spread :
    (closed : List Interval) (last : Interval) (ms : List MatchItem)
    → merge_from closed last ms ≡ closed ++ spread last ms
unfolding merge_from spread
merge_from-spread closed last [] = refl
merge_from-spread closed last (m ∷ ms) = elim (Bool-cases (leb m.position last.stop)) [
  | inl y ↦
      rw (y, merge_from, spread)
        (merge_from-spread closed
          (if ltb last.stop m.end_pos then record last { stop = m.end_pos } else last) ms)
  | inr n ↦
      let new : Interval = record { start = m.position; stop = m.end_pos } in
      rw (n, merge_from, spread)
        (merge_from-spread (closed ++ last ∷ []) new ms
          ∙ append_assoc closed (last ∷ []) (spread new ms))
]

unfoldable pub in_interval : Interval → ℕ → Bool
in_interval iv i = leb iv.start i && ltb i iv.stop

-- An interval covers the place.
unfoldable pub covers : List Interval → ℕ → Bool
unfolding in_interval
covers [] i = false
covers (iv ∷ ivs) i = in_interval iv i || covers ivs i

-- From `from` on the intervals are in order, with a gap between any two, none is empty, and they
-- end by `len`.
abbrev pub Runs : ℕ → ℕ → List Interval → Type 0
Runs len from [] = Unit
Runs len from (iv ∷ ivs) =
    (from ≤ iv.start) × (iv.start < iv.stop) × (iv.stop ≤ len) × Runs len (suc iv.stop) ivs

-- The match lies in a text of `len` runes and is not empty.
abbrev pub IsPlaced : ℕ → MatchItem → Type 0
IsPlaced len m = (m.position < m.end_pos) × (m.end_pos ≤ len)

Above-weaken : (p q : ℕ) (ms : List MatchItem) → p ≤ q → Above q ms → Above p ms
Above-weaken p q [] le above = tt
Above-weaken p q (m ∷ ms) le (up, above) = (omega arith, above)

spread-Runs :
    (len from : ℕ) (last : Interval) (ms : List MatchItem)
    → from ≤ last.start
    → last.start < last.stop
    → last.stop ≤ len
    → Above last.start ms
    → All (IsPlaced len) ms
    → Runs len from (spread last ms)
unfolding spread
spread-Runs len from last [] low pos high above placed = (low, pos, high, tt)
spread-Runs len from last (m ∷ ms) low pos high (up, above) (here, placed) =
    elim (Bool-cases (leb m.position last.stop)) [
      | inl y ↦ elim (Bool-cases (ltb last.stop m.end_pos)) [
        | inl z ↦
            rw (y, spread)
              (rw z (
                spread-Runs len from (record last { stop = m.end_pos }) ms low (ground arith) here.1
                  (Above-weaken last.start m.position ms up above) placed))
        | inr z ↦
            rw (y, spread)
              (rw z (
                spread-Runs len from last ms low pos high
                  (Above-weaken last.start m.position ms up above) placed))
      ]
      | inr n ↦
          rw (n, spread)
            (
              low,
              pos,
              high,
              spread-Runs len (suc last.stop) (record { start = m.position; stop = m.end_pos }) ms
                  (ground arith) here.0 here.1 above placed,
            )
    ]

covers-spread :
    (last : Interval) (ms : List MatchItem) (i : ℕ)
    → Above last.start ms
    → covers (spread last ms) i ≡ (in_interval last i || covered ms i)
unfolding spread covers covered in_interval in_match
covers-spread last [] i above = refl
covers-spread last (m ∷ ms) i (up, above) = elim (Bool-cases (leb m.position last.stop)) [
  | inl y ↦ elim (Bool-cases (ltb last.stop m.end_pos)) [
    | inl z ↦
        rw (y, spread)
          (rw z (
            covers-spread (record last { stop = m.end_pos }) ms i
              (Above-weaken last.start m.position ms up above)
            ∙ ground arith))
    | inr z ↦
        rw (y, spread)
          (rw z (
            covers-spread last ms i (Above-weaken last.start m.position ms up above)
            ∙ ground arith))
  ]
  | inr n ↦
      rw (n, spread)
        (ap (λ (b : Bool). in_interval last i || b)
          (covers-spread (record { start = m.position; stop = m.end_pos }) ms i above))
]

module _ (sort : List MatchItem → List MatchItem) (sorts : SortsByPosition sort) where
  sorted-IsPlaced :
      (len : ℕ) (ms : List MatchItem) → All (IsPlaced len) ms → All (IsPlaced len) (sort ms)
  sorted-IsPlaced len ms placed = All-of_mem (IsPlaced len) (sort ms) (λ m h.
      of_mem-All (IsPlaced len) m ms (λ x. hlevel le_prop) placed
        ((Perm.mem_iff (sorts.permutes ms)).0 h))

  sorted_cons :
      (ms : List MatchItem)
      → is_empty ms ≡ false
      → (m : MatchItem) × (rest : List MatchItem) × (sort ms ≡ m ∷ rest)
  sorted_cons [] e = cc
  sorted_cons (m ∷ ms) e =
      go (sort (m ∷ ms)) refl ((Perm.mem_iff (sorts.permutes (m ∷ ms))).1 mem-cons_self)
    where
      go :
          (l : List MatchItem)
          → sort (m ∷ ms) ≡ l
          → Mem m (sort (m ∷ ms))
          → (x : MatchItem) × (rest : List MatchItem) × (sort (m ∷ ms) ≡ x ∷ rest)
      go [] e h = absurd (not-mem-nil (rw e at h))
      go (x ∷ rest) e h = (x, rest, e)

  -- For any sort by position and matches that lie in a text of `len` runes and are not empty, the
  -- merge indexes nothing out of range. The intervals lie in the text in ascending order, none is
  -- empty, any two are apart by at least one place, and together they cover exactly the places
  -- that the matches cover.
  pub merge_intervals_lem :
      (len : ℕ) (matches : List MatchItem)
      → All (IsPlaced len) matches
      → (ivs : List Interval) × (merge_intervals sort matches ≡ some ivs)
        × Runs len 0 ivs
        × ((i : ℕ) → covers ivs i ≡ covered matches i)
  unfolding merge_intervals covers covered
  merge_intervals_lem len [] placed = ([], refl, tt, λ i. refl)
  merge_intervals_lem len (m ∷ ms) placed =
      let (x, rest, e) = sorted_cons (m ∷ ms) refl in
      let first : Interval = record { start = x.position; stop = x.end_pos } in
      let (up, above) = rw e at (sorts.sorted (m ∷ ms)) in
      let (here, placed') = rw e at (sorted-IsPlaced len (m ∷ ms) placed) in
      (
        spread first rest,
        rw e (ap (λ (l : List Interval). some l) (merge_from-spread [] first rest)),
        spread-Runs len 0 first rest (omega arith) here.0 here.1 above placed',
        λ i.
            covers-spread first rest i above
            ∙ ap (λ (l : List MatchItem). covered l i) (sym e)
            ∙ covered-sort sort sorts (m ∷ ms) i,
      )
