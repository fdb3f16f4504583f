-- ===== src/Strategy/Highlight/Laws.antt =====
-- The highlighted text: the escaped runes of the text, with a mark round each covered stretch.
use mathlib.Core.List.{append-nil}
use mathlib.Core.Path.{ap₂}
use censorhub.Prelude.{
  ℕ, suc, ◌+◌, ◌-◌, ◌≤◌, ◌≡◌, ◌==◌, inl, inr, refl, sym, ap, ◌∙◌, Bool, true, false, some, List, [],
  ◌∷◌, ◌++◌, map, length, is_empty, take, drop, All, arith, Bool-cases,
}
use censorhub.Text.{Text}
use censorhub.Domain.{MatchItem}
use censorhub.Strategy.Sort.{SortsByPosition, covered}
use censorhub.Strategy.Intervals.{
  Interval, Runs, IsPlaced, in_interval, covers, merge_intervals_lem,
}
use censorhub.Strategy.Replace.Laws.{target}
use censorhub.Strategy.Highlight.{highlight_from, highlight_matches}
use censorhub.Strategy.Highlight.Pieces.{
  Piece, render, contents, flags, tests_from, pieces, length-drop, length-take,
  take-append-drop_add, highlight_from-render, covers_before, tests_from-append, tests_from_const,
  tests_from_cong,
}

-- A stretch between two places and the rest behind it.
cut : (t : Text) (i j : ℕ) → i ≤ j → take (j - i) (drop i t) ++ drop j t ≡ drop i t
cut t i j le =
    ap (λ (k : ℕ). take (j - i) (drop i t) ++ drop k t) (omega arith)
    ∙ take-append-drop_add (j - i) i t

contents-pieces :
    (len from : ℕ) (t : Text) (idx : ℕ) (ivs : List Interval)
    → idx ≤ from
    → Runs len from ivs
    → contents (pieces t idx ivs) ≡ drop idx t
unfolding contents pieces
contents-pieces len from t idx [] le runs = append-nil (drop idx t)
contents-pieces len from t idx (iv ∷ ivs) le (low, pos, high, runs) =
    ap (λ (x : Text). take (iv.start - idx) (drop idx t) ++ x)
      (ap (λ (x : Text). take (iv.stop - iv.start) (drop iv.start t) ++ x)
          (contents-pieces len (suc iv.stop) t iv.stop ivs (omega arith) runs)
        ∙ cut t iv.start iv.stop (omega arith))
    ∙ cut t idx iv.start (omega arith)

length-stretch :
    (t : Text) (i j : ℕ) → i ≤ j → j ≤ length t → length (take (j - i) (drop i t)) ≡ j - i
length-stretch t i j le high = length-take (j - i) (drop i t) (omega (arith, length-drop i t))

flags-pieces :
    (from : ℕ) (t : Text) (idx : ℕ) (ivs : List Interval)
    → idx ≤ from
    → Runs (length t) from ivs
    → flags (pieces t idx ivs) ≡ tests_from (covers ivs) idx (drop idx t)
unfolding flags pieces covers in_interval
flags-pieces from t idx [] le runs =
    append-nil (map (λ r. false) (drop idx t))
    ∙ sym (tests_from_const (λ j. false) false idx (drop idx t) (λ j low high. refl))
flags-pieces from t idx (iv ∷ ivs) le (low, pos, high, runs) =
    let c = covers (iv ∷ ivs) in
    let a = take (iv.start - idx) (drop idx t) in
    let b = take (iv.stop - iv.start) (drop iv.start t) in
    let len_a : length a ≡ iv.start - idx =
      length-stretch t idx iv.start (omega arith) (omega arith) in
    let len_b : length b ≡ iv.stop - iv.start =
      length-stretch t iv.start iv.stop (omega arith) high in
    let rest = drop iv.stop t in
    let outside : tests_from c idx a ≡ map (λ r. false) a =
      tests_from_const c false idx a (λ j lo hi.
        ground (arith, covers_before (length t) (suc iv.stop) ivs j runs (omega arith))) in
    let inside : tests_from c (idx + length a) b ≡ map (λ r. true) b =
      tests_from_const c true (idx + length a) b (λ j lo hi. ground arith) in
    let behind : tests_from c ((idx + length a) + length b) rest
        ≡ tests_from (covers ivs) iv.stop rest =
      ap (λ (k : ℕ). tests_from c k rest) (omega arith)
      ∙ tests_from_cong c (covers ivs) iv.stop rest (λ j lo. ground arith) in
    let whole : a ++ (b ++ rest) ≡ drop idx t =
      ap (λ (x : Text). a ++ x) (cut t iv.start iv.stop (omega arith))
      ∙ cut t idx iv.start (omega arith) in
    ap (λ (x : List Bool). map (λ r. false) a ++ (map (λ r. true) b ++ x))
      (flags-pieces (suc iv.stop) t iv.stop ivs (omega arith) runs ∙ sym behind)
    ∙ ap₂ (λ (x y : List Bool). x ++ (y ++ tests_from c ((idx + length a) + length b) rest))
        (sym outside) (sym inside)
    ∙ ap (λ (x : List Bool). tests_from c idx a ++ x)
        (sym (tests_from-append c (idx + length a) b rest))
    ∙ sym (tests_from-append c idx a (b ++ rest))
    ∙ ap (tests_from c idx) whole

-- The result of highlighting the places of a cover in a text.
pub record IsHighlighted (cover : ℕ → Bool) (t out : Text) : Type 0 where
  pub cuts : List Piece
  pub written : out ≡ render cuts
  pub text : contents cuts ≡ t
  pub places : flags cuts ≡ tests_from cover 0 t

highlight_from-IsHighlighted :
    (cover : ℕ → Bool) (t : Text) (ivs : List Interval)
    → Runs (length t) 0 ivs
    → ((i : ℕ) → covers ivs i ≡ cover i)
    → IsHighlighted cover t (highlight_from t 0 ivs)
highlight_from-IsHighlighted cover t ivs runs same = record {
  cuts = pieces t 0 ivs;
  written = highlight_from-render t 0 ivs;
  text = contents-pieces (length t) 0 t 0 ivs (omega arith) runs;
  places =
      flags-pieces 0 t 0 ivs (omega arith) runs
      ∙ tests_from_cong (covers ivs) cover 0 t (λ j low. same j);
}

-- For any sort by position and matches that lie in the normalized text and are not empty, the
-- highlighting indexes nothing out of range. If nothing matched, the result is the original text,
-- as it is. Otherwise it is a sequence of pieces, the plain ones written with each rune escaped
-- for HTML and the marked ones so between `<mark>` and `</mark>`. The pieces make up the text that
-- is walked, nothing lost and nothing twice, and a rune stands in a marked piece exactly when a
-- match covers its place.
pub highlight_matches-IsHighlighted :
    (sort : List MatchItem → List MatchItem)
    → SortsByPosition sort
    → (original normalized : Text) (matches : List MatchItem)
    → All (IsPlaced (length normalized)) matches
    → (out : Text) × (highlight_matches sort original normalized matches ≡ some out)
      × (is_empty matches ≡ true → out ≡ original)
      × (is_empty matches ≡ false
          → IsHighlighted (covered matches) (target original normalized matches) out)
unfolding highlight_matches target
highlight_matches-IsHighlighted sort sorts original normalized matches placed =
    elim (Bool-cases (is_empty matches)) [
      | inl y ↦ rw y (original, refl, λ e. refl, λ e. cc)
      | inr n ↦
          let (ivs, merged, runs, same) =
            merge_intervals_lem sort sorts (length normalized) matches placed in
          elim (Bool-cases (length original == length normalized)) [
            | inl eq ↦
                let runs' : Runs (length original) 0 ivs = rw (same_length eq) runs in
                rw (n, merged, eq)
                  (
                    highlight_from original 0 ivs,
                    refl,
                    λ e. cc,
                    λ e. highlight_from-IsHighlighted (covered matches) original ivs runs' same,
                  )
            | inr ne ↦
                rw (n, merged, ne)
                  (
                    highlight_from normalized 0 ivs,
                    refl,
                    λ e. cc,
                    λ e. highlight_from-IsHighlighted (covered matches) normalized ivs runs same,
                  )
          ]
    ]
  where
    same_length : {a b : ℕ} → (a == b) ≡ true → a ≡ b
    same_length h = ground arith
