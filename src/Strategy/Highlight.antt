-- ===== src/Strategy/Highlight.antt =====
-- internal/infrastructure/algorithm/strategy_highlight.go, with `html.EscapeString` of the standard
-- library. `none` is an index out of range.
pub mod Pieces
pub mod Laws
use censorhub.Prelude.{
  ℕ, zero, suc, ◌-◌, ◌==◌, Option, none, some, List, [], ◌∷◌, ◌++◌, if◌then◌else◌, ◌>>=◌, length,
  is_empty, get_elem?,
}
use censorhub.Text.{Text, runes}
use censorhub.Domain.{MatchItem}
use censorhub.Strategy.Intervals.{Interval, merge_intervals}

-- `html.EscapeString` of one rune.
unfoldable pub escape : ℕ → Text
escape r =
    if r == b'&'
    then runes "&amp;"
    else if r == b'\''
    then runes "&#39;"
    else if r == b'<'
    then runes "&lt;"
    else if r == b'>'
    then runes "&gt;"
    else if r == b'"'
    then runes "&#34;"
    else r ∷ []

-- `for i := …; i < … && i < len(targetRunes); i++`, on the rounds left.
unfoldable pub write_range : Text → ℕ → ℕ → Text
unfolding escape
write_range t zero i = []
write_range t (suc k) i = elim (get_elem? t i) [
  | none ↦ []
  | some r ↦ escape r ++ write_range t k (suc i)
]

-- The loop over the intervals, and the rest of the text behind the last one.
unfoldable pub highlight_from : Text → ℕ → List Interval → Text
unfolding write_range
highlight_from t idx [] = write_range t (length t - idx) idx
highlight_from t idx (iv ∷ ivs) =
    write_range t (iv.start - idx) idx
    ++ (runes "<mark>"
        ++ (write_range t (iv.stop - iv.start) iv.start
            ++ (runes "</mark>" ++ highlight_from t iv.stop ivs)))

unfoldable pub highlight_matches :
    (List MatchItem → List MatchItem) → Text → Text → List MatchItem → Option Text
unfolding highlight_from
highlight_matches sort original normalized matches = if is_empty matches then some original else do
  ivs ← merge_intervals sort matches
  let target = if length original == length normalized then original else normalized
  some (highlight_from target 0 ivs)
