-- ===== src/Tests/Rewriting.antt =====
-- The strategies.
use censorhub.Prelude.{
  ℕ, ◌≡◌, refl, some, pos, List, [], ◌∷◌, length, is_empty, All, true, false, arith,
}
use censorhub.Text.{Text, runes}
use censorhub.Domain.{MatchItem, FilterResult, category_abuse, strategy_replace}
use censorhub.Strategy.Sort.{covered}
use censorhub.Strategy.Intervals.{IsPlaced, merge_intervals}
use censorhub.Strategy.Replace.{replace_matches}
use censorhub.Strategy.Replace.Laws.{IsMasked, target, replace_matches-IsMasked}
use censorhub.Strategy.Highlight.{highlight_matches}
use censorhub.Strategy.Highlight.Laws.{IsHighlighted, highlight_matches-IsHighlighted}
use censorhub.Strategy.Apply.{apply_strategy, Reports, Filters, apply_strategy-Reports}
use censorhub.Tests.Inputs.{sort_by_position, sort_by_position-SortsByPosition}

abbrev item : ℕ → ℕ → MatchItem
item start stop = record {
  word = runes "w";
  position = start;
  end_pos = stop;
  category = category_abuse;
  level = pos 2;
}

-- Two matches that overlap, out of order, and one apart.
abbrev some_matches : List MatchItem
some_matches = item 4 5 ∷ item 1 3 ∷ item 0 2 ∷ []

abbrev six : Text
six = runes "ab<d&f"

replaced : replace_matches sort_by_position six six some_matches b'*' ≡ some (runes "***d*f")
unfolding replace_matches
replaced = refl

highlighted :
    highlight_matches sort_by_position six six some_matches
    ≡ some (runes "<mark>ab&lt;</mark>d<mark>&amp;</mark>f")
unfolding highlight_matches merge_intervals
highlighted = refl

six-IsPlaced : All (IsPlaced (length six)) some_matches
six-IsPlaced = omega arith

replace_matches_example :
    (out : Text) × (replace_matches sort_by_position six six some_matches b'*' ≡ some out)
    × IsMasked b'*' (covered some_matches) (target six six some_matches) out
replace_matches_example =
    replace_matches-IsMasked sort_by_position sort_by_position-SortsByPosition six some_matches b'*'
      six

highlight_matches_example :
    (out : Text) × (highlight_matches sort_by_position six six some_matches ≡ some out)
    × (is_empty some_matches ≡ true → out ≡ six)
    × (is_empty some_matches ≡ false
        → IsHighlighted (covered some_matches) (target six six some_matches) out)
highlight_matches_example =
    highlight_matches-IsHighlighted sort_by_position sort_by_position-SortsByPosition six six
      some_matches six-IsPlaced

apply_strategy_example :
    (r : FilterResult) × (apply_strategy sort_by_position strategy_replace 7 six six some_matches
      ≡ some r)
    × Reports six some_matches r
    × Filters strategy_replace six six some_matches r.filtered
apply_strategy_example =
    apply_strategy-Reports sort_by_position sort_by_position-SortsByPosition strategy_replace 7 six
      six some_matches six-IsPlaced
