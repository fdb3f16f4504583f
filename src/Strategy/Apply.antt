-- ===== src/Strategy/Apply.antt =====
-- The `Apply` methods of internal/infrastructure/algorithm/strategy_*.go, and the map of strategies
-- of cmd/server/main.go. `now` is what `time.Now()` gives.
use censorhub.Prelude.{
  ℕ, pos, ◌<◌, ◌≡◌, ◌↔◌, inl, inr, refl, true, false, Option, some, List, ltb, if◌then◌else◌, ◌>>=◌,
  length, is_empty, All, arith, Bool-cases,
}
use censorhub.Text.{Text, text_eq, text_eq_sound}
use censorhub.Domain.{MatchItem, FilterResult, max_risk_level, strategy_replace, strategy_highlight}
use censorhub.Domain.Risk.{IsMaximum, max_risk_level-IsMaximum}
use censorhub.Strategy.Sort.{SortsByPosition, covered}
use censorhub.Strategy.Intervals.{IsPlaced}
use censorhub.Strategy.Replace.Laws.{IsMasked, target, replace_matches-IsMasked}
use censorhub.Strategy.Highlight.Laws.{IsHighlighted, highlight_matches-IsHighlighted}
use censorhub.Strategy.Replace.{replace_matches}
use censorhub.Strategy.Highlight.{highlight_matches}

-- The record that all three methods fill in.
abbrev filter_result : ℕ → Text → Text → List MatchItem → FilterResult
filter_result now original filtered matches = record {
  original = original;
  filtered = filtered;
  is_hit = ltb 0 (length matches);
  hit_count = length matches;
  matches = matches;
  risk_level = max_risk_level matches;
  processed_at = now;
  cost_ms = 0;
}

unfoldable pub detect_apply : ℕ → Text → Text → List MatchItem → Option FilterResult
detect_apply now original normalized matches = some (filter_result now original original matches)

module _ (sort : List MatchItem → List MatchItem) where
  unfoldable pub replace_apply : ℕ → Text → Text → List MatchItem → Option FilterResult
  replace_apply now original normalized matches = do
    filtered ← replace_matches sort original normalized matches b'*'
    some (filter_result now original filtered matches)

  unfoldable pub highlight_apply : ℕ → Text → Text → List MatchItem → Option FilterResult
  highlight_apply now original normalized matches = do
    filtered ← highlight_matches sort original normalized matches
    some (filter_result now original filtered matches)

  -- `s.strategies[strategyType]`, the detect strategy where there is none of the name.
  unfoldable pub apply_strategy : Text → ℕ → Text → Text → List MatchItem → Option FilterResult
  unfolding detect_apply replace_apply highlight_apply text_eq
  apply_strategy name now original normalized matches =
      if text_eq name strategy_replace
      then replace_apply now original normalized matches
      else if text_eq name strategy_highlight
      then highlight_apply now original normalized matches
      else detect_apply now original normalized matches

-- What every result promises of the matches that it was made from.
pub record Reports (original : Text) (matches : List MatchItem) (r : FilterResult) : Type 0 where
  pub original_kept : r.original ≡ original
  pub matches_kept : r.matches ≡ matches
  pub counted : r.hit_count ≡ length matches
  pub hit : (r.is_hit ≡ true) ↔ (0 < length matches)
  pub risk : IsMaximum (pos 0) matches r.risk_level

-- What the filtered text is, by the name of the strategy.
pub record Filters (name original normalized : Text) (matches : List MatchItem) (out : Text)
    : Type 0 where
  pub replaced :
      text_eq name strategy_replace ≡ true
      → IsMasked b'*' (covered matches) (target original normalized matches) out
  pub highlighted :
      text_eq name strategy_highlight ≡ true
      → (is_empty matches ≡ true → out ≡ original)
        × (is_empty matches ≡ false
            → IsHighlighted (covered matches) (target original normalized matches) out)
  pub detected :
      text_eq name strategy_replace ≡ false
      → text_eq name strategy_highlight ≡ false
      → out ≡ original

filter_result-Reports :
    (now : ℕ) (original filtered : Text) (matches : List MatchItem)
    → Reports original matches (filter_result now original filtered matches)
filter_result-Reports now original filtered matches = record {
  original_kept = refl;
  matches_kept = refl;
  counted = refl;
  hit = (λ h. ground arith, λ h. ground arith);
  risk = max_risk_level-IsMaximum matches;
}

names_differ : text_eq strategy_replace strategy_highlight ≡ false
unfolding text_eq
names_differ = refl

not_both :
    (name : Text)
    → text_eq name strategy_replace ≡ true
    → text_eq name strategy_highlight ≡ true
    → ⊥
not_both name y z =
    let z' : text_eq strategy_replace strategy_highlight ≡ true =
      rw (text_eq_sound name strategy_replace y) at z in
    cc (names_differ)

-- For any sort by position and matches that lie in the normalized text and are not empty, every
-- strategy succeeds, whatever its name: `replace` and `highlight` rewrite the text as they promise,
-- any other name leaves it. The result keeps the original text and the matches; it counts them,
-- is a hit exactly when there is one, and its risk level is the greatest of theirs, or 0 if none
-- is above 0.
pub apply_strategy-Reports :
    (sort : List MatchItem → List MatchItem)
    → SortsByPosition sort
    → (name : Text) (now : ℕ) (original normalized : Text) (matches : List MatchItem)
    → All (IsPlaced (length normalized)) matches
    → (r : FilterResult) × (apply_strategy sort name now original normalized matches ≡ some r)
      × Reports original matches r
      × Filters name original normalized matches r.filtered
unfolding apply_strategy
apply_strategy-Reports sort sorts name now original normalized matches placed =
    elim (Bool-cases (text_eq name strategy_replace)) [
      | inl y ↦
          let (out, ran, masked) =
            replace_matches-IsMasked sort sorts normalized matches b'*' original in
          rw (y, ran)
            (
              filter_result now original out matches,
              refl,
              filter_result-Reports now original out matches,
              record {
                replaced = λ e. masked;
                highlighted = λ e. absurd (not_both name y e);
                detected = λ e f. cc;
              },
            )
      | inr n ↦ elim (Bool-cases (text_eq name strategy_highlight)) [
        | inl z ↦
            let (out, ran, raw, marked) =
              highlight_matches-IsHighlighted sort sorts original normalized matches placed in
            rw (n, z, ran)
              (
                filter_result now original out matches,
                refl,
                filter_result-Reports now original out matches,
                record {
                  replaced = λ e. cc;
                  highlighted = λ e. (raw, marked);
                  detected = λ e f. cc;
                },
              )
        | inr k ↦
            rw (n, k)
              (
                filter_result now original original matches,
                refl,
                filter_result-Reports now original original matches,
                record { replaced = λ e. cc; highlighted = λ e. cc; detected = λ e f. refl },
              )
      ]
    ]
