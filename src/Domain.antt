-- ===== src/Domain.antt =====
-- internal/domain/valueobject: categories, risk levels, word states, strategies and match results.
pub mod Word
pub mod Risk
use censorhub.Prelude.{
  ℕ, ℤ, pos, ltbℤ, eqℤ, Bool, true, false, not, ◌&&◌, ◌||◌, Option, none, some, List, [], ◌∷◌,
  if◌then◌else◌,
}
use censorhub.Text.{Text, runes, text_eq}

-- The type `Category` is a string type: any text may stand in it.
abbrev pub category_politics : Text
category_politics = runes "politics"

abbrev pub category_porn : Text
category_porn = runes "porn"

abbrev pub category_ad : Text
category_ad = runes "ad"

abbrev pub category_violence : Text
category_violence = runes "violence"

abbrev pub category_abuse : Text
category_abuse = runes "abuse"

abbrev pub category_custom : Text
category_custom = runes "custom"

unfoldable pub all_categories : List Text
all_categories =
    category_politics ∷ category_porn ∷ category_ad ∷ category_violence ∷ category_abuse
    ∷ category_custom ∷ []

-- Membership in the map `validCategories`.
unfoldable pub has_text : List Text → Text → Bool
unfolding text_eq
has_text [] t = false
has_text (x ∷ xs) t = text_eq x t || has_text xs t

unfoldable pub category_is_valid : Text → Bool
unfolding has_text all_categories
category_is_valid c = has_text all_categories c

unfoldable pub parse_category : Text → Option Text
unfolding category_is_valid
parse_category s = if not (category_is_valid s) then none else some s

abbrev pub risk_low : ℤ
risk_low = pos 1

abbrev pub risk_medium : ℤ
risk_medium = pos 2

abbrev pub risk_high : ℤ
risk_high = pos 3

abbrev pub risk_critical : ℤ
risk_critical = pos 4

unfoldable pub level_is_valid : ℤ → Bool
level_is_valid r = not (ltbℤ r risk_low) && not (ltbℤ risk_critical r)

unfoldable pub level_string : ℤ → Text
level_string r =
    if eqℤ r risk_low
    then runes "low"
    else if eqℤ r risk_medium
    then runes "medium"
    else if eqℤ r risk_high
    then runes "high"
    else if eqℤ r risk_critical
    then runes "critical"
    else runes "unknown"

unfoldable pub parse_risk_level : ℤ → Option ℤ
unfolding level_is_valid
parse_risk_level level = if not (level_is_valid level) then none else some level

abbrev pub status_inactive : ℤ
status_inactive = pos 0

abbrev pub status_active : ℤ
status_active = pos 1

unfoldable pub status_is_valid : ℤ → Bool
status_is_valid s = eqℤ s status_inactive || eqℤ s status_active

unfoldable pub status_is_active : ℤ → Bool
status_is_active s = eqℤ s status_active

unfoldable pub status_string : ℤ → Text
status_string s = if eqℤ s status_active then runes "active" else runes "inactive"

-- The type `FilterStrategyType` is a string type too.
abbrev pub strategy_detect : Text
strategy_detect = runes "detect"

abbrev pub strategy_replace : Text
strategy_replace = runes "replace"

abbrev pub strategy_highlight : Text
strategy_highlight = runes "highlight"

unfoldable pub strategy_is_valid : Text → Bool
unfolding text_eq
strategy_is_valid s =
    text_eq s strategy_detect || text_eq s strategy_replace || text_eq s strategy_highlight

pub record MatchItem : Type 0 where
  pub word : Text
  pub position : ℕ
  pub end_pos : ℕ
  pub category : Text
  pub level : ℤ

pub record FilterResult : Type 0 where
  pub original : Text
  pub filtered : Text
  pub is_hit : Bool
  pub hit_count : ℕ
  pub matches : List MatchItem
  pub risk_level : ℤ
  pub processed_at : ℕ
  pub cost_ms : ℕ

-- The loop of `MaxRiskLevel`.
max_from : ℤ → List MatchItem → ℤ
max_from max [] = max
max_from max (m ∷ ms) = max_from (if ltbℤ max m.level then m.level else max) ms

unfoldable pub max_risk_level : List MatchItem → ℤ
unfolding max_from
max_risk_level matches = max_from (pos 0) matches
