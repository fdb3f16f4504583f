-- ===== src/Domain/Word.antt =====
-- internal/domain/entity: the sensitive word. A time is the number of microseconds that the clock
-- showed; `time.Now()` is an argument.
use censorhub.Prelude.{
  ℕ, ℤ, ◌≡◌, ◌↔◌, ◌≤◌, Bool, true, Option, none, some, not, if◌then◌else◌, ltb, length, arith,
}
use censorhub.Text.{Text}
use censorhub.Domain.{
  category_is_valid, level_is_valid, status_is_active, status_active, status_inactive,
}

pub record SensitiveWord : Type 0 where
  pub id : ℕ
  pub text : Text
  pub category : Text
  pub level : ℤ
  pub status : ℤ
  pub tag : Text
  pub created_at : ℕ
  pub updated_at : ℕ

abbrev pub max_word_length : ℕ
max_word_length = 255

abbrev pub min_word_length : ℕ
min_word_length = 1

pub data WordError : Type 0 where
  empty_text text_too_long bad_category bad_level : WordError

-- `none` is no error.
unfoldable pub validate : SensitiveWord → Option WordError
validate w =
    if ltb (length w.text) min_word_length
    then some empty_text
    else if ltb max_word_length (length w.text)
    then some text_too_long
    else if not (category_is_valid w.category)
    then some bad_category
    else if not (level_is_valid w.level)
    then some bad_level
    else none

unfoldable pub activate : ℕ → SensitiveWord → SensitiveWord
activate now w = record w { status = status_active; updated_at = now }

unfoldable pub deactivate : ℕ → SensitiveWord → SensitiveWord
deactivate now w = record w { status = status_inactive; updated_at = now }

unfoldable pub is_active : SensitiveWord → Bool
is_active w = status_is_active w.status

-- What `Validate` accepts.
pub record IsValidWord (w : SensitiveWord) : Type 0 where
  pub not_empty : 1 ≤ length w.text
  pub not_long : length w.text ≤ 255
  pub category : category_is_valid w.category ≡ true
  pub level : level_is_valid w.level ≡ true

-- A word has no validation error exactly when its text has 1 to 255 runes, its category is one
-- of the six and its level lies in 1 to 4.
pub validate-IsValidWord : (w : SensitiveWord) → (validate w ≡ none) ↔ IsValidWord w
unfolding validate
validate-IsValidWord w = (λ h. ground arith, λ h. ground arith)
