-- ===== src/Tests/Managing.antt =====
-- The theorems about the word service and the cache key at concrete inputs.
use censorhub.Words.Listing.{WordQuery, page_length, list_rows}
use censorhub.Words.Listing.Pages.{list_rows-wraps}
use censorhub.Prelude.{
  ◌^◌, ◌<◌, Bool, ◌*◌, ◌≤◌, ℕ, ◌≡◌, refl, true, false, none, some, List, [], ◌∷◌, pos, arith,
}
use censorhub.Text.{Text, runes, text_eq, text_eq_refl, normalize, normalize_for_index}
use censorhub.Domain.{
  category_ad, category_is_valid, status_active, strategy_replace, strategy_is_valid,
  level_is_valid, parse_risk_level,
}
use censorhub.Domain.Word.{SensitiveWord, validate}
use censorhub.Cache.Hash.{sum64a}
use censorhub.Cache.Local.Reads.{text_eq_sym}
use censorhub.Service.Key.Laws.{filter_cache_key-inj}
use censorhub.Words.Table.{WordTable, create_row, update_row}
use censorhub.Words.Manage.{
  Db, ok, failed, word_already_exists, CreateWordRequest, UpdateWordRequest, WordResponse,
  entity_to_dto, create_word, update_word, delete_word, get_word, import_words,
}
use censorhub.Words.Failures.{LeavesTable, requests-LeavesTable}
use censorhub.Words.Keeps.{IsWellFormed}
use censorhub.Words.Requests.{
  WordRequest, creates, updates, deletes_id, imports, handle_all, handle_all-IsWellFormed,
}
use censorhub.Words.Outcomes.{create_word-get_word}
use censorhub.Words.Updates.{update_word-get_word}
use censorhub.Tests.Inputs.{ascii}

abbrev pub up : Db
up = record { reads = true; writes = true }

abbrev read_only : Db
read_only = record { reads = true; writes = false }

abbrev pub casino : CreateWordRequest
casino = record { text = runes " CASINO"; category = category_ad; level = pos 3; tag = [] }

abbrev pub lower : UpdateWordRequest
lower = record { text = none; category = none; level = some (pos 1); status = none; tag = none }

abbrev pub no_words : WordTable
no_words = record { rows = []; next_id = 1 }

pub no_words-IsWellFormed : IsWellFormed text_eq no_words
no_words-IsWellFormed = record { valid = tt; below = tt; apart = tt }

abbrev pub requests : List (Db × ℕ × WordRequest)
requests =
    (up, 5, creates casino)
    ∷ (up, 6, imports (casino ∷ []))
    ∷ (up, 7, updates 1 lower)
    ∷ (read_only, 8, deletes_id 1)
    ∷ []

handle_all-IsWellFormed_example : IsWellFormed text_eq (handle_all text_eq ascii requests no_words)
handle_all-IsWellFormed_example =
    handle_all-IsWellFormed text_eq ascii requests no_words text_eq_sym no_words-IsWellFormed

abbrev pub shown : WordResponse
shown = record {
  id = 1;
  text = runes "casino";
  category = category_ad;
  level = pos 3;
  status = status_active;
  tag = [];
  created_at = 5;
  updated_at = 5;
}

abbrev shown_word : SensitiveWord
shown_word = record {
  id = 1;
  text = runes "casino";
  category = category_ad;
  level = pos 3;
  status = status_active;
  tag = [];
  created_at = 5;
  updated_at = 5;
}

abbrev pub one_word : WordTable
one_word = record { rows = shown_word ∷ []; next_id = 2 }

pub casino-created : create_word text_eq ascii up 5 casino no_words ≡ (ok shown, one_word)
unfolding create_word normalize_for_index normalize validate category_is_valid level_is_valid
    create_row entity_to_dto
casino-created = refl

create_word-get_word_example :
    (get_word read_only 1 one_word ≡ ok shown)
    × (shown.text ≡ normalize_for_index ascii casino.text)
    × (shown.status ≡ status_active)
    × (create_word text_eq ascii read_only 9 casino one_word
        ≡ (failed word_already_exists, one_word))
create_word-get_word_example =
    create_word-get_word text_eq ascii up read_only 5 9 casino no_words one_word shown text_eq_refl
      refl casino-created

pub casino-deleted : delete_word up 1 one_word ≡ (ok tt, record one_word { rows = [] })
unfolding delete_word
casino-deleted = refl

abbrev lowered : WordTable
lowered = (update_word text_eq ascii up 7 1 lower one_word).1

casino-lowered :
    update_word text_eq ascii up 7 1 lower one_word ≡ (ok (record shown { level = pos 1 }), lowered)
unfolding update_word validate parse_risk_level category_is_valid update_row entity_to_dto
casino-lowered = refl

update_word-get_word_example :
    get_word up 1 lowered ≡ ok (record shown { level = pos 1; updated_at = 7 })
update_word-get_word_example =
    update_word-get_word text_eq ascii up up 7 1 lower one_word lowered
      (record shown { level = pos 1 }) refl casino-lowered

abbrev version : ℕ
version = 7

replace-valid : strategy_is_valid strategy_replace ≡ true
unfolding strategy_is_valid
replace-valid = refl

filter_cache_key-inj_example :
    (strategy_replace ≡ strategy_replace)
    × (version ≡ version)
    × (sum64a (runes "a sin") ≡ sum64a (runes "a sin"))
filter_cache_key-inj_example =
    filter_cache_key-inj (runes "a sin") (runes "a sin") strategy_replace strategy_replace version
      version replace-valid replace-valid (omega arith) (omega arith) refl

abbrev pub like_any : Text → Text → Bool
like_any keyword text = true

abbrev first_query : WordQuery
first_query = record {
  category = some category_ad;
  level = none;
  status = none;
  keyword = [];
  page = pos 1;
  page_size = pos 500;
}

requests-LeavesTable_example :
    LeavesTable one_word (create_word text_eq ascii read_only 9 casino one_word)
    × LeavesTable one_word (update_word text_eq ascii read_only 9 2 lower one_word)
    × LeavesTable one_word (delete_word read_only 2 one_word)
    × LeavesTable one_word (import_words text_eq ascii read_only 9 (casino ∷ []) one_word)
requests-LeavesTable_example =
    requests-LeavesTable text_eq ascii read_only 9 2 casino lower (casino ∷ []) one_word

abbrev huge : ℕ
huge = 92233720368547759

huge-wraps : 2 ^ 63 ≤ huge * page_length first_query.page_size
unfolding page_length
huge-wraps = omega arith

huge-fits : huge * page_length first_query.page_size < 2 ^ 64
unfolding page_length
huge-fits = omega arith

list_rows-wraps_example :
    list_rows text_eq like_any (record first_query { page = pos 92233720368547760 }) one_word.rows
    ≡ list_rows text_eq like_any (record first_query { page = pos 1 }) one_word.rows
list_rows-wraps_example =
    list_rows-wraps text_eq like_any huge first_query one_word.rows huge-wraps huge-fits
