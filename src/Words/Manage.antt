-- ===== src/Words/Manage.antt =====
-- internal/application/service/word_app_service.go: Create, Update, Delete, Get and Import, with
-- the conversions of internal/application/assembler/word_assembler.go and the errors of
-- pkg/errors/errors.go. `Db` says whether the database answers the reads and the writes of a request.
use censorhub.Prelude.{
  ℕ, suc, ℤ, Bool, true, false, ◌&&◌, ◌||◌, is_empty, Option, none, some, List, [], ◌∷◌, length,
  if◌then◌else◌,
}
use censorhub.Text.{Text, Unicode, normalize_for_index}
use censorhub.Domain.{parse_category, parse_risk_level, status_active}
use censorhub.Domain.Word.{SensitiveWord, WordError, validate}
use censorhub.Words.Table.{
  WordTable, find_by_id, find_by_text, create_row, update_row, delete_row, batch_create,
}

pub record Db : Type 0 where
  pub reads : Bool
  pub writes : Bool

pub data ServiceError : Type 0 where
  word_already_exists word_not_found invalid_category invalid_risk_level : ServiceError
  invalid_request : WordError → ServiceError
  import_failed database_error : ServiceError

pub data Result (A : Type 0) : Type 0 where
  ok : A → Result A
  failed : ServiceError → Result A

pub record CreateWordRequest : Type 0 where
  pub text : Text
  pub category : Text
  pub level : ℤ
  pub tag : Text

pub record UpdateWordRequest : Type 0 where
  pub text : Option Text
  pub category : Option Text
  pub level : Option ℤ
  pub status : Option ℤ
  pub tag : Option Text

-- `EntityToDTO` copies every field.
pub record WordResponse : Type 0 where
  pub id : ℕ
  pub text : Text
  pub category : Text
  pub level : ℤ
  pub status : ℤ
  pub tag : Text
  pub created_at : ℕ
  pub updated_at : ℕ

unfoldable pub entity_to_dto : SensitiveWord → WordResponse
entity_to_dto e = record {
  id = e.id;
  text = e.text;
  category = e.category;
  level = e.level;
  status = e.status;
  tag = e.tag;
  created_at = e.created_at;
  updated_at = e.updated_at;
}

-- The identifier and the times are 0 until the row is written.
unfoldable pub create_dto_to_entity : Unicode → CreateWordRequest → SensitiveWord
create_dto_to_entity u req = record {
  id = 0;
  text = normalize_for_index u req.text;
  category = req.category;
  level = req.level;
  status = status_active;
  tag = req.tag;
  created_at = 0;
  updated_at = 0;
}

unfoldable pub or_keep {ℓ} : {A : Type ℓ} → Option A → A → A
or_keep none old = old
or_keep (some new) old = new

-- A field of the request through its parser: the old value if the field is missing.
unfoldable pub parsed {ℓ} : {A : Type ℓ} → (A → Option A) → Option A → A → Option A
parsed parse none old = some old
parsed parse (some x) old = parse x

-- The changes of the request `req` to a word, in the order of the source.
unfoldable pub apply_update : Unicode → UpdateWordRequest → SensitiveWord → Result SensitiveWord
unfolding or_keep parsed
apply_update u req word =
    let text : Text = elim req.text [ none ↦ word.text | some t ↦ normalize_for_index u t ] in
    elim (parsed parse_category req.category word.category) [
      | none ↦ failed invalid_category
      | some category ↦ elim (parsed parse_risk_level req.level word.level) [
        | none ↦ failed invalid_risk_level
        | some level ↦ ok (record word {
          text = text;
          category = category;
          level = level;
          status = or_keep req.status word.status;
          tag = or_keep req.tag word.tag;
        })
      ]
    ]

pub record ImportResponse : Type 0 where
  pub total : ℕ
  pub imported : ℕ
  pub skipped : ℕ

-- A row that was read, or the error for one that is not there.
unfoldable pub load_word : Db → ℕ → WordTable → Result SensitiveWord
unfolding find_by_id
load_word db id t = elim (db.reads) [
  | false ↦ failed database_error
  | true ↦ elim (find_by_id id t.rows) [ none ↦ failed word_not_found | some w ↦ ok w ]
]

unfoldable pub get_word : Db → ℕ → WordTable → Result WordResponse
unfolding load_word
get_word db id t = elim (load_word db id t) [ failed e ↦ failed e | ok w ↦ ok (entity_to_dto w) ]

unfoldable pub delete_word : Db → ℕ → WordTable → Result Unit × WordTable
unfolding load_word delete_row
delete_word db id t = elim (load_word db id t) [
  | failed e ↦ (failed e, t)
  | ok w ↦
      if db.writes
      then (ok tt, record t { rows = delete_row id t.rows })
      else (failed database_error, t)
]

module _ (same : Text → Text → Bool) (u : Unicode) where
  -- `existing` is not nil and the look-up did not fail.
  unfoldable pub is_known : Db → Text → WordTable → Bool
  unfolding find_by_text
  is_known db text t =
      db.reads && elim (find_by_text same text t.rows) [ none ↦ false | some w ↦ true ]

  unfoldable pub create_word :
      Db → ℕ → CreateWordRequest → WordTable → Result WordResponse × WordTable
  unfolding create_dto_to_entity is_known
  create_word db now req t =
      let word = create_dto_to_entity u req in
      elim (validate word) [
        | some e ↦ (failed (invalid_request e), t)
        | none ↦ elim (is_known db word.text t) [
          | true ↦ (failed word_already_exists, t)
          | false ↦ elim db.writes [
            | false ↦ (failed database_error, t)
            | true ↦ elim (create_row same now word t) [
              | none ↦ (failed database_error, t)
              | some (row, t') ↦ (ok (entity_to_dto row), t')
            ]
          ]
        ]
      ]

  -- The response shows the word as it was read, with the changes.
  unfoldable pub update_word :
      Db → ℕ → ℕ → UpdateWordRequest → WordTable → Result WordResponse × WordTable
  unfolding load_word apply_update
  update_word db now id req t = elim (load_word db id t) [
    | failed e ↦ (failed e, t)
    | ok old ↦ elim (apply_update u req old) [
      | failed e ↦ (failed e, t)
      | ok word ↦ elim (validate word) [
        | some e ↦ (failed (invalid_request e), t)
        | none ↦ elim db.writes [
          | false ↦ (failed database_error, t)
          | true ↦ elim (update_row same now word t) [
            | none ↦ (failed database_error, t)
            | some t' ↦ (ok (entity_to_dto word), t')
          ]
        ]
      ]
    ]
  ]

  -- The words of an import that are valid, and how many are not.
  unfoldable pub valid_words : List CreateWordRequest → List SensitiveWord × ℕ
  unfolding create_dto_to_entity
  valid_words [] = ([], 0)
  valid_words (r ∷ rs) =
      let (words, failures) = valid_words rs in
      elim (validate (create_dto_to_entity u r)) [
        | some e ↦ (words, suc failures)
        | none ↦ (create_dto_to_entity u r ∷ words, failures)
      ]

  unfoldable pub import_words :
      Db → ℕ → List CreateWordRequest → WordTable → Result ImportResponse × WordTable
  unfolding valid_words batch_create
  import_words db now requests t =
      let (words, failures) = valid_words requests in
      let (imported, t') = batch_create same now words t in
      if db.writes || is_empty words
      then (ok (record { total = length requests; imported = imported; skipped = failures }), t')
      else (failed import_failed, t)
