-- ===== src/Words/Export.antt =====
-- The export of words: ExportToWriter of internal/application/service/word_app_service.go and
-- FindInBatches of internal/infrastructure/persistence/mysql/word_repo.go, with the text that
-- csv.Writer makes of the records and its buffer. The batches that gorm finds are arguments, with the
-- outcomes of the flushes.
pub mod Reading
pub mod Prefixes
pub mod Laws
use censorhub.Prelude.{
  ℕ, Bool, true, false, not, ◌&&◌, ◌||◌, Option, none, some, List, [], ◌∷◌, ◌++◌, ◌==◌, pos, eqℤ,
  if◌then◌else◌, is_empty, take,
}
use censorhub.Text.{Text, Unicode, runes, text_eq}
use censorhub.Domain.{level_string}
use censorhub.Domain.Word.{SensitiveWord}

abbrev pub line_feed : ℕ
line_feed = 10

abbrev pub quote : ℕ
quote = 34

abbrev pub comma : ℕ
comma = 44

unfoldable pub has_special : Text → Bool
has_special [] = false
has_special (c ∷ cs) = c == comma || c == quote || c == 13 || c == line_feed || has_special cs

-- csv.Writer also quotes what starts with a space, and `\.`.
unfoldable pub needs_quotes : Unicode → Text → Bool
unfolding has_special text_eq
needs_quotes u [] = false
needs_quotes u (c ∷ cs) = text_eq (c ∷ cs) (runes "\\.") || has_special (c ∷ cs) || u.is_space c

-- What follows an opening quote, to the closing one.
unfoldable pub quoted_runes : Text → Text
quoted_runes [] = quote ∷ []
quoted_runes (c ∷ cs) =
    let rest = quoted_runes cs in if c == quote then quote ∷ quote ∷ rest else c ∷ rest

unfoldable pub csv_field : Unicode → Text → Text
unfolding needs_quotes quoted_runes
csv_field u field = if needs_quotes u field then quote ∷ quoted_runes field else field

-- The fields after the first one.
unfoldable pub csv_fields : Unicode → List Text → Text
unfolding csv_field
csv_fields u [] = line_feed ∷ []
csv_fields u (field ∷ fields) = comma ∷ (csv_field u field ++ csv_fields u fields)

-- `csvWriter.Write`
unfoldable pub csv_record : Unicode → List Text → Text
unfolding csv_field csv_fields
csv_record u [] = line_feed ∷ []
csv_record u (field ∷ fields) = csv_field u field ++ csv_fields u fields

abbrev pub export_header : List Text
export_header = runes "text" ∷ runes "category" ∷ runes "level" ∷ runes "tag" ∷ []

unfoldable pub word_fields : SensitiveWord → List Text
unfolding level_string
word_fields w = w.text ∷ w.category ∷ level_string w.level ∷ w.tag ∷ []

-- The loop over the words of a batch, and what it writes.
unfoldable pub write_words : Unicode → List SensitiveWord → Text
unfolding csv_record word_fields
write_words u [] = []
write_words u (w ∷ ws) = csv_record u (word_fields w) ++ write_words u ws

-- A category selects its words, active or not; without one, the active words are selected. The
-- collation of the column decides which categories are the same.
module _ (same : Text → Text → Bool) where
  unfoldable pub is_exported : Text → SensitiveWord → Bool
  is_exported category w =
      if is_empty category then eqℤ w.status (pos 1) else same w.category category

  -- The rows of a table whose newest stands first, in the order of the primary key.
  unfoldable pub exported_rows : Text → List SensitiveWord → List SensitiveWord
  unfolding is_exported
  exported_rows category [] = []
  exported_rows category (w ∷ ws) =
      let rest = exported_rows category ws in
      if is_exported category w then rest ++ w ∷ [] else rest

-- A batch, `none` for an error of the database; whether the writer takes the text that waits for it
-- in the buffer, and how many whole runes of that text it takes where it fails.
pub record BatchTurn : Type 0 where
  pub found : Option (List SensitiveWord)
  pub flushed : Bool
  pub spilled : ℕ

-- `csvWriter.Flush` and `csvWriter.Error` for what was written since the last flush: what of it the
-- writer has got, also before the flush when the buffer was full, and whether there is no error. An
-- empty buffer is not handed over.
unfoldable pub flush : Text → Bool → ℕ → Text × Bool
flush pending flushed spilled =
    if flushed || is_empty pending then (pending, true) else (take spilled pending, false)

-- What the writer gets, what is left in the buffer, and whether there is no error, by what the
-- buffer holds. An error of the database comes before the flush; until then the buffer holds at most
-- the header, which fits in it.
unfoldable pub find_in_batches : Unicode → List BatchTurn → Text → Text × Text × Bool
unfolding write_words flush
find_in_batches u [] pending = ([], pending, true)
find_in_batches u (turn ∷ turns) pending = elim turn.found [
  | none ↦ ([], pending, false)
  | some words ↦
      let (rest, left, done) = find_in_batches u turns [] in
      let (sent, ok) = flush (pending ++ write_words u words) turn.flushed turn.spilled in
      if ok then (sent ++ rest, left, done) else (sent, [], false)
]

-- What the writer gets, and whether there is no error. The last arguments are of the last flush.
unfoldable pub export_to_writer : Unicode → List BatchTurn → Bool → ℕ → Text × Bool
unfolding csv_record find_in_batches flush
export_to_writer u turns flushed spilled =
    let (sent, left, done) = find_in_batches u turns (csv_record u export_header) in
    let (rest, ok) = flush left flushed spilled in
    if done then (sent ++ rest, ok) else (sent, false)
