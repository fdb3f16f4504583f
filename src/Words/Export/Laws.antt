-- ===== src/Words/Export/Laws.antt =====
-- A reader finds in an export the words that it was made from.
use mathlib.Core.List.{append_assoc, append-nil}
use censorhub.Prelude.{
  ℕ, ◌≡◌, refl, sym, ap, ◌∙◌, ◌⊎◌, inl, inr, Bool, true, false, ◌&&◌, none, some, List, [], ◌∷◌,
  ◌++◌, map, take, drop, take-append-drop,
}
use censorhub.Text.{Text, Unicode}
use censorhub.Domain.Word.{SensitiveWord}
use censorhub.Words.Export.{
  csv_record, export_header, word_fields, write_words, exported_rows, BatchTurn, flush,
  find_in_batches, export_to_writer,
}
use censorhub.Words.Export.Prefixes.{read_csv-append}
use censorhub.Words.Export.Reading.{
  start, Reader, read_runes, reader, read_csv, read_runes-csv_record,
}

-- The batches are those of a list in its order, up to an error of the database.
pub data Finds : List BatchTurn → List SensitiveWord → Type 0 where
  finished : Finds [] []
  failing :
      {turns : List BatchTurn} {words : List SensitiveWord} (flushed : Bool) (spilled : ℕ)
      → Finds (record { found = none; flushed = flushed; spilled = spilled } ∷ turns) words
  batch :
      {turns : List BatchTurn} {later : List SensitiveWord} (words : List SensitiveWord)
      (flushed : Bool) (spilled : ℕ)
      → Finds turns later
      → Finds
          (record { found = some words; flushed = flushed; spilled = spilled } ∷ turns)
          (words ++ later)

-- The database finds every batch, and the writer takes it.
unfoldable pub all_taken : List BatchTurn → Bool
all_taken [] = true
all_taken (turn ∷ turns) =
    let rest = all_taken turns in
    elim turn.found [ none ↦ false | some words ↦ turn.flushed && rest ]

read_runes-write_words :
    (u : Unicode) (ws : List SensitiveWord) (rest : Text) (rs : List (List Text))
    → read_runes (write_words u ws ++ rest) (reader start [] [] rs)
      ≡ read_runes rest (reader start [] [] (rs ++ map word_fields ws))
unfolding write_words word_fields
read_runes-write_words u [] rest rs =
    ap (λ x. read_runes rest (reader start [] [] x)) (sym (append-nil rs))
read_runes-write_words u (w ∷ ws) rest rs =
    ap (λ x. read_runes x (reader start [] [] rs))
      (append_assoc (csv_record u (word_fields w)) (write_words u ws) rest)
    ∙ read_runes-csv_record u w.text _ (write_words u ws ++ rest) rs
    ∙ read_runes-write_words u ws rest (rs ++ word_fields w ∷ [])
    ∙ ap (λ x. read_runes rest (reader start [] [] x))
        (append_assoc rs (word_fields w ∷ []) (map word_fields ws))

write_words-append :
    (u : Unicode) (a b : List SensitiveWord)
    → write_words u (a ++ b) ≡ write_words u a ++ write_words u b
unfolding write_words
write_words-append u [] b = refl
write_words-append u (w ∷ ws) b =
    ap (λ x. csv_record u (word_fields w) ++ x) (write_words-append u ws b)
    ∙ sym (append_assoc (csv_record u (word_fields w)) (write_words u ws) (write_words u b))

and-false : (a : Bool) {b : Bool} → b ≡ false → (a && b) ≡ false
and-false false e = refl
and-false true e = e

flush-cases :
    (pending : Text) (flushed : Bool) (spilled : ℕ)
    → (flush pending flushed spilled ≡ (pending, true))
      ⊎ ((flush pending flushed spilled ≡ (take spilled pending, false)) × (flushed ≡ false))
unfolding flush
flush-cases pending true spilled = inl refl
flush-cases [] false spilled = inl refl
flush-cases (c ∷ cs) false spilled = inr (refl, refl)

-- What was sent and what is left are the whole text, or an error ends the export after a part of it.
Sent : List BatchTurn → Text → Text × Text × Bool → Type 0
Sent turns text result =
    ((result.2 ≡ true) × (result.0 ++ result.1 ≡ text))
    ⊎ ((result.2 ≡ false) × (all_taken turns ≡ false) × (later : Text) × (result.0 ++ later ≡ text))

find_in_batches-Sent :
    (u : Unicode) (turns : List BatchTurn) (words : List SensitiveWord) (pending : Text)
    → Finds turns words
    → Sent turns (pending ++ write_words u words) (find_in_batches u turns pending)
unfolding find_in_batches write_words Sent all_taken
find_in_batches-Sent u _ _ pending finished = inl (refl, sym (append-nil pending))
find_in_batches-Sent u _ words pending (failing flushed spilled) =
    inr (refl, refl, pending ++ write_words u words, refl)
find_in_batches-Sent u _ _ pending (batch {turns} {later} words flushed spilled h) =
    let text = pending ++ write_words u words in
    let whole =
      append_assoc pending (write_words u words) (write_words u later)
      ∙ ap (λ x. pending ++ x) (sym (write_words-append u words later)) in
    elim (flush-cases text flushed spilled) [
      | inl e ↦
          let out = find_in_batches u turns [] in
          elim (find_in_batches-Sent u turns later [] h) [
            | inl (done, split) ↦ inl (
                rw (flush, e)
                  (done, append_assoc text out.0 out.1 ∙ ap (λ x. text ++ x) split ∙ whole))
            | inr (done, lost, rest, split) ↦ inr (
                rw (flush, e)
                  (
                    done,
                    and-false flushed lost,
                    rest,
                    append_assoc text out.0 rest ∙ ap (λ x. text ++ x) split ∙ whole,
                  ))
          ]
      | inr (e, lost) ↦
          let rest = drop spilled text ++ write_words u later in
          inr (
            rw (flush, e)
              (
                refl,
                rw (lost) refl,
                rest,
                sym (append_assoc (take spilled text) (drop spilled text) (write_words u later))
                    ∙ ap (λ x. x ++ write_words u later) (take-append-drop spilled text)
                    ∙ whole,
              ))
    ]

-- The header and the lines of some words.
read_csv-export :
    (u : Unicode) (words : List SensitiveWord)
    → read_csv (csv_record u export_header ++ write_words u words)
      ≡ export_header ∷ map word_fields words
unfolding read_csv
read_csv-export u words =
    ap (λ (s : Reader). s.rows)
      (read_runes-csv_record u _ _ (write_words u words) []
        ∙ ap (λ x. read_runes x (reader start [] [] (export_header ∷ [])))
            (sym (append-nil (write_words u words)))
        ∙ read_runes-write_words u words [] (export_header ∷ []))

-- The start of the text of an export, with the first of its records.
unfoldable pub StartsExport : Unicode → List SensitiveWord → Text → Type 0
StartsExport u words text =
    ((rest : Text) × (text ++ rest ≡ csv_record u export_header ++ write_words u words))
    × ((later : List (List Text)) × (read_csv text ++ later
          ≡ export_header ∷ map word_fields words))

StartsExport-append :
    (u : Unicode) (words : List SensitiveWord) (text rest : Text)
    → text ++ rest ≡ csv_record u export_header ++ write_words u words
    → StartsExport u words text
unfolding StartsExport
StartsExport-append u words text rest e =
    let (later, h) = read_csv-append text rest in
    ((rest, e), (later, h ∙ ap read_csv e ∙ read_csv-export u words))

unfoldable pub Exported :
    Unicode → List BatchTurn → Bool → List SensitiveWord → Text × Bool → Type 0
Exported u turns flushed words result =
    ((result.1 ≡ true) × (read_csv result.0 ≡ export_header ∷ map word_fields words))
    ⊎ ((result.1 ≡ false) × ((all_taken turns && flushed) ≡ false) × StartsExport u words result.0)

-- An export whose batches are those of the rows that the category selects, in the order of the primary
-- key, ends without an error, and a reader of comma-separated values finds in what the writer has got
-- the header and then the fields of each of those words as they are, whatever runes they have; or it
-- ends with an error, after a batch that the database does not find or a text that the writer does not
-- take whole, and the writer has got the start of the same text, where the reader finds the first of
-- the same records, perhaps none.
pub export_to_writer-read_csv :
    (same : Text → Text → Bool) (u : Unicode) (turns : List BatchTurn) (flushed : Bool)
    (spilled : ℕ) (category : Text) (rows : List SensitiveWord)
    → Finds turns (exported_rows same category rows)
    → Exported u turns flushed
        (exported_rows same category rows)
        (export_to_writer u turns flushed spilled)
unfolding export_to_writer Exported Sent
export_to_writer-read_csv same u turns flushed spilled category rows h =
    let words = exported_rows same category rows in
    let (sent, left, done) = find_in_batches u turns (csv_record u export_header) in
    elim (find_in_batches-Sent u turns words (csv_record u export_header) h) [
      | inl (done, split) ↦ elim (flush-cases left flushed spilled) [
        | inl e ↦ inl (rw (done, flush, e) (refl, ap read_csv split ∙ read_csv-export u words))
        | inr (e, lost) ↦
            let rest = drop spilled left in
            let whole =
              append_assoc sent (take spilled left) rest
              ∙ ap (λ x. sent ++ x) (take-append-drop spilled left)
              ∙ split in
            inr (
              rw (done, flush, e)
                (
                  refl,
                  rw (lost) (and-false (all_taken turns) refl),
                  StartsExport-append u words (sent ++ take spilled left) rest whole,
                ))
      ]
      | inr (done, lost, rest, split) ↦
          inr (rw (done) (refl, rw (lost) refl, StartsExport-append u words sent rest split))
    ]
