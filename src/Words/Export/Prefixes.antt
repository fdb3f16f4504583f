-- ===== src/Words/Export/Prefixes.antt =====
-- What a reader of comma-separated values finds in the start of a text.
use mathlib.Core.List.{append_assoc, append-nil}
use censorhub.Prelude.{ℕ, ◌≡◌, refl, sym, ap, ◌∙◌, inl, inr, List, [], ◌∷◌, ◌++◌, ◌==◌, Bool-cases}
use censorhub.Text.{Text}
use censorhub.Words.Export.{line_feed, quote, comma}
use censorhub.Words.Export.Reading.{
  start, plain, quoted, closing, ReadMode, Reader, read_plain, read_rune, read_runes, reader,
  read_csv, read_runes-append,
}

-- A rune adds records to those that were read, and takes none away.
read_plain-rows :
    (c : ℕ) (s : Reader) → (more : List (List Text)) × (s.rows ++ more ≡ (read_plain c s).rows)
unfolding read_plain
read_plain-rows c s = elim (Bool-cases (c == comma)) [
  | inl y ↦ ([], rw (y) (append-nil s.rows))
  | inr n ↦ elim (Bool-cases (c == line_feed)) [
    | inl y ↦ ((s.row ++ s.field ∷ []) ∷ [], rw (n, y) refl)
    | inr m ↦ ([], rw (n, m) (append-nil s.rows))
  ]
]

read_rune-rows :
    (c : ℕ) (m : ReadMode) (f : Text) (r : List Text) (rs : List (List Text))
    → (more : List (List Text)) × (rs ++ more ≡ (read_rune c (reader m f r rs)).rows)
unfolding read_rune
read_rune-rows c plain f r rs = read_plain-rows c (reader plain f r rs)
read_rune-rows c start f r rs = elim (Bool-cases (c == quote)) [
  | inl y ↦ ([], rw (y) (append-nil rs))
  | inr n ↦ rw (n) (read_plain-rows c (reader start f r rs))
]
read_rune-rows c quoted f r rs = elim (Bool-cases (c == quote)) [
  | inl y ↦ ([], rw (y) (append-nil rs))
  | inr n ↦ ([], rw (n) (append-nil rs))
]
read_rune-rows c closing f r rs = elim (Bool-cases (c == quote)) [
  | inl y ↦ ([], rw (y) (append-nil rs))
  | inr n ↦ rw (n) (read_plain-rows c (reader closing f r rs))
]

read_runes-rows :
    (cs : Text) (s : Reader) → (more : List (List Text)) × (s.rows ++ more ≡ (read_runes cs s).rows)
unfolding read_runes
read_runes-rows [] s = ([], append-nil s.rows)
read_runes-rows (c ∷ cs) s =
    let (first, e) = read_rune-rows c s.mode s.field s.row s.rows in
    let (more, h) = read_runes-rows cs (read_rune c s) in
    (first ++ more, sym (append_assoc s.rows first more) ∙ ap (λ x. x ++ more) e ∙ h)

-- The records of the start of a text are the first of its records.
pub read_csv-append :
    (a b : Text) → (more : List (List Text)) × (read_csv a ++ more ≡ read_csv (a ++ b))
unfolding read_csv
read_csv-append a b =
    let (more, e) = read_runes-rows b (read_runes a (reader start [] [] [])) in
    (more, e ∙ ap (λ (s : Reader). s.rows) (sym (read_runes-append a b (reader start [] [] []))))
