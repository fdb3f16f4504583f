-- ===== src/Words/Export/Reading.antt =====
-- A reader of comma-separated values by RFC 4180 with a line feed at the end of a line, and that it
-- reads every record that the export writes.
use mathlib.Core.List.{append_assoc, append-nil}
use mathlib.Core.Path.{subst}
use censorhub.Prelude.{
  ℕ, ◌≡◌, refl, sym, ap, ◌∙◌, ◌⊎◌, inl, inr, false, List, [], ◌∷◌, ◌++◌, ◌==◌, if◌then◌else◌, arith,
  Bool-cases, ==_iff,
}
use censorhub.Text.{Text, Unicode}
use censorhub.Words.Export.{
  line_feed, quote, comma, has_special, needs_quotes, quoted_runes, csv_field, csv_fields,
  csv_record,
}

-- At the start of a field, in a plain or a quoted one, or after a quote in a quoted one.
pub data ReadMode : Type 0 where
  start plain quoted closing : ReadMode

pub record Reader : Type 0 where
  pub mode : ReadMode
  pub field : Text
  pub row : List Text
  pub rows : List (List Text)

unfoldable pub read_plain : ℕ → Reader → Reader
read_plain c s =
    if c == comma
    then record s { mode = start; field = []; row = s.row ++ s.field ∷ [] }
    else if c == line_feed
    then record {
      mode = start;
      field = [];
      row = [];
      rows = s.rows ++ (s.row ++ s.field ∷ []) ∷ [];
    }
    else record s { mode = plain; field = s.field ++ c ∷ [] }

unfoldable pub read_rune : ℕ → Reader → Reader
unfolding read_plain
read_rune c s = elim s.mode [
  | start ↦ if c == quote then record s { mode = quoted } else read_plain c s
  | plain ↦ read_plain c s
  | quoted ↦
      if c == quote then record s { mode = closing } else record s { field = s.field ++ c ∷ [] }
  | closing ↦
      if c == quote then record s { mode = quoted; field = s.field ++ c ∷ [] } else read_plain c s
]

unfoldable pub read_runes : Text → Reader → Reader
unfolding read_rune
read_runes [] s = s
read_runes (c ∷ cs) s = read_runes cs (read_rune c s)

abbrev pub reader : ReadMode → Text → List Text → List (List Text) → Reader
reader m f r rs = record { mode = m; field = f; row = r; rows = rs }

-- The records of a text.
unfoldable pub read_csv : Text → List (List Text)
unfolding read_runes
read_csv text = (read_runes text (reader start [] [] [])).rows

pub read_runes-append :
    (a b : Text) (s : Reader) → read_runes (a ++ b) s ≡ read_runes b (read_runes a s)
unfolding read_runes
read_runes-append [] b s = refl
read_runes-append (c ∷ cs) b s = read_runes-append cs b (read_rune c s)

-- A rune that is not quoted.
read_runes-plain :
    (cs : Text) (f : Text) (r : List Text) (rs : List (List Text))
    → has_special cs ≡ false
    → read_runes cs (reader plain f r rs) ≡ reader plain (f ++ cs) r rs
unfolding has_special read_runes read_rune read_plain
read_runes-plain [] f r rs h = ap (λ x. reader plain x r rs) (sym (append-nil f))
read_runes-plain (c ∷ cs) f r rs h =
    let not_comma : (c == comma) ≡ false = ground arith in
    let not_feed : (c == line_feed) ≡ false = ground arith in
    let later : has_special cs ≡ false = ground arith in
    rw (not_comma, not_feed)
      (read_runes-plain cs (f ++ c ∷ []) r rs later
        ∙ ap (λ x. reader plain x r rs) (append_assoc f (c ∷ []) cs))

read_rune-quoted :
    (c : ℕ) (f : Text) (r : List Text) (rs : List (List Text))
    → (c == quote) ≡ false
    → read_rune c (reader quoted f r rs) ≡ reader quoted (f ++ c ∷ []) r rs
unfolding read_rune
read_rune-quoted c f r rs h = rw (h) refl

read_runes-quoted :
    (cs : Text) (f : Text) (r : List Text) (rs : List (List Text))
    → read_runes (quoted_runes cs) (reader quoted f r rs) ≡ reader closing (f ++ cs) r rs
unfolding quoted_runes read_runes read_rune
read_runes-quoted [] f r rs = ap (λ x. reader closing x r rs) (sym (append-nil f))
read_runes-quoted (c ∷ cs) f r rs =
    let rest =
      read_runes-quoted cs (f ++ c ∷ []) r rs
      ∙ ap (λ x. reader closing x r rs) (append_assoc f (c ∷ []) cs) in
    elim (Bool-cases (c == quote)) [
      | inl y ↦
          let same : c ≡ quote = (==_iff c quote).0 y in
          rw (y) (
            subst
              (λ d.
                read_runes (quoted_runes cs) (reader quoted (f ++ d ∷ []) r rs)
                ≡ reader closing (f ++ c ∷ cs) r rs)
              same rest)
      | inr n ↦ rw (n) (ap (read_runes (quoted_runes cs)) (read_rune-quoted c f r rs n) ∙ rest)
    ]

-- A rune that ends a field.
Separates : ℕ → Type 0
Separates c = (c ≡ comma) ⊎ (c ≡ line_feed)

Separates-quote : (c : ℕ) → Separates c → (c == quote) ≡ false
unfolding Separates
Separates-quote c (inl e) = subst (λ d. (d == quote) ≡ false) (sym e) refl
Separates-quote c (inr e) = subst (λ d. (d == quote) ≡ false) (sym e) refl

read_plain-mode :
    (c : ℕ) (m m' : ReadMode) (f : Text) (r : List Text) (rs : List (List Text))
    → Separates c
    → read_plain c (reader m f r rs) ≡ read_plain c (reader m' f r rs)
unfolding Separates read_plain
read_plain-mode c m m' f r rs (inl e) =
    subst (λ d. read_plain d (reader m f r rs) ≡ read_plain d (reader m' f r rs)) (sym e) refl
read_plain-mode c m m' f r rs (inr e) =
    subst (λ d. read_plain d (reader m f r rs) ≡ read_plain d (reader m' f r rs)) (sym e) refl

has_special-needs_quotes :
    (u : Unicode) (c : ℕ) (cs : Text)
    → needs_quotes u (c ∷ cs) ≡ false
    → has_special (c ∷ cs) ≡ false
unfolding needs_quotes has_special
has_special-needs_quotes u c cs h = ground arith

read_runes-start :
    (d : ℕ) (ds : Text) (r : List Text) (rs : List (List Text))
    → has_special (d ∷ ds) ≡ false
    → read_runes (d ∷ ds) (reader start [] r rs) ≡ reader plain (d ∷ ds) r rs
unfolding has_special read_runes read_rune read_plain
read_runes-start d ds r rs h =
    let not_comma : (d == comma) ≡ false = ground arith in
    let not_quote : (d == quote) ≡ false = ground arith in
    let not_feed : (d == line_feed) ≡ false = ground arith in
    let later : has_special ds ≡ false = ground arith in
    rw (not_comma, not_quote, not_feed) (read_runes-plain ds (d ∷ []) r rs later)

-- A field with the rune after it.
read_runes-csv_field :
    (u : Unicode) (field : Text) (c : ℕ) (rest : Text) (r : List Text) (rs : List (List Text))
    → Separates c
    → read_runes (csv_field u field ++ c ∷ rest) (reader start [] r rs)
      ≡ read_runes rest (read_plain c (reader start field r rs))
unfolding csv_field needs_quotes read_runes read_rune
read_runes-csv_field u [] c rest r rs sep = rw (Separates-quote c sep) refl
read_runes-csv_field u (d ∷ ds) c rest r rs sep =
    let after = Separates-quote c sep in
    elim (Bool-cases (needs_quotes u (d ∷ ds))) [
      | inl y ↦
          rw (needs_quotes, y)
            (read_runes-append (quoted_runes (d ∷ ds)) (c ∷ rest) (reader quoted [] r rs)
              ∙ ap (read_runes (c ∷ rest)) (read_runes-quoted (d ∷ ds) [] r rs)
              ∙ rw (read_rune, after)
                  (ap (read_runes rest) (read_plain-mode c closing start (d ∷ ds) r rs sep)))
      | inr n ↦
          let bare = has_special-needs_quotes u d ds n in
          rw (needs_quotes, n)
            (read_runes-append (d ∷ ds) (c ∷ rest) (reader start [] r rs)
              ∙ ap (read_runes (c ∷ rest)) (read_runes-start d ds r rs bare)
              ∙ ap (read_runes rest) (read_plain-mode c plain start (d ∷ ds) r rs sep))
    ]

-- The fields after the first one, to the end of the line.
read_runes-csv_fields :
    (u : Unicode) (field : Text) (fields : List Text) (rest : Text) (r : List Text)
    (rs : List (List Text))
    → read_runes (csv_field u field ++ csv_fields u fields ++ rest) (reader start [] r rs)
      ≡ read_runes rest (reader start [] [] (rs ++ (r ++ field ∷ fields) ∷ []))
unfolding csv_fields read_plain Separates
read_runes-csv_fields u field [] rest r rs =
    ap (λ x. read_runes x (reader start [] r rs))
      (append_assoc (csv_field u field) (line_feed ∷ []) rest)
    ∙ read_runes-csv_field u field line_feed rest r rs (inr refl)
read_runes-csv_fields u field (next ∷ fields) rest r rs =
    ap (λ x. read_runes x (reader start [] r rs))
      (append_assoc (csv_field u field) (csv_fields u (next ∷ fields)) rest)
    ∙ read_runes-csv_field u field comma (csv_field u next ++ csv_fields u fields ++ rest) r rs
        (inl refl)
    ∙ read_runes-csv_fields u next fields rest (r ++ field ∷ []) rs
    ∙ ap (λ x. read_runes rest (reader start [] [] (rs ++ x ∷ [])))
        (append_assoc r (field ∷ []) (next ∷ fields))

-- A record of at least one field is read as it was written.
pub read_runes-csv_record :
    (u : Unicode) (field : Text) (fields : List Text) (rest : Text) (rs : List (List Text))
    → read_runes (csv_record u (field ∷ fields) ++ rest) (reader start [] [] rs)
      ≡ read_runes rest (reader start [] [] (rs ++ (field ∷ fields) ∷ []))
unfolding csv_record
read_runes-csv_record u field fields rest rs = read_runes-csv_fields u field fields rest [] rs
