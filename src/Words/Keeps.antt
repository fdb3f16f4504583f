-- ===== src/Words/Keeps.antt =====
-- Every request to the word service keeps the table of words well formed.
use mathlib.Core.Option.{some-injective}
use censorhub.Prelude.{
  ℕ, suc, ◌<◌, ◌≡◌, ◌≢◌, refl, ap, ◌∙◌, false, Bool, none, some, List, [], ◌∷◌, ◌==◌, All, arith,
  Bool-cases, Option-cases, inl, inr, not, ◌&&◌, ◌||◌,
}
use censorhub.Text.{Text}
use censorhub.Domain.Word.{SensitiveWord, IsValidWord}
use censorhub.Words.Table.{
  WordTable, find_by_text, create_row, update_row, conflicts, put_row, delete_row, batch_create,
}

-- Other identifiers and other texts.
abbrev pub Differs : (Text → Text → Bool) → SensitiveWord → SensitiveWord → Type 0
Differs same w v = (w.id ≢ v.id) × (same w.text v.text ≡ false)

abbrev pub Apart : (Text → Text → Bool) → List SensitiveWord → Type 0
Apart same [] = Unit
Apart same (w ∷ ws) = All (Differs same w) ws × Apart same ws

pub record IsWellFormed (same : Text → Text → Bool) (t : WordTable) : Type 0 where
  pub valid : All IsValidWord t.rows
  pub below : All (λ (w : SensitiveWord). w.id < t.next_id) t.rows
  pub apart : Apart same t.rows

module _ (same : Text → Text → Bool) where
  fresh-Differs :
      (row : SensitiveWord) (next : ℕ) (ws : List SensitiveWord)
      → row.id ≡ next
      → find_by_text same row.text ws ≡ none
      → All (λ (w : SensitiveWord). w.id < next) ws
      → All (Differs same row) ws
  unfolding find_by_text
  fresh-Differs row next [] e h below = tt
  fresh-Differs row next (w ∷ ws) e h (low, below) = elim (Bool-cases (same row.text w.text)) [
    | inl y ↦ ground arith
    | inr n ↦ (((λ q. ground arith), n), fresh-Differs row next ws e (ground arith) below)
  ]

  suc-below :
      (next : ℕ) (ws : List SensitiveWord)
      → All (λ (w : SensitiveWord). w.id < next) ws
      → All (λ (w : SensitiveWord). w.id < suc next) ws
  suc-below next [] h = tt
  suc-below next (w ∷ ws) (low, h) = (omega arith, suc-below next ws h)

  same_fields :
      (word new : SensitiveWord)
      → new.text ≡ word.text
      → new.category ≡ word.category
      → new.level ≡ word.level
      → IsValidWord word
      → IsValidWord new
  same_fields word new a b c valid = record {
    not_empty = rw (a) valid.not_empty;
    not_long = rw (a) valid.not_long;
    category = rw (b) valid.category;
    level = rw (c) valid.level;
  }

  -- A valid word whose text no row has is put into the table.
  pub create_row-IsWellFormed :
      (now : ℕ) (word row : SensitiveWord) (t t' : WordTable)
      → IsValidWord word
      → IsWellFormed same t
      → create_row same now word t ≡ some (row, t')
      → IsWellFormed same t'
  unfolding create_row
  create_row-IsWellFormed now word row t t' valid ok h =
      let new : SensitiveWord = record word {
        id = t.next_id;
        created_at = now;
        updated_at = now;
      } in
      let table : WordTable = record { rows = new ∷ t.rows; next_id = suc t.next_id } in
      elim (Option-cases (find_by_text same word.text t.rows)) [
        | inr (w, e) ↦ let none_left = rw (create_row, e) at h in cc
        | inl e ↦
            let made : table ≡ t' =
              ap (λ (p : SensitiveWord × WordTable). p.1)
                (some-injective (new, table) (row, t') (rw (create_row, e) at h)) in
            let kept : IsWellFormed same table = record {
              valid = (same_fields word new refl refl refl valid, ok.valid);
              below = (omega arith, suc-below t.next_id t.rows ok.below);
              apart = (fresh-Differs new t.next_id t.rows refl e ok.below, ok.apart);
            } in
            rw (made) at kept
      ]

  All-put_row :
      (P : SensitiveWord → Type 0) (row : SensitiveWord) (ws : List SensitiveWord)
      → P row
      → All P ws
      → All P (put_row row ws)
  unfolding put_row
  All-put_row P row [] p h = tt
  All-put_row P row (w ∷ ws) p (q, h) = elim (Bool-cases (w.id == row.id)) [
    | inl y ↦ rw (y) (p, h)
    | inr n ↦ rw (n) (q, All-put_row P row ws p h)
  ]

  others-Differ :
      (row w : SensitiveWord) (ws : List SensitiveWord)
      → w.id ≡ row.id
      → conflicts same row ws ≡ false
      → All (Differs same w) ws
      → All (Differs same row) ws
  unfolding conflicts
  others-Differ row w [] e free h = tt
  others-Differ row w (v ∷ ws) e free ((apart_id, _), h) =
      let new_id : row.id ≢ v.id = λ q. apart_id (e ∙ q) in
      elim (Bool-cases (same row.text v.text)) [
        | inl y ↦ ground arith
        | inr n ↦ ((new_id, n), others-Differ row w ws e (ground arith) h)
      ]

  put_row-Apart :
      (row : SensitiveWord) (ws : List SensitiveWord)
      → ((a b : Text) → same a b ≡ same b a)
      → conflicts same row ws ≡ false
      → Apart same ws
      → Apart same (put_row row ws)
  unfolding put_row conflicts
  put_row-Apart row [] symmetric free h = tt
  put_row-Apart row (w ∷ ws) symmetric free (others, h) = elim (Bool-cases (w.id == row.id)) [
    | inl y ↦ rw (y) (others-Differ row w ws (ground arith) (ground arith) others, h)
    | inr n ↦
        let other : same w.text row.text ≡ false = symmetric w.text row.text ∙ ground arith in
        rw (n) (
          All-put_row (Differs same w) row ws ((λ e. ground arith), other) others,
          put_row-Apart row ws symmetric (ground arith) h,
        )
  ]

  delete_row-All :
      (P : SensitiveWord → Type 0) (id : ℕ) (ws : List SensitiveWord)
      → All P ws
      → All P (delete_row id ws)
  unfolding delete_row
  delete_row-All P id [] h = tt
  delete_row-All P id (w ∷ ws) (q, h) = elim (Bool-cases (w.id == id)) [
    | inl y ↦ rw (y) (delete_row-All P id ws h)
    | inr n ↦ rw (n) (q, delete_row-All P id ws h)
  ]

  delete_row-Apart :
      (id : ℕ) (ws : List SensitiveWord) → Apart same ws → Apart same (delete_row id ws)
  unfolding delete_row
  delete_row-Apart id [] h = tt
  delete_row-Apart id (w ∷ ws) (others, h) = elim (Bool-cases (w.id == id)) [
    | inl y ↦ rw (y) (delete_row-Apart id ws h)
    | inr n ↦ rw (n) (delete_row-All (Differs same w) id ws others, delete_row-Apart id ws h)
  ]

  conflicts-row :
      (now : ℕ) (word : SensitiveWord) (ws : List SensitiveWord)
      → conflicts same (record word { updated_at = now }) ws ≡ conflicts same word ws
  unfolding conflicts
  conflicts-row now word [] = refl
  conflicts-row now word (w ∷ ws) =
      ap (λ b. not (w.id == word.id) && same word.text w.text || b) (conflicts-row now word ws)

  pub update_row-IsWellFormed :
      (now : ℕ) (word : SensitiveWord) (t t' : WordTable)
      → ((a b : Text) → same a b ≡ same b a)
      → IsValidWord word
      → word.id < t.next_id
      → IsWellFormed same t
      → update_row same now word t ≡ some t'
      → IsWellFormed same t'
  unfolding update_row conflicts
  update_row-IsWellFormed now word t t' symmetric valid low ok h =
      let row : SensitiveWord = record word { updated_at = now } in
      let table : WordTable = record t { rows = put_row row t.rows } in
      elim (Bool-cases (conflicts same word t.rows)) [
        | inl y ↦ let none_left = rw (update_row, y) at h in cc
        | inr n ↦
            let made : table ≡ t' = some-injective table t' (rw (update_row, n) at h) in
            let kept : IsWellFormed same table = record {
              valid =
                  All-put_row IsValidWord row t.rows (same_fields word row refl refl refl valid)
                    ok.valid;
              below = All-put_row (λ (w : SensitiveWord). w.id < t.next_id) row t.rows low ok.below;
              apart =
                  put_row-Apart row t.rows symmetric (conflicts-row now word t.rows ∙ n) ok.apart;
            } in
            rw (made) at kept
      ]

  pub delete_row-IsWellFormed :
      (id : ℕ) (t : WordTable)
      → IsWellFormed same t
      → IsWellFormed same (record t { rows = delete_row id t.rows })
  delete_row-IsWellFormed id t ok = record {
    valid = delete_row-All IsValidWord id t.rows ok.valid;
    below = delete_row-All (λ (w : SensitiveWord). w.id < t.next_id) id t.rows ok.below;
    apart = delete_row-Apart id t.rows ok.apart;
  }

  pub batch_create-IsWellFormed :
      (now : ℕ) (ws : List SensitiveWord) (t : WordTable)
      → All IsValidWord ws
      → IsWellFormed same t
      → IsWellFormed same (batch_create same now ws t).1
  unfolding batch_create
  batch_create-IsWellFormed now [] t valid ok = ok
  batch_create-IsWellFormed now (w ∷ ws) t (here, valid) ok =
      elim (Option-cases (create_row same now w t)) [
        | inl e ↦ rw (batch_create, e) (batch_create-IsWellFormed now ws t valid ok)
        | inr ((row, t'), e) ↦
            rw (batch_create, e)
              (batch_create-IsWellFormed now ws t' valid
                (create_row-IsWellFormed now w row t t' here ok e))
      ]
