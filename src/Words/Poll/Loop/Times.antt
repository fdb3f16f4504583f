-- ===== src/Words/Poll/Loop/Times.antt =====
-- The times in a table are never later than its last write.
use mathlib.Core.Path.{subst}
use mathlib.Core.Option.{some-injective}
use censorhub.Prelude.{
  ℕ, ◌≤◌, ◌≡◌, Bool, some, List, [], ◌∷◌, ◌==◌, All, arith, Bool-cases, Option-cases, inl, inr,
}
use censorhub.Text.{Text, Unicode}
use censorhub.Domain.Word.{SensitiveWord}
use censorhub.Words.Table.{
  WordTable, delete_row, put_row, find_by_text, create_row, conflicts, update_row, batch_create,
}
use censorhub.Words.Manage.{Db, valid_words}
use censorhub.Words.Requests.{
  WordRequest, creates, updates, deletes_id, imports, handle, handle_all,
}
use censorhub.Words.Poll.Writes.{
  create_word-either, update_word-either, delete_word-either, import_words-either,
}

abbrev pub Until : ℕ → List SensitiveWord → Type 0
Until bound rows = All (λ (w : SensitiveWord). w.updated_at ≤ bound) rows

pub Until-weaken : (a b : ℕ) (ws : List SensitiveWord) → a ≤ b → Until a ws → Until b ws
Until-weaken a b [] le h = tt
Until-weaken a b (w ∷ ws) le (first, rest) = (omega arith, Until-weaken a b ws le rest)

delete_row-Until : (b id : ℕ) (ws : List SensitiveWord) → Until b ws → Until b (delete_row id ws)
unfolding delete_row
delete_row-Until b id [] h = tt
delete_row-Until b id (w ∷ ws) (first, rest) = elim (Bool-cases (w.id == id)) [
  | inl y ↦ rw y (delete_row-Until b id ws rest)
  | inr n ↦ rw n (first, delete_row-Until b id ws rest)
]

put_row-Until :
    (b : ℕ) (word : SensitiveWord) (ws : List SensitiveWord)
    → word.updated_at ≤ b
    → Until b ws
    → Until b (put_row word ws)
unfolding put_row
put_row-Until b word [] le h = tt
put_row-Until b word (w ∷ ws) le (first, rest) = elim (Bool-cases (w.id == word.id)) [
  | inl y ↦ rw y (le, rest)
  | inr n ↦ rw n (first, put_row-Until b word ws le rest)
]

module _ (b : ℕ) (same : Text → Text → Bool) (u : Unicode) where
  create_row-Until :
      (now : ℕ) (w row : SensitiveWord) (t t' : WordTable)
      → now ≤ b
      → create_row same now w t ≡ some (row, t')
      → Until b t.rows
      → Until b t'.rows
  unfolding create_row
  create_row-Until now w row t t' le e h = elim (Option-cases (find_by_text same w.text t.rows)) [
    | inr (v, f) ↦ let failure = rw (create_row, f) at e in absurd (ground arith)
    | inl f ↦
        let made = some-injective _ (row, t') (rw (create_row, f) at e) in
        subst (λ (x : SensitiveWord × WordTable). Until b x.1.rows) made (le, h)
  ]

  batch_create-Until :
      (now : ℕ) (ws : List SensitiveWord) (t : WordTable)
      → now ≤ b
      → Until b t.rows
      → Until b (batch_create same now ws t).1.rows
  unfolding batch_create
  batch_create-Until now [] t le h = h
  batch_create-Until now (w ∷ ws) t le h = elim (Option-cases (create_row same now w t)) [
    | inl e ↦ rw (batch_create, e) (batch_create-Until now ws t le h)
    | inr ((row, t'), e) ↦
        rw (batch_create, e)
          (batch_create-Until now ws t' le (create_row-Until now w row t t' le e h))
  ]

  update_row-Until :
      (now : ℕ) (w : SensitiveWord) (t t' : WordTable)
      → now ≤ b
      → update_row same now w t ≡ some t'
      → Until b t.rows
      → Until b t'.rows
  unfolding update_row
  update_row-Until now w t t' le e h = elim (Bool-cases (conflicts same w t.rows)) [
    | inl y ↦ let failure = rw (update_row, y) at e in absurd (ground arith)
    | inr n ↦
        let made = some-injective _ t' (rw (update_row, n) at e) in
        subst (λ (x : WordTable). Until b x.rows) made
          (put_row-Until b (record w { updated_at = now }) t.rows le h)
  ]

  handle-Until :
      (db : Db) (now : ℕ) (r : WordRequest) (t : WordTable)
      → now ≤ b
      → Until b t.rows
      → Until b (handle same u db now r t).rows
  unfolding handle
  handle-Until db now (creates req) t le h =
      create_word-either same u (λ x. Until b x.rows) db now req t h
        (λ w row t' e. create_row-Until now w row t t' le e h)
  handle-Until db now (updates id req) t le h =
      update_word-either same u (λ x. Until b x.rows) db now id req t h
        (λ w t' e. update_row-Until now w t t' le e h)
  handle-Until db now (deletes_id id) t le h =
      delete_word-either same u (λ x. Until b x.rows) db id t h (delete_row-Until b id t.rows h)
  handle-Until db now (imports rs) t le h =
      import_words-either same u (λ x. Until b x.rows) db now rs t h
        (batch_create-Until now (valid_words same u rs).0 t le h)

  pub handle_all-Until :
      (requests : List (Db × ℕ × WordRequest)) (t : WordTable)
      → All (λ (r : Db × ℕ × WordRequest). r.1 ≤ b) requests
      → Until b t.rows
      → Until b (handle_all same u requests t).rows
  unfolding handle_all
  handle_all-Until [] t late h = h
  handle_all-Until ((db, now, r) ∷ rs) t (first, rest) h =
      handle_all-Until rs (handle same u db now r t) rest (handle-Until db now r t first h)
