-- ===== src/Words/Poll/Writes.antt =====
-- What the writes of the word service do to the rows: only rows with the time of the write are new.
use censorhub.Words.Poll.Fingerprint.{Aged, delete_row-Aged, put_row-Aged}
use mathlib.Core.Path.{subst}
use mathlib.Core.Option.{some-injective}
use censorhub.Prelude.{
  ℕ, ◌<◌, ◌≡◌, Bool, some, List, [], ◌∷◌, All, arith, Bool-cases, Option-cases, inl, inr, ◌||◌,
  is_empty,
}
use censorhub.Text.{Text, Unicode}
use censorhub.Domain.Word.{SensitiveWord, validate}
use censorhub.Words.Table.{
  WordTable, delete_row, find_by_text, create_row, conflicts, update_row, batch_create,
}
use censorhub.Words.Manage.{
  Db, CreateWordRequest, UpdateWordRequest, load_word, apply_update, create_dto_to_entity, is_known,
  create_word, update_word, delete_word, valid_words, import_words,
}
use censorhub.Words.Requests.{
  WordRequest, creates, updates, deletes_id, imports, Result-cases, handle, handle_all,
}

-- The table after a request is the old one, or what the one write of the request makes of it.
module _ (same : Text → Text → Bool) (u : Unicode) (P : WordTable → Type 0) where
  pub create_word-either :
      (db : Db) (now : ℕ) (req : CreateWordRequest) (t : WordTable)
      → P t
      → ((w row : SensitiveWord) (t' : WordTable) → create_row same now w t ≡ some (row, t') → P t')
      → P (create_word same u db now req t).1
  unfolding create_word
  create_word-either db now req t old new =
      let word = create_dto_to_entity u req in
      elim (Option-cases (validate word)) [
        | inr (e, v) ↦ rw (create_word, v) old
        | inl v ↦ elim (Bool-cases (is_known same u db word.text t)) [
          | inl k ↦ rw (create_word, v, k) old
          | inr k ↦ elim (Bool-cases db.writes) [
            | inr d ↦ rw (create_word, v, k, d) old
            | inl d ↦ elim (Option-cases (create_row same now word t)) [
              | inl c ↦ rw (create_word, v, k, d, c) old
              | inr ((row, t'), c) ↦ rw (create_word, v, k, d, c) (new word row t' c)
            ]
          ]
        ]
      ]

  pub update_word-either :
      (db : Db) (now id : ℕ) (req : UpdateWordRequest) (t : WordTable)
      → P t
      → ((w : SensitiveWord) (t' : WordTable) → update_row same now w t ≡ some t' → P t')
      → P (update_word same u db now id req t).1
  unfolding update_word
  update_word-either db now id req t old new =
      Result-cases (P (update_word same u db now id req t).1) (load_word db id t)
        (λ e f. rw (update_word, f) old)
        (λ w f.
          Result-cases (P (update_word same u db now id req t).1) (apply_update u req w)
            (λ e g. rw (update_word, f, g) old)
            (λ word g. elim (Option-cases (validate word)) [
              | inr (e, v) ↦ rw (update_word, f, g, v) old
              | inl v ↦ elim (Bool-cases db.writes) [
                | inr d ↦ rw (update_word, f, g, v, d) old
                | inl d ↦ elim (Option-cases (update_row same now word t)) [
                  | inl r ↦ rw (update_word, f, g, v, d, r) old
                  | inr (t', r) ↦ rw (update_word, f, g, v, d, r) (new word t' r)
                ]
              ]
            ]))

  pub delete_word-either :
      (db : Db) (id : ℕ) (t : WordTable)
      → P t
      → P (record t { rows = delete_row id t.rows })
      → P (delete_word db id t).1
  unfolding delete_word
  delete_word-either db id t old new =
      Result-cases (P (delete_word db id t).1) (load_word db id t) (λ e f. rw (delete_word, f) old)
        (λ w f. elim (Bool-cases db.writes) [
          | inl d ↦ rw (delete_word, f, d) new
          | inr d ↦ rw (delete_word, f, d) old
        ])

  pub import_words-either :
      (db : Db) (now : ℕ) (rs : List CreateWordRequest) (t : WordTable)
      → P t
      → P (batch_create same now (valid_words same u rs).0 t).1
      → P (import_words same u db now rs t).1
  unfolding import_words
  import_words-either db now rs t old new =
      elim (Bool-cases (db.writes || is_empty (valid_words same u rs).0)) [
        | inl y ↦ rw (import_words, y) new
        | inr n ↦ rw (import_words, n) old
      ]

module _ (at : ℕ) (same : Text → Text → Bool) (u : Unicode) where
  create_row-Aged :
      (now : ℕ) (w row : SensitiveWord) (t t' : WordTable) {xs : List SensitiveWord}
      → at < now
      → create_row same now w t ≡ some (row, t')
      → Aged at xs t.rows
      → Aged at xs t'.rows
  unfolding create_row
  create_row-Aged now w row t t' {xs} late e h =
      elim (Option-cases (find_by_text same w.text t.rows)) [
        | inr (v, f) ↦ let failure = rw (create_row, f) at e in absurd (ground arith)
        | inl f ↦
            let made = some-injective _ (row, t') (rw (create_row, f) at e) in
            subst (λ (x : SensitiveWord × WordTable). Aged at xs x.1.rows) made
              (Aged.fresh (record w { id = t.next_id; created_at = now; updated_at = now }) late h)
      ]

  batch_create-Aged :
      (now : ℕ) (ws : List SensitiveWord) (t : WordTable) {xs : List SensitiveWord}
      → at < now
      → Aged at xs t.rows
      → Aged at xs (batch_create same now ws t).1.rows
  unfolding batch_create
  batch_create-Aged now [] t late h = h
  batch_create-Aged now (w ∷ ws) t late h = elim (Option-cases (create_row same now w t)) [
    | inl e ↦ rw (batch_create, e) (batch_create-Aged now ws t late h)
    | inr ((row, t'), e) ↦
        rw (batch_create, e)
          (batch_create-Aged now ws t' late (create_row-Aged now w row t t' late e h))
  ]

  update_row-Aged :
      (now : ℕ) (w : SensitiveWord) (t t' : WordTable) {xs : List SensitiveWord}
      → at < now
      → update_row same now w t ≡ some t'
      → Aged at xs t.rows
      → Aged at xs t'.rows
  unfolding update_row
  update_row-Aged now w t t' {xs} late e h = elim (Bool-cases (conflicts same w t.rows)) [
    | inl y ↦ let failure = rw (update_row, y) at e in absurd (ground arith)
    | inr n ↦
        let made = some-injective _ t' (rw (update_row, n) at e) in
        subst (λ (x : WordTable). Aged at xs x.rows) made
          (put_row-Aged at (record w { updated_at = now }) late h)
  ]

  handle-Aged :
      (db : Db) (now : ℕ) (r : WordRequest) (t : WordTable) {xs : List SensitiveWord}
      → at < now
      → Aged at xs t.rows
      → Aged at xs (handle same u db now r t).rows
  unfolding handle
  handle-Aged db now (creates req) t {xs} late h =
      create_word-either same u (λ x. Aged at xs x.rows) db now req t h
        (λ w row t' e. create_row-Aged now w row t t' late e h)
  handle-Aged db now (updates id req) t {xs} late h =
      update_word-either same u (λ x. Aged at xs x.rows) db now id req t h
        (λ w t' e. update_row-Aged now w t t' late e h)
  handle-Aged db now (deletes_id id) t {xs} late h =
      delete_word-either same u (λ x. Aged at xs x.rows) db id t h (delete_row-Aged at id h)
  handle-Aged db now (imports rs) t {xs} late h =
      import_words-either same u (λ x. Aged at xs x.rows) db now rs t h
        (batch_create-Aged now (valid_words same u rs).0 t late h)

  pub handle_all-Aged :
      (requests : List (Db × ℕ × WordRequest)) (t : WordTable) {xs : List SensitiveWord}
      → All (λ (r : Db × ℕ × WordRequest). at < r.1) requests
      → Aged at xs t.rows
      → Aged at xs (handle_all same u requests t).rows
  unfolding handle_all
  handle_all-Aged [] t late h = h
  handle_all-Aged ((db, now, r) ∷ rs) t (first, rest) h =
      handle_all-Aged rs (handle same u db now r t) rest (handle-Aged db now r t first h)
