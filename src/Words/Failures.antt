-- ===== src/Words/Failures.antt =====
-- A request to the word service that fails.
use censorhub.Prelude.{ℕ, ◌≡◌, refl, Bool, ◌||◌, is_empty, List, Bool-cases, Option-cases, inl, inr}
use censorhub.Text.{Text, Unicode}
use censorhub.Domain.Word.{validate}
use censorhub.Words.Table.{WordTable, create_row, update_row}
use censorhub.Words.Manage.{
  Db, Result, ok, failed, CreateWordRequest, UpdateWordRequest, load_word, apply_update,
  create_dto_to_entity, is_known, create_word, update_word, delete_word, valid_words, import_words,
}
use censorhub.Words.Requests.{Result-cases}

-- The answer of a request, and the table before it.
abbrev pub LeavesTable : {A : Type 0} → WordTable → Result A × WordTable → Type 0
LeavesTable t (failed e, t') = t' ≡ t
LeavesTable t (ok a, t') = Unit

module _ (same : Text → Text → Bool) (u : Unicode) where
  pub create_word-LeavesTable :
      (db : Db) (now : ℕ) (req : CreateWordRequest) (t : WordTable)
      → LeavesTable t (create_word same u db now req t)
  unfolding create_word
  create_word-LeavesTable db now req t =
      let word = create_dto_to_entity u req in
      elim (Option-cases (validate word)) [
        | inr (e, v) ↦ rw (create_word, v) refl
        | inl v ↦ elim (Bool-cases (is_known same u db word.text t)) [
          | inl k ↦ rw (create_word, v, k) refl
          | inr k ↦ elim (Bool-cases db.writes) [
            | inr d ↦ rw (create_word, v, k, d) refl
            | inl d ↦ elim (Option-cases (create_row same now word t)) [
              | inl c ↦ rw (create_word, v, k, d, c) refl
              | inr ((row, t'), c) ↦ rw (create_word, v, k, d, c) tt
            ]
          ]
        ]
      ]

  pub update_word-LeavesTable :
      (db : Db) (now id : ℕ) (req : UpdateWordRequest) (t : WordTable)
      → LeavesTable t (update_word same u db now id req t)
  unfolding update_word
  update_word-LeavesTable db now id req t =
      Result-cases (LeavesTable t (update_word same u db now id req t)) (load_word db id t)
        (λ e f. rw (update_word, f) refl)
        (λ old f.
          Result-cases (LeavesTable t (update_word same u db now id req t)) (apply_update u req old)
            (λ e g. rw (update_word, f, g) refl)
            (λ word g. elim (Option-cases (validate word)) [
              | inr (e, v) ↦ rw (update_word, f, g, v) refl
              | inl v ↦ elim (Bool-cases db.writes) [
                | inr d ↦ rw (update_word, f, g, v, d) refl
                | inl d ↦ elim (Option-cases (update_row same now word t)) [
                  | inl r ↦ rw (update_word, f, g, v, d, r) refl
                  | inr (t', r) ↦ rw (update_word, f, g, v, d, r) tt
                ]
              ]
            ]))

  pub delete_word-LeavesTable :
      (db : Db) (id : ℕ) (t : WordTable) → LeavesTable t (delete_word db id t)
  unfolding delete_word
  delete_word-LeavesTable db id t =
      Result-cases (LeavesTable t (delete_word db id t)) (load_word db id t)
        (λ e f. rw (delete_word, f) refl)
        (λ w f. elim (Bool-cases db.writes) [
          | inl d ↦ rw (delete_word, f, d) tt
          | inr d ↦ rw (delete_word, f, d) refl
        ])

  pub import_words-LeavesTable :
      (db : Db) (now : ℕ) (rs : List CreateWordRequest) (t : WordTable)
      → LeavesTable t (import_words same u db now rs t)
  unfolding import_words
  import_words-LeavesTable db now rs t =
      elim (Bool-cases (db.writes || is_empty (valid_words same u rs).0)) [
        | inl y ↦ rw (import_words, y) tt
        | inr n ↦ rw (import_words, n) refl
      ]

  -- Whatever the request and the state of the database, a creation, an update, a deletion or an
  -- import that answers with an error leaves the table as it was.
  pub requests-LeavesTable :
      (db : Db) (now id : ℕ) (create : CreateWordRequest) (update : UpdateWordRequest)
      (rs : List CreateWordRequest) (t : WordTable)
      → LeavesTable t (create_word same u db now create t)
        × LeavesTable t (update_word same u db now id update t)
        × LeavesTable t (delete_word db id t)
        × LeavesTable t (import_words same u db now rs t)
  requests-LeavesTable db now id create update rs t = (
    create_word-LeavesTable db now create t,
    update_word-LeavesTable db now id update t,
    delete_word-LeavesTable db id t,
    import_words-LeavesTable db now rs t,
  )
