-- ===== src/Words/Requests.antt =====
-- Requests to the word service, one after the other, and the table of words.
use mathlib.Core.Option.{some-injective}
use censorhub.Prelude.{
  ℕ, ◌<◌, ◌≡◌, refl, sym, ap, ◌∙◌, Bool, some, List, [], ◌∷◌, ◌==◌, All, ◌||◌, is_empty, Bool-cases,
  Option-cases, inl, inr,
}
use censorhub.Text.{Text, Unicode}
use censorhub.Domain.{parse_category, parse_risk_level}
use censorhub.Domain.Word.{SensitiveWord, validate, IsValidWord, validate-IsValidWord}
use censorhub.Words.Table.{WordTable, find_by_id, create_row, update_row}
use censorhub.Words.Manage.{
  Db, Result, ok, failed, ServiceError, CreateWordRequest, UpdateWordRequest, load_word,
  apply_update, create_dto_to_entity, is_known, create_word, update_word, delete_word, valid_words,
  import_words, parsed,
}
use censorhub.Words.Keeps.{
  IsWellFormed, create_row-IsWellFormed, update_row-IsWellFormed, delete_row-IsWellFormed,
  batch_create-IsWellFormed,
}

pub data WordRequest : Type 0 where
  creates : CreateWordRequest → WordRequest
  updates : ℕ → UpdateWordRequest → WordRequest
  deletes_id : ℕ → WordRequest
  imports : List CreateWordRequest → WordRequest

pub Result-cases {ℓ} :
    {A : Type 0} (P : Type ℓ) (r : Result A)
    → ((e : ServiceError) → r ≡ failed e → P)
    → ((a : A) → r ≡ ok a → P)
    → P
Result-cases P (failed e) f g = f e refl
Result-cases P (ok a) f g = g a refl

find_by_id-All :
    (P : SensitiveWord → Type 0) (id : ℕ) (ws : List SensitiveWord) (w : SensitiveWord)
    → find_by_id id ws ≡ some w
    → All P ws
    → P w
unfolding find_by_id
find_by_id-All P id [] w h all = cc
find_by_id-All P id (v ∷ ws) w h (p, all) = elim (Bool-cases (v.id == id)) [
  | inl y ↦ rw (some-injective v w (rw (y) at h)) at p
  | inr n ↦ find_by_id-All P id ws w (rw (n) at h) all
]

pub ok-injective : {A : Type 0} (a b : A) → ok a ≡ ok b → a ≡ b
ok-injective a b e = cc

pub load_word-found :
    (db : Db) (id : ℕ) (t : WordTable) (w : SensitiveWord)
    → load_word db id t ≡ ok w
    → find_by_id id t.rows ≡ some w
unfolding load_word
load_word-found db id t w h = elim (Bool-cases db.reads) [
  | inr d ↦ let failure = rw (load_word, d) at h in cc
  | inl d ↦ elim (Option-cases (find_by_id id t.rows)) [
    | inl e ↦ let failure = rw (load_word, d, e) at h in cc
    | inr (v, e) ↦ e ∙ ap some (ok-injective v w (rw (load_word, d, e) at h))
  ]
]

id_of : SensitiveWord → Result SensitiveWord → ℕ
id_of old (ok w) = w.id
id_of old (failed e) = old.id

pub apply_update-id :
    (u : Unicode) (req : UpdateWordRequest) (old word : SensitiveWord)
    → apply_update u req old ≡ ok word
    → word.id ≡ old.id
unfolding apply_update id_of
apply_update-id u req old word h =
    elim (Option-cases (parsed parse_category req.category old.category)) [
      | inl e ↦ let failure = rw (apply_update, e) at h in cc
      | inr (c, e) ↦ elim (Option-cases (parsed parse_risk_level req.level old.level)) [
        | inl f ↦ let failure = rw (apply_update, e, f) at h in cc
        | inr (l, f) ↦
            sym (ap (λ (r : Result SensitiveWord). id_of old r) (rw (apply_update, e, f) at h))
      ]
    ]

module _ (same : Text → Text → Bool) (u : Unicode) where
  unfoldable pub handle : Db → ℕ → WordRequest → WordTable → WordTable
  unfolding create_word update_word delete_word import_words
  handle db now (creates req) t = (create_word same u db now req t).1
  handle db now (updates id req) t = (update_word same u db now id req t).1
  handle db now (deletes_id id) t = (delete_word db id t).1
  handle db now (imports requests) t = (import_words same u db now requests t).1

  unfoldable pub handle_all : List (Db × ℕ × WordRequest) → WordTable → WordTable
  unfolding handle
  handle_all [] t = t
  handle_all ((db, now, r) ∷ rs) t = handle_all rs (handle db now r t)

  create_word-IsWellFormed :
      (db : Db) (now : ℕ) (req : CreateWordRequest) (t : WordTable)
      → IsWellFormed same t
      → IsWellFormed same (create_word same u db now req t).1
  unfolding create_word
  create_word-IsWellFormed db now req t good =
      let word = create_dto_to_entity u req in
      elim (Option-cases (validate word)) [
        | inr (e, v) ↦ rw (create_word, v) good
        | inl v ↦ elim (Bool-cases (is_known same u db word.text t)) [
          | inl k ↦ rw (create_word, v, k) good
          | inr k ↦ elim (Bool-cases db.writes) [
            | inr d ↦ rw (create_word, v, k, d) good
            | inl d ↦ elim (Option-cases (create_row same now word t)) [
              | inl c ↦ rw (create_word, v, k, d, c) good
              | inr ((row, t'), c) ↦
                  rw (create_word, v, k, d, c)
                    (create_row-IsWellFormed same now word row t t'
                      ((validate-IsValidWord word).0 v) good c)
            ]
          ]
        ]
      ]

  delete_word-IsWellFormed :
      (db : Db) (id : ℕ) (t : WordTable)
      → IsWellFormed same t
      → IsWellFormed same (delete_word db id t).1
  unfolding delete_word
  delete_word-IsWellFormed db id t good =
      Result-cases (IsWellFormed same (delete_word db id t).1) (load_word db id t)
        (λ e f. rw (delete_word, f) good)
        (λ w f. elim (Bool-cases db.writes) [
          | inl d ↦ rw (delete_word, f, d) (delete_row-IsWellFormed same id t good)
          | inr d ↦ rw (delete_word, f, d) good
        ])

  valid_words-All : (rs : List CreateWordRequest) → All IsValidWord (valid_words same u rs).0
  unfolding valid_words
  valid_words-All [] = tt
  valid_words-All (r ∷ rs) = elim (Option-cases (validate (create_dto_to_entity u r))) [
    | inr (e, v) ↦ rw (valid_words, v) (valid_words-All rs)
    | inl v ↦
        rw (valid_words, v)
          ((validate-IsValidWord (create_dto_to_entity u r)).0 v, valid_words-All rs)
  ]

  import_words-IsWellFormed :
      (db : Db) (now : ℕ) (rs : List CreateWordRequest) (t : WordTable)
      → IsWellFormed same t
      → IsWellFormed same (import_words same u db now rs t).1
  unfolding import_words
  import_words-IsWellFormed db now rs t good =
      elim (Bool-cases (db.writes || is_empty (valid_words same u rs).0)) [
        | inl y ↦
            rw (import_words, y)
              (batch_create-IsWellFormed same now (valid_words same u rs).0 t (valid_words-All rs)
                good)
        | inr n ↦ rw (import_words, n) good
      ]

  update_word-IsWellFormed :
      (db : Db) (now id : ℕ) (req : UpdateWordRequest) (t : WordTable)
      → ((a b : Text) → same a b ≡ same b a)
      → IsWellFormed same t
      → IsWellFormed same (update_word same u db now id req t).1
  unfolding update_word
  update_word-IsWellFormed db now id req t symmetric good =
      Result-cases (IsWellFormed same (update_word same u db now id req t).1) (load_word db id t)
        (λ e f. rw (update_word, f) good)
        (λ old f.
          Result-cases (IsWellFormed same (update_word same u db now id req t).1)
            (apply_update u req old) (λ e g. rw (update_word, f, g) good)
            (λ word g.
              let low : word.id < t.next_id = rw (apply_update-id u req old word g) (
                find_by_id-All (λ (w : SensitiveWord). w.id < t.next_id) id t.rows old
                  (load_word-found db id t old f) good.below) in
              elim (Option-cases (validate word)) [
                | inr (e, v) ↦ rw (update_word, f, g, v) good
                | inl v ↦ elim (Bool-cases db.writes) [
                  | inr d ↦ rw (update_word, f, g, v, d) good
                  | inl d ↦ elim (Option-cases (update_row same now word t)) [
                    | inl r ↦ rw (update_word, f, g, v, d, r) good
                    | inr (t', r) ↦
                        rw (update_word, f, g, v, d, r)
                          (update_row-IsWellFormed same now word t t' symmetric
                            ((validate-IsValidWord word).0 v) low good r)
                  ]
                ]
              ]))

  handle-IsWellFormed :
      (db : Db) (now : ℕ) (r : WordRequest) (t : WordTable)
      → ((a b : Text) → same a b ≡ same b a)
      → IsWellFormed same t
      → IsWellFormed same (handle db now r t)
  unfolding handle
  handle-IsWellFormed db now (creates req) t symmetric good =
      create_word-IsWellFormed db now req t good
  handle-IsWellFormed db now (updates id req) t symmetric good =
      update_word-IsWellFormed db now id req t symmetric good
  handle-IsWellFormed db now (deletes_id id) t symmetric good =
      delete_word-IsWellFormed db id t good
  handle-IsWellFormed db now (imports rs) t symmetric good =
      import_words-IsWellFormed db now rs t good

  -- For a collation that is symmetric, any requests, with any failures of the database, keep the
  -- table well formed: every word is valid, no two have the same identifier or the same text, and
  -- the identifiers are below the next one.
  pub handle_all-IsWellFormed :
      (requests : List (Db × ℕ × WordRequest)) (t : WordTable)
      → ((a b : Text) → same a b ≡ same b a)
      → IsWellFormed same t
      → IsWellFormed same (handle_all requests t)
  unfolding handle_all
  handle_all-IsWellFormed [] t symmetric good = good
  handle_all-IsWellFormed ((db, now, r) ∷ rs) t symmetric good =
      handle_all-IsWellFormed rs (handle db now r t) symmetric
        (handle-IsWellFormed db now r t symmetric good)
