-- ===== src/Words/Outcomes.antt =====
-- What a request to the word service leaves for the requests after it.
use mathlib.Core.Option.{some-injective}
use mathlib.Core.Path.{subst}
use censorhub.Prelude.{
  ℕ, suc, ◌≡◌, refl, sym, ap, ◌∙◌, true, Bool, none, some, List, [], ◌∷◌, ◌==◌, arith, Bool-cases,
  Option-cases, inl, inr,
}
use censorhub.Text.{Text, Unicode, normalize_for_index}
use censorhub.Domain.{status_active}
use censorhub.Domain.Word.{SensitiveWord, validate}
use censorhub.Words.Table.{WordTable, find_by_id, find_by_text, create_row, put_row, delete_row}
use censorhub.Words.Manage.{
  Db, Result, ok, failed, word_already_exists, word_not_found, CreateWordRequest, WordResponse,
  entity_to_dto, load_word, create_dto_to_entity, is_known, create_word, delete_word, get_word,
}
use censorhub.Words.Requests.{Result-cases, ok-injective}

==_refl : (n : ℕ) → (n == n) ≡ true
==_refl n = ground arith

pub get_word-found :
    (db : Db) (id : ℕ) (t : WordTable) (w : SensitiveWord)
    → db.reads ≡ true
    → find_by_id id t.rows ≡ some w
    → get_word db id t ≡ ok (entity_to_dto w)
unfolding get_word load_word
get_word-found db id t w d e = rw (get_word, load_word, d, e) refl

find_by_id-delete_row : (id : ℕ) (ws : List SensitiveWord) → find_by_id id (delete_row id ws) ≡ none
unfolding find_by_id delete_row
find_by_id-delete_row id [] = refl
find_by_id-delete_row id (w ∷ ws) = elim (Bool-cases (w.id == id)) [
  | inl y ↦ rw (y) (find_by_id-delete_row id ws)
  | inr n ↦ rw (n, n) (find_by_id-delete_row id ws)
]

pub find_by_id-put_row :
    (row old : SensitiveWord) (ws : List SensitiveWord)
    → find_by_id row.id ws ≡ some old
    → find_by_id row.id (put_row row ws) ≡ some row
unfolding find_by_id put_row
find_by_id-put_row row old [] h = cc
find_by_id-put_row row old (w ∷ ws) h = elim (Bool-cases (w.id == row.id)) [
  | inl y ↦ rw (y, ==_refl row.id) refl
  | inr n ↦ rw (n, n) (find_by_id-put_row row old ws (rw (n) at h))
]

module _ (same : Text → Text → Bool) where
  -- What the written row is, and that it is found.
  record Written (now : ℕ) (word row : SensitiveWord) (t : WordTable) : Type 0 where
    by_id : find_by_id row.id t.rows ≡ some row
    by_text : find_by_text same word.text t.rows ≡ some row
    row_text : row.text ≡ word.text
    row_status : row.status ≡ word.status
    row_time : row.updated_at ≡ now

  create_row-Written :
      (now : ℕ) (word row : SensitiveWord) (t t' : WordTable)
      → ((a : Text) → same a a ≡ true)
      → create_row same now word t ≡ some (row, t')
      → Written now word row t'
  unfolding create_row find_by_id find_by_text
  create_row-Written now word row t t' reflexive h =
      let new : SensitiveWord = record word {
        id = t.next_id;
        created_at = now;
        updated_at = now;
      } in
      let table : WordTable = record { rows = new ∷ t.rows; next_id = suc t.next_id } in
      elim (Option-cases (find_by_text same word.text t.rows)) [
        | inr (w, e) ↦ let failure = rw (create_row, e) at h in cc
        | inl e ↦
            let made : (new, table) ≡ (row, t') =
              some-injective (new, table) (row, t') (rw (create_row, e) at h) in
            let written : Written now word new table = record {
              by_id = rw (==_refl t.next_id) refl;
              by_text = rw (reflexive word.text) refl;
              row_text = refl;
              row_status = refl;
              row_time = refl;
            } in
            subst (λ (p : SensitiveWord × WordTable). Written now word p.0 p.1) made written
      ]

  -- What a successful creation did.
  pub record Created (u : Unicode) (now : ℕ) (req : CreateWordRequest) (t t' : WordTable)
      (r : WordResponse) : Type 0 where
    pub row : SensitiveWord
    pub accepted : validate (create_dto_to_entity u req) ≡ none
    pub inserted : create_row same now (create_dto_to_entity u req) t ≡ some (row, t')
    pub shown : r ≡ entity_to_dto row

  pub create_word-Created :
      (u : Unicode) (db : Db) (now : ℕ) (req : CreateWordRequest) (t t' : WordTable)
      (r : WordResponse)
      → create_word same u db now req t ≡ (ok r, t')
      → Created u now req t t' r
  unfolding create_word
  create_word-Created u db now req t t' r h =
      let word = create_dto_to_entity u req in
      elim (Option-cases (validate word)) [
        | inr (e, v) ↦ let failure = ap (λ p. p.0) (rw (create_word, v) at h) in cc
        | inl v ↦ elim (Bool-cases (is_known same u db word.text t)) [
          | inl k ↦ let failure = ap (λ p. p.0) (rw (create_word, v, k) at h) in cc
          | inr k ↦ elim (Bool-cases db.writes) [
            | inr d ↦ let failure = ap (λ p. p.0) (rw (create_word, v, k, d) at h) in cc
            | inl d ↦ elim (Option-cases (create_row same now word t)) [
              | inl c ↦ let failure = ap (λ p. p.0) (rw (create_word, v, k, d, c) at h) in cc
              | inr ((row, t''), c) ↦
                  let done = rw (create_word, v, k, d, c) at h in
                  record {
                    row = row;
                    accepted = v;
                    inserted =
                        c ∙ ap (λ (p : Result WordResponse × WordTable). some (row, p.1)) done;
                    shown = sym (ok-injective (entity_to_dto row) r (ap (λ p. p.0) done));
                  }
            ]
          ]
        ]
      ]

  -- A word that was created is read back as the response showed it, active and with the normalized
  -- text of the request; and the same request again, on a database that answers, fails because the
  -- word exists and changes nothing. The collation is reflexive.
  pub create_word-get_word :
      (u : Unicode) (db db' : Db) (now now' : ℕ) (req : CreateWordRequest) (t t' : WordTable)
      (r : WordResponse)
      → ((a : Text) → same a a ≡ true)
      → db'.reads ≡ true
      → create_word same u db now req t ≡ (ok r, t')
      → (get_word db' r.id t' ≡ ok r)
        × (r.text ≡ normalize_for_index u req.text)
        × (r.status ≡ status_active)
        × (create_word same u db' now' req t' ≡ (failed word_already_exists, t'))
  unfolding create_word entity_to_dto create_dto_to_entity is_known
  create_word-get_word u db db' now now' req t t' r reflexive reads h =
      let c = create_word-Created u db now req t t' r h in
      let word = create_dto_to_entity u req in
      let w = create_row-Written now word c.row t t' reflexive c.inserted in
      let known : is_known same u db' word.text t' ≡ true = rw (is_known, reads, w.by_text) refl in
      (
        rw (c.shown) (get_word-found db' c.row.id t' c.row reads w.by_id),
        rw (c.shown) w.row_text,
        rw (c.shown) w.row_status,
        rw (create_word, c.accepted, known) refl,
      )

-- A word that was deleted is not found any more, on a database that answers, and deleting it again
-- fails and changes nothing.
pub delete_word-get_word :
    (db db' : Db) (id : ℕ) (t t' : WordTable)
    → db'.reads ≡ true
    → delete_word db id t ≡ (ok tt, t')
    → (get_word db' id t' ≡ failed word_not_found)
      × (delete_word db' id t' ≡ (failed word_not_found, t'))
unfolding delete_word get_word load_word
delete_word-get_word db db' id t t' reads h =
    Result-cases
      ((get_word db' id t' ≡ failed word_not_found)
        × (delete_word db' id t' ≡ (failed word_not_found, t')))
      (load_word db id t) (λ e f. let failure = ap (λ p. p.0) (rw (delete_word, f) at h) in cc)
      (λ w f. elim (Bool-cases db.writes) [
        | inr d ↦ let failure = ap (λ p. p.0) (rw (delete_word, f, d) at h) in cc
        | inl d ↦
            let left = record t { rows = delete_row id t.rows } in
            let made : left ≡ t' =
              ap (λ (p : Result Unit × WordTable). p.1) (rw (delete_word, f, d) at h) in
            let gone : find_by_id id t'.rows ≡ none =
              ap (λ (s : WordTable). find_by_id id s.rows) (sym made)
              ∙ find_by_id-delete_row id t.rows in
            (
              rw (get_word, load_word, reads, gone) refl,
              rw (delete_word, load_word, reads, gone) refl,
            )
      ])
