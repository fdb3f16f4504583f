-- ===== src/Words/Updates.antt =====
-- What an update of a word leaves for the requests after it.
use mathlib.Core.Option.{some-injective}
use censorhub.Prelude.{
  ℕ, ◌≡◌, sym, ap, ◌∙◌, true, Bool, some, List, [], ◌∷◌, ◌==◌, arith, Bool-cases, Option-cases, inl,
  inr,
}
use censorhub.Text.{Text, Unicode}
use censorhub.Domain.Word.{SensitiveWord, validate}
use censorhub.Words.Table.{WordTable, find_by_id, update_row, conflicts, put_row}
use censorhub.Words.Manage.{
  Db, Result, ok, UpdateWordRequest, WordResponse, entity_to_dto, load_word, apply_update,
  update_word, get_word,
}
use censorhub.Words.Requests.{Result-cases, ok-injective, load_word-found, apply_update-id}
use censorhub.Words.Outcomes.{get_word-found, find_by_id-put_row}

find_by_id-id :
    (id : ℕ) (ws : List SensitiveWord) (w : SensitiveWord) → find_by_id id ws ≡ some w → w.id ≡ id
unfolding find_by_id
find_by_id-id id [] w h = cc
find_by_id-id id (v ∷ ws) w h = elim (Bool-cases (v.id == id)) [
  | inl y ↦
      let same_id : v.id ≡ id = ground arith in rw (some-injective v w (rw (y) at h)) at same_id
  | inr n ↦ find_by_id-id id ws w (rw (n) at h)
]

-- What a successful update did.
record Updated (u : Unicode) (now id : ℕ) (req : UpdateWordRequest) (t t' : WordTable)
    (r : WordResponse) : Type 0 where
  old : SensitiveWord
  word : SensitiveWord
  found : find_by_id id t.rows ≡ some old
  changed : apply_update u req old ≡ ok word
  rows : t'.rows ≡ put_row (record word { updated_at = now }) t.rows
  shown : r ≡ entity_to_dto word

update_row-rows :
    (same : Text → Text → Bool) (now : ℕ) (word : SensitiveWord) (t t' : WordTable)
    → update_row same now word t ≡ some t'
    → t'.rows ≡ put_row (record word { updated_at = now }) t.rows
unfolding update_row
update_row-rows same now word t t' h = elim (Bool-cases (conflicts same word t.rows)) [
  | inl y ↦ let failure = rw (update_row, y) at h in cc
  | inr n ↦
      let made =
        some-injective (record t { rows = put_row (record word { updated_at = now }) t.rows }) t'
          (rw (update_row, n) at h) in
      sym (ap (λ (s : WordTable). s.rows) made)
]

update_word-Updated :
    (same : Text → Text → Bool) (u : Unicode) (db : Db) (now id : ℕ) (req : UpdateWordRequest)
    (t t' : WordTable) (r : WordResponse)
    → update_word same u db now id req t ≡ (ok r, t')
    → Updated u now id req t t' r
unfolding update_word
update_word-Updated same u db now id req t t' r h =
    Result-cases (Updated u now id req t t' r) (load_word db id t)
      (λ e f. let failure = ap (λ p. p.0) (rw (update_word, f) at h) in cc)
      (λ old f.
        Result-cases (Updated u now id req t t' r) (apply_update u req old)
          (λ e g. let failure = ap (λ p. p.0) (rw (update_word, f, g) at h) in cc)
          (λ word g. elim (Option-cases (validate word)) [
            | inr (e, v) ↦ let failure = ap (λ p. p.0) (rw (update_word, f, g, v) at h) in cc
            | inl v ↦ elim (Bool-cases db.writes) [
              | inr d ↦ let failure = ap (λ p. p.0) (rw (update_word, f, g, v, d) at h) in cc
              | inl d ↦ elim (Option-cases (update_row same now word t)) [
                | inl c ↦ let failure = ap (λ p. p.0) (rw (update_word, f, g, v, d, c) at h) in cc
                | inr (t'', c) ↦
                    let done = rw (update_word, f, g, v, d, c) at h in
                    let made : t'' ≡ t' = ap (λ (p : Result WordResponse × WordTable). p.1) done in
                    record {
                      old = old;
                      word = word;
                      found = load_word-found db id t old f;
                      changed = g;
                      rows = update_row-rows same now word t t' (c ∙ ap some made);
                      shown = sym (ok-injective (entity_to_dto word) r (ap (λ p. p.0) done));
                    }
              ]
            ]
          ]))

-- A word that was updated is read back, on a database that answers, as the response showed it but
-- for the time of the last change, which is that of the update.
pub update_word-get_word :
    (same : Text → Text → Bool) (u : Unicode) (db db' : Db) (now id : ℕ) (req : UpdateWordRequest)
    (t t' : WordTable) (r : WordResponse)
    → db'.reads ≡ true
    → update_word same u db now id req t ≡ (ok r, t')
    → get_word db' id t' ≡ ok (record r { updated_at = now })
unfolding entity_to_dto
update_word-get_word same u db db' now id req t t' r reads h =
    let c = update_word-Updated same u db now id req t t' r h in
    let row : SensitiveWord = record c.word { updated_at = now } in
    let same_id : c.word.id ≡ id =
      apply_update-id u req c.old c.word c.changed ∙ find_by_id-id id t.rows c.old c.found in
    let found : find_by_id id t'.rows ≡ some row =
      ap (find_by_id id) c.rows
      ∙ ap (λ i. find_by_id i (put_row row t.rows)) (sym same_id)
      ∙ find_by_id-put_row row c.old t.rows (rw (same_id) c.found) in
    get_word-found db' id t' row reads found
    ∙ ap (λ (x : WordResponse). ok (record x { updated_at = now })) (sym c.shown)
