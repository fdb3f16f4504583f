-- ===== src/Words/Poll/Passing.antt =====
-- A word that is created and deleted again around a round of the poll.
use mathlib.Core.Option.{some-injective}
use mathlib.Core.Path.{subst}
use censorhub.Prelude.{
  ℕ, suc, ◌<◌, ◌≡◌, refl, sym, ap, ◌∙◌, ◌==◌, ==_iff, pos, eqℤ, Bool, true, false, Option, some,
  List, [], ◌∷◌, All, arith, Bool-cases, Option-cases, inl, inr,
}
use censorhub.Text.{Text, Unicode}
use censorhub.Domain.Word.{SensitiveWord}
use censorhub.Automaton.{Edge}
use censorhub.Automaton.Levels.{VisitsAll}
use censorhub.Engine.{rebuild}
use censorhub.Service.Filter.Laws.{Serves}
use censorhub.Words.Table.{WordTable, find_all_active, delete_row, create_row, find_by_text}
use censorhub.Words.Manage.{
  Db, Result, ok, CreateWordRequest, WordResponse, entity_to_dto, create_dto_to_entity, load_word,
  create_word, delete_word,
}
use censorhub.Words.Keeps.{IsWellFormed}
use censorhub.Words.Requests.{Result-cases}
use censorhub.Words.Outcomes.{create_word-Created}
use censorhub.Words.Poll.{active_fingerprint, same_fingerprint, PollState, Sweep, reconcile_once}
use censorhub.Words.Poll.Laws.{failures, reconcile_once-Serves, reconcile_once-waits}

delete_row-absent :
    (n : ℕ) (ws : List SensitiveWord)
    → All (λ (w : SensitiveWord). w.id < n) ws
    → delete_row n ws ≡ ws
unfolding delete_row
delete_row-absent n [] h = refl
delete_row-absent n (w ∷ ws) (first, rest) =
    let other : (w.id == n) ≡ false = ground arith in
    rw other (ap (λ x. w ∷ x) (delete_row-absent n ws rest))

delete_word-rows :
    (db : Db) (id : ℕ) (t t' : WordTable)
    → delete_word db id t ≡ (ok tt, t')
    → t'.rows ≡ delete_row id t.rows
unfolding delete_word
delete_word-rows db id t t' h =
    Result-cases (t'.rows ≡ delete_row id t.rows) (load_word db id t)
      (λ e f. let failure = ap (λ p. p.0) (rw (delete_word, f) at h) in cc)
      (λ w f. elim (Bool-cases db.writes) [
        | inl d ↦ sym (ap (λ (p : Result Unit × WordTable). p.1.rows) (rw (delete_word, f, d) at h))
        | inr d ↦ let failure = ap (λ p. p.0) (rw (delete_word, f, d) at h) in cc
      ])

-- The row that a creation puts in front.
record InFront (r : WordResponse) (t t' : WordTable) : Type 0 where
  row : SensitiveWord
  rows : t'.rows ≡ row ∷ t.rows
  id : row.id ≡ t.next_id
  shown : r.id ≡ row.id
  active : eqℤ row.status (pos 1) ≡ true

front_row-deleted :
    (db : Db) (r : WordResponse) (t t1 t2 : WordTable)
    → InFront r t t1
    → All (λ (w : SensitiveWord). w.id < t.next_id) t.rows
    → delete_word db r.id t1 ≡ (ok tt, t2)
    → t2.rows ≡ t.rows
unfolding delete_row
front_row-deleted db r t t1 t2 front below deleted =
    let number : r.id ≡ t.next_id = front.shown ∙ front.id in
    let own : (front.row.id == r.id) ≡ true = (==_iff front.row.id r.id).1 (sym front.shown) in
    let under : All (λ (w : SensitiveWord). w.id < r.id) t.rows = rw (number) below in
    delete_word-rows db r.id t1 t2 deleted
    ∙ rw (front.rows, own) (delete_row-absent r.id t.rows under)

module _ (same : Text → Text → Bool) (u : Unicode) where
  create_word-InFront :
      (db : Db) (now : ℕ) (req : CreateWordRequest) (t t' : WordTable) (r : WordResponse)
      → create_word same u db now req t ≡ (ok r, t')
      → InFront r t t'
  unfolding create_row create_dto_to_entity entity_to_dto
  create_word-InFront db now req t t' r h =
      let made = create_word-Created same u db now req t t' r h in
      let word = create_dto_to_entity u req in
      let new : SensitiveWord = record word {
        id = t.next_id;
        created_at = now;
        updated_at = now;
      } in
      elim (Option-cases (find_by_text same word.text t.rows)) [
        | inr (w, e) ↦ let failure = rw (create_row, e) at made.inserted in cc
        | inl e ↦
            let whole = some-injective _ (made.row, t') (rw (create_row, e) at made.inserted) in
            let front : InFront (entity_to_dto new) t
                (record { rows = new ∷ t.rows; next_id = suc t.next_id }) =
              record { row = new; rows = refl; id = refl; shown = refl; active = refl } in
            let there =
              subst (λ (p : SensitiveWord × WordTable). InFront (entity_to_dto p.0) t p.1) whole
                front in
            rw (made.shown) there
      ]

module _ (order : ℕ → List Edge → List Edge) (visits_all : VisitsAll order) (u : Unicode)
    (same : Text → Text → Bool) where
  -- A round of the poll that reads a new fingerprint of a well-formed table before a word is created,
  -- loads the words after it, and finds the word deleted again in the rounds that follow: the engine
  -- serves the word, which is the only active one that the table lacks, and every later round leaves
  -- it so until the fingerprint changes.
  pub reconcile_once-deleted :
      (db db' : Db) (now : ℕ) (req : CreateWordRequest) (r : WordResponse) (t t1 t2 : WordTable)
      (s : PollState) (w : Sweep) (rest : List (Option (List SensitiveWord)))
      → IsWellFormed same t
      → create_word same u db now req t ≡ (ok r, t1)
      → delete_word db' r.id t1 ≡ (ok tt, t2)
      → same_fingerprint (active_fingerprint t.rows) s.last ≡ false
      → (row : SensitiveWord) × (s' : PollState) × (find_all_active t1.rows
          ≡ row ∷ find_all_active t2.rows)
        × (reconcile_once order u
              (some (active_fingerprint t.rows))
              (some (find_all_active t1.rows) ∷ rest)
              w
              s
            ≡ some s')
        × Serves u (row ∷ find_all_active t2.rows) s'.engine
        × ((replies : List (Option (List SensitiveWord))) (w' : Sweep)
            → reconcile_once order u (some (active_fingerprint t2.rows)) replies w' s' ≡ some s')
  unfolding reconcile_once failures rebuild find_all_active delete_row
  reconcile_once-deleted db db' now req r t t1 t2 s w rest good created deleted changed =
      let front = create_word-InFront same u db now req t t1 r created in
      let gone = front_row-deleted db' r t t1 t2 front good.below deleted in
      let listed : find_all_active t1.rows ≡ front.row ∷ find_all_active t2.rows =
        rw (front.rows, front.active, gone) refl in
      let (s', ran, serves, _, known, _) =
        reconcile_once-Serves order visits_all u 0 (find_all_active t1.rows) rest
          (active_fingerprint t.rows) w s (omega arith) changed in
      (
        front.row,
        s',
        listed,
        ran,
        subst (λ ws. Serves u ws s'.engine) listed serves,
        λ replies w'.
            subst (λ fp. reconcile_once order u (some fp) replies w' s' ≡ some s')
              (known ∙ ap active_fingerprint (sym gone))
              (reconcile_once-waits order visits_all u 0 s'.last replies w' s').2,
      )
