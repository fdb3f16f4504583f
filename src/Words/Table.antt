-- ===== src/Words/Table.antt =====
-- internal/infrastructure/persistence/mysql/word_repo.go: what the statements of the repository do to
-- the table of scripts/init.sql. The rows stand with the newest first; no two have the same text, so
-- that the first of a text is the only one. `none` is a duplicate key.
use censorhub.Prelude.{
  ℕ, suc, Bool, false, not, ◌&&◌, ◌||◌, Option, none, some, List, [], ◌∷◌, ◌==◌, if◌then◌else◌, pos,
  eqℤ,
}
use censorhub.Text.{Text}
use censorhub.Domain.Word.{SensitiveWord}

pub record WordTable : Type 0 where
  pub rows : List SensitiveWord
  pub next_id : ℕ

unfoldable pub find_by_id : ℕ → List SensitiveWord → Option SensitiveWord
find_by_id id [] = none
find_by_id id (w ∷ ws) = if w.id == id then some w else find_by_id id ws

unfoldable pub delete_row : ℕ → List SensitiveWord → List SensitiveWord
delete_row id [] = []
delete_row id (w ∷ ws) = let rest = delete_row id ws in if w.id == id then rest else w ∷ rest

-- `WHERE status = 1`
unfoldable pub find_all_active : List SensitiveWord → List SensitiveWord
find_all_active [] = []
find_all_active (w ∷ ws) =
    let rest = find_all_active ws in if eqℤ w.status (pos 1) then w ∷ rest else rest

unfoldable pub put_row : SensitiveWord → List SensitiveWord → List SensitiveWord
put_row word [] = []
put_row word (w ∷ ws) =
    let rest = put_row word ws in if w.id == word.id then word ∷ ws else w ∷ rest

-- The collation of the column `text` says which texts are the same.
module _ (same : Text → Text → Bool) where
  unfoldable pub find_by_text : Text → List SensitiveWord → Option SensitiveWord
  find_by_text text [] = none
  find_by_text text (w ∷ ws) = if same text w.text then some w else find_by_text text ws

  unfoldable pub create_row : ℕ → SensitiveWord → WordTable → Option (SensitiveWord × WordTable)
  unfolding find_by_text
  create_row now word t =
      let row = record word { id = t.next_id; created_at = now; updated_at = now } in
      elim (find_by_text word.text t.rows) [
        | some w ↦ none
        | none ↦ some (row, record { rows = row ∷ t.rows; next_id = suc t.next_id })
      ]

  -- A row other than the word's own has its text.
  unfoldable pub conflicts : SensitiveWord → List SensitiveWord → Bool
  conflicts word [] = false
  conflicts word (w ∷ ws) = not (w.id == word.id) && same word.text w.text || conflicts word ws

  -- `Save` writes all the columns of a row that is there.
  unfoldable pub update_row : ℕ → SensitiveWord → WordTable → Option WordTable
  unfolding conflicts put_row
  update_row now word t =
      if conflicts word t.rows
      then none
      else some (record t { rows = put_row (record word { updated_at = now }) t.rows })

  -- `ON CONFLICT DO NOTHING`: how many rows are new, and the table after them.
  unfoldable pub batch_create : ℕ → List SensitiveWord → WordTable → ℕ × WordTable
  unfolding create_row
  batch_create now [] t = (0, t)
  batch_create now (w ∷ ws) t = elim (create_row now w t) [
    | none ↦ batch_create now ws t
    | some (row, t') ↦ let (n, t'') = batch_create now ws t' in (suc n, t'')
  ]
