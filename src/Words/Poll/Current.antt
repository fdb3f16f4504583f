-- ===== src/Words/Poll/Current.antt =====
-- A round of the poll brings the engine to the current words.
use censorhub.Prelude.{
  ℕ, ◌≤◌, ◌<◌, ◌≡◌, refl, Bool, Option, some, List, ◌∷◌, All, arith, Bool-cases, inl, inr,
}
use censorhub.Text.{Text, Unicode}
use censorhub.Domain.Word.{SensitiveWord}
use censorhub.Automaton.{Edge}
use censorhub.Automaton.Levels.{VisitsAll}
use censorhub.Service.Filter.Laws.{Serves}
use censorhub.Words.Table.{WordTable, find_all_active}
use censorhub.Words.Manage.{Db}
use censorhub.Words.Requests.{WordRequest, handle_all}
use censorhub.Words.Poll.{active_fingerprint, same_fingerprint, PollState, Sweep, reconcile_once}
use censorhub.Words.Poll.Laws.{failures, reconcile_once-Serves}
use censorhub.Engine.{rebuild}
use censorhub.Words.Poll.Fingerprint.{Aged-refl, same_fingerprint-active}
use censorhub.Words.Poll.Writes.{handle_all-Aged}

module _ (order : ℕ → List Edge → List Edge) (visits_all : VisitsAll order) (u : Unicode)
    (same : Text → Text → Bool) where
  -- An engine that serves the words of a table whose fingerprint the poll remembers, and any requests
  -- to the word service whose times are later than those in the table: a round that then reads the
  -- fingerprint and loads the words of the table leaves an engine that serves the current words,
  -- whether it rebuilds or not.
  pub reconcile_once-handle_all :
      (requests : List (Db × ℕ × WordRequest)) (t : WordTable) (at : ℕ) (s : PollState) (w : Sweep)
      (rest : List (Option (List SensitiveWord)))
      → All (λ (row : SensitiveWord). row.updated_at ≤ at) t.rows
      → All (λ (r : Db × ℕ × WordRequest). at < r.1) requests
      → s.last ≡ active_fingerprint t.rows
      → Serves u (find_all_active t.rows) s.engine
      → (s' : PollState) × (reconcile_once order u
            (some (active_fingerprint (handle_all same u requests t).rows))
            (some (find_all_active (handle_all same u requests t).rows) ∷ rest)
            w
            s
          ≡ some s')
        × Serves u (find_all_active (handle_all same u requests t).rows) s'.engine
  unfolding reconcile_once failures rebuild
  reconcile_once-handle_all requests t at s w rest old late known serves =
      let rows = (handle_all same u requests t).rows in
      elim (Bool-cases (same_fingerprint (active_fingerprint rows) s.last)) [
        | inl y ↦
            let kept =
              same_fingerprint-active at t.rows rows
                (handle_all-Aged at same u requests t late (Aged-refl at t.rows)) old
                (rw (known) at y) in
            (s, rw (reconcile_once, y) refl, rw kept serves)
        | inr n ↦
            let (s', ran, current, _, _, _) =
              reconcile_once-Serves order visits_all u 0 (find_all_active rows) rest
                (active_fingerprint rows) w s (omega arith) n in
            (s', ran, current)
      ]
