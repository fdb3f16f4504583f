-- ===== src/Words/Poll/Loop/Rounds.antt =====
-- What one round of the poll does to an engine that follows the table.
use censorhub.Prelude.{
  ℕ, zero, suc, ◌≤◌, ◌<◌, ◌≡◌, refl, Bool, false, Option, some, List, [], ◌∷◌, ◌++◌, All, arith,
  Bool-cases, inl, inr, ltb,
}
use censorhub.Text.{Text, Unicode}
use censorhub.Domain.Word.{SensitiveWord}
use censorhub.Automaton.{Edge}
use censorhub.Automaton.Levels.{VisitsAll}
use censorhub.Engine.{FilterEngine}
use censorhub.Service.Filter.Laws.{Serves}
use censorhub.Words.Table.{WordTable, find_all_active}
use censorhub.Words.Manage.{Db}
use censorhub.Words.Requests.{WordRequest, handle_all}
use censorhub.Words.Poll.{
  active_fingerprint, same_fingerprint, max_attempts, PollState, Sweep, rebuild_with_retry,
  reconcile_once,
}
use censorhub.Words.Poll.Laws.{failures, reconcile_once-Serves, reconcile_once-waits}
use censorhub.Words.Poll.Fingerprint.{Aged, Aged-refl, same_fingerprint-active}
use censorhub.Words.Poll.Writes.{handle_all-Aged}
use censorhub.Words.Poll.Loop.{PollOutcome, unread, unloaded, loaded, print_of, loads_of, Instance}
use censorhub.Words.Poll.Loop.Times.{Until, Until-weaken, handle_all-Until}

-- The engine serves the words of an earlier table, whose fingerprint the poll remembers; the table now
-- is what later writes made of it.
pub record Follows (u : Unicode) (at : ℕ) (w : Instance) : Type 0 where
  pub rows : List SensitiveWord
  pub seen : ℕ
  pub before : seen ≤ at
  pub known : w.poll.last ≡ active_fingerprint rows
  pub serves : Serves u (find_all_active rows) w.poll.engine
  pub old : Until seen rows
  pub aged : Aged seen rows w.table.rows
  pub now : Until at w.table.rows

abbrev pub IsFresh : Unicode → Instance → Type 0
IsFresh u w = Serves u (find_all_active w.table.rows) w.poll.engine

module _ (order : ℕ → List Edge → List Edge) (u : Unicode) where
  retry-exhausted :
      (n k : ℕ) (later : List (Option (List SensitiveWord))) (e : FilterEngine)
      → n ≤ k
      → rebuild_with_retry order u n (failures k ++ later) e ≡ some (e, false)
  unfolding rebuild_with_retry failures
  retry-exhausted zero k later e le = refl
  retry-exhausted (suc n) zero later e le = absurd (omega arith)
  retry-exhausted (suc n) (suc k) later e le = retry-exhausted n k later e (omega arith)

-- What a round leaves: what was there before, or the engine of the current words.
pub data Leaves (u : Unicode) (rows : List SensitiveWord) (s : PollState) : PollState → Type 0 where
  unchanged : Leaves u rows s s
  current :
      {s' : PollState}
      → s'.last ≡ active_fingerprint rows
      → Serves u (find_all_active rows) s'.engine
      → Leaves u rows s s'

module _ (order : ℕ → List Edge → List Edge) (visits_all : VisitsAll order) (u : Unicode) where
  pub reconcile_once-Leaves :
      (outcome : PollOutcome) (rows : List SensitiveWord) (w : Sweep) (s : PollState)
      → (s' : PollState) × (reconcile_once order u
            (print_of outcome rows)
            (loads_of outcome rows)
            w
            s
          ≡ some s')
        × Leaves u rows s s'
  unfolding reconcile_once print_of loads_of
  reconcile_once-Leaves unread rows w s = (s, refl, unchanged)
  reconcile_once-Leaves (unloaded k) rows w s =
      let waits = reconcile_once-waits order visits_all u k (active_fingerprint rows) [] w s in
      (s, waits.1, unchanged)
  reconcile_once-Leaves (loaded k) rows w s =
      elim (Bool-cases (same_fingerprint (active_fingerprint rows) s.last)) [
        | inl y ↦ (s, rw (reconcile_once, y) refl, unchanged)
        | inr n ↦ elim (Bool-cases (ltb k 3)) [
          | inl small ↦
              let (s', ran, serves, _, known, _) =
                reconcile_once-Serves order visits_all u k (find_all_active rows) []
                  (active_fingerprint rows) w s (ground arith) n in
              (s', ran, current known serves)
          | inr large ↦
              let le : 3 ≤ k = ground arith in
              (
                s,
                rw
                    (
                      reconcile_once,
                      n,
                      retry-exhausted order u max_attempts k (some (find_all_active rows) ∷ [])
                          s.engine le,
                    )
                    refl,
                unchanged,
              )
        ]
      ]

  module _ (same : Text → Text → Bool) where
    -- The table is written before the round.
    pub Follows-handle_all :
        (requests : List (Db × ℕ × WordRequest)) (at bound : ℕ) (t : WordTable) (s : PollState)
        → at ≤ bound
        → All (λ (r : Db × ℕ × WordRequest). at < r.1) requests
        → All (λ (r : Db × ℕ × WordRequest). r.1 ≤ bound) requests
        → Follows u at (record { table = t; poll = s })
        → Follows u bound (record { table = handle_all same u requests t; poll = s })
    Follows-handle_all requests at bound t s le late early h = record {
      rows = h.rows;
      seen = h.seen;
      before = let b = h.before in omega arith;
      known = h.known;
      serves = h.serves;
      old = h.old;
      aged = handle_all-Aged h.seen same u requests t (later requests late) h.aged;
      now = handle_all-Until bound same u requests t early (Until-weaken at bound t.rows le h.now);
    }
      where
        later :
            (rs : List (Db × ℕ × WordRequest))
            → All (λ (r : Db × ℕ × WordRequest). at < r.1) rs
            → All (λ (r : Db × ℕ × WordRequest). h.seen < r.1) rs
        later [] all = tt
        later (r ∷ rs) (first, rest) = (let b = h.before in omega arith, later rs rest)

    pub Follows-Leaves :
        (bound : ℕ) (t : WordTable) (s s' : PollState)
        → Follows u bound (record { table = t; poll = s })
        → Leaves u t.rows s s'
        → Follows u bound (record { table = t; poll = s' })
    Follows-Leaves bound t s _ h unchanged = h
    Follows-Leaves bound t s s' h (current known serves) = record {
      rows = t.rows;
      seen = bound;
      before = omega arith;
      known = known;
      serves = serves;
      old = h.now;
      aged = Aged-refl bound t.rows;
      now = h.now;
    }

    -- A round that loads the words serves them, or finds that they are served.
    pub round-fresh :
        (k bound : ℕ) (t : WordTable) (w : Sweep) (s : PollState)
        → k < 3
        → Follows u bound (record { table = t; poll = s })
        → (s' : PollState) × (reconcile_once order u
              (print_of (loaded k) t.rows)
              (loads_of (loaded k) t.rows)
              w
              s
            ≡ some s')
          × Serves u (find_all_active t.rows) s'.engine
    unfolding reconcile_once print_of loads_of
    round-fresh k bound t w s small h =
        elim (Bool-cases (same_fingerprint (active_fingerprint t.rows) s.last)) [
          | inl y ↦
              let kept =
                same_fingerprint-active h.seen h.rows t.rows h.aged h.old (rw (h.known) at y) in
              (s, rw (reconcile_once, y) refl, rw kept h.serves)
          | inr n ↦
              let (s', ran, serves, _, _, _) =
                reconcile_once-Serves order visits_all u k (find_all_active t.rows) []
                  (active_fingerprint t.rows) w s small n in
              (s', ran, serves)
        ]
