-- ===== src/Words/Poll/Loop/Laws.antt =====
-- The poll heals: whatever failed before, a round that succeeds serves the current words.
use censorhub.Prelude.{ℕ, ◌≤◌, ◌<◌, ◌≡◌, refl, Bool, some, List, [], ◌∷◌, ◌++◌, All, arith}
use censorhub.Text.{Text, Unicode}
use censorhub.Automaton.{Edge}
use censorhub.Automaton.Levels.{VisitsAll}
use censorhub.Words.Table.{WordTable}
use censorhub.Words.Manage.{Db}
use censorhub.Words.Requests.{WordRequest, handle_all}
use censorhub.Words.Poll.{active_fingerprint, PollState}
use censorhub.Words.Poll.Fingerprint.{Aged-refl}
use censorhub.Words.Poll.Loop.{loaded, PollTurn, Instance, poll_loop}
use censorhub.Words.Poll.Loop.Times.{Until}
use censorhub.Words.Poll.Loop.Rounds.{
  Follows, IsFresh, reconcile_once-Leaves, Follows-handle_all, Follows-Leaves, round-fresh,
}

-- The words of a turn are written after the time `at`, which the turns before it did not pass, and no
-- later than the time from which the next turn is written.
pub data Rising : ℕ → List PollTurn → Type 0 where
  ended : {at : ℕ} → Rising at []
  risen :
      {at : ℕ} {first : PollTurn} {turns : List PollTurn} (bound : ℕ)
      → at ≤ bound
      → All (λ (r : Db × ℕ × WordRequest). at < r.1) first.requests
      → All (λ (r : Db × ℕ × WordRequest). r.1 ≤ bound) first.requests
      → Rising bound turns
      → Rising at (first ∷ turns)

-- The table after the requests of all turns.
unfoldable pub table_after : Unicode → (Text → Text → Bool) → List PollTurn → WordTable → WordTable
unfolding handle_all
table_after u same [] t = t
table_after u same (first ∷ turns) t = table_after u same turns (handle_all same u first.requests t)

module _ (order : ℕ → List Edge → List Edge) (visits_all : VisitsAll order) (u : Unicode)
    (same : Text → Text → Bool) where
  heals :
      (turns : List PollTurn) (last : PollTurn) (k at : ℕ) (t : WordTable) (s : PollState)
      → last.outcome ≡ loaded k
      → k < 3
      → Rising at (turns ++ last ∷ [])
      → Follows u at (record { table = t; poll = s })
      → (w' : Instance) × (poll_loop order u same
            (turns ++ last ∷ [])
            (record { table = t; poll = s })
          ≡ some w')
        × (w'.table ≡ table_after u same (turns ++ last ∷ []) t)
        × IsFresh u w'
  unfolding poll_loop table_after
  heals [] last k at t s good small (risen bound le late early rest) h =
      let t' = handle_all same u last.requests t in
      let (s', ran, serves) =
        round-fresh order visits_all u same k bound t' last.sweep s small
          (Follows-handle_all order visits_all u same last.requests at bound t s le late early h) in
      (record { table = t'; poll = s' }, rw (poll_loop, good, ran) refl, refl, serves)
  heals (first ∷ turns) last k at t s good small (risen bound le late early rest) h =
      let t' = handle_all same u first.requests t in
      let (s', ran, left) =
        reconcile_once-Leaves order visits_all u first.outcome t'.rows first.sweep s in
      let follows =
        Follows-Leaves order visits_all u same bound t' s s'
          (Follows-handle_all order visits_all u same first.requests at bound t s le late early h)
          left in
      let (w', went, table, fresh) = heals turns last k bound t' s' good small rest follows in
      (w', rw (poll_loop, ran) went, table, fresh)

  -- An engine that serves the words of the table, whose fingerprint the poll remembers; any turns of
  -- the loop, whatever fails in their rounds, with requests whose times are later than those before
  -- the round before them; and a last round that reads the fingerprint and loads the words within
  -- three attempts: the loop ends with the table that all the requests make, and an engine that
  -- serves its words.
  pub poll_loop-IsFresh :
      (turns : List PollTurn) (last : PollTurn) (k at : ℕ) (w : Instance)
      → last.outcome ≡ loaded k
      → k < 3
      → Rising at (turns ++ last ∷ [])
      → Until at w.table.rows
      → w.poll.last ≡ active_fingerprint w.table.rows
      → IsFresh u w
      → (w' : Instance) × (poll_loop order u same (turns ++ last ∷ []) w ≡ some w')
        × (w'.table ≡ table_after u same (turns ++ last ∷ []) w.table)
        × IsFresh u w'
  poll_loop-IsFresh turns last k at w good small rising old known fresh =
      heals turns last k at w.table w.poll good small rising (record {
        rows = w.table.rows;
        seen = at;
        before = omega arith;
        known = known;
        serves = fresh;
        old = old;
        aged = Aged-refl at w.table.rows;
        now = old;
      })
