-- ===== src/Words/Poll/Loop.antt =====
-- The loop of the poll, pollLoop of internal/application/service/word_app_service.go, with its
-- settings and waits, and Start and Close. Between two rounds the word service handles requests, and a
-- round finds the table as they left it. The random numbers are arguments.
pub mod Times
pub mod Closing
pub mod Rounds
pub mod Laws
use censorhub.Prelude.{
  ℕ, suc, ◌+◌, ◌*◌, ◌%◌, Bool, true, false, Option, none, some, List, [], ◌∷◌, ◌++◌, if◌then◌else◌,
  ltb, ◌>>=◌,
}
use censorhub.Text.{Text, Unicode}
use censorhub.Domain.Word.{SensitiveWord}
use censorhub.Automaton.{Edge}
use censorhub.Words.Table.{WordTable, find_all_active}
use censorhub.Words.Manage.{Db}
use censorhub.Words.Requests.{WordRequest, handle_all}
use censorhub.Words.Poll.{
  WordFingerprint, active_fingerprint, PollState, Sweep, max_attempts, reconcile_once,
}
use censorhub.Words.Poll.Laws.{failures}

-- The durations in milliseconds.
pub record PollConfig : Type 0 where
  pub interval : ℕ
  pub jitter : ℕ
  pub query_timeout : ℕ
  pub retry_backoff : ℕ
  pub attempts : ℕ
  pub shutdown_timeout : ℕ

abbrev pub default_poll_config : PollConfig
default_poll_config = record {
  interval = 500;
  jitter = 250;
  query_timeout = 10 * 1000;
  retry_backoff = 200;
  attempts = max_attempts;
  shutdown_timeout = 5 * 1000;
}

-- `Int63n` gives a number below its argument.
unfoldable pub initial_delay : PollConfig → ℕ → ℕ
initial_delay cfg random = random % cfg.interval

unfoldable pub next_wait : PollConfig → ℕ → ℕ
next_wait cfg random = if ltb 0 cfg.jitter then cfg.interval + random % cfg.jitter else cfg.interval

-- What the database replies to a round: an error to the fingerprint, so many errors to the loads, or
-- the words after so many errors.
pub data PollOutcome : Type 0 where
  unread : PollOutcome
  unloaded loaded : ℕ → PollOutcome

unfoldable pub print_of : PollOutcome → List SensitiveWord → Option WordFingerprint
unfolding active_fingerprint
print_of unread rows = none
print_of (unloaded k) rows = some (active_fingerprint rows)
print_of (loaded k) rows = some (active_fingerprint rows)

unfoldable pub loads_of : PollOutcome → List SensitiveWord → List (Option (List SensitiveWord))
unfolding failures find_all_active
loads_of unread rows = []
loads_of (unloaded k) rows = failures k
loads_of (loaded k) rows = failures k ++ some (find_all_active rows) ∷ []

-- The requests since the round before, and the round.
pub record PollTurn : Type 0 where
  pub requests : List (Db × ℕ × WordRequest)
  pub outcome : PollOutcome
  pub sweep : Sweep

pub record Instance : Type 0 where
  pub table : WordTable
  pub poll : PollState

module _ (order : ℕ → List Edge → List Edge) (u : Unicode) (same : Text → Text → Bool) where
  -- The rounds until the context is done.
  unfoldable pub poll_loop : List PollTurn → Instance → Option Instance
  unfolding handle_all reconcile_once print_of loads_of
  poll_loop [] w = some w
  poll_loop (turn ∷ turns) w = do
    let table = handle_all same u turn.requests w.table
    s ←
        reconcile_once order u (print_of turn.outcome table.rows) (loads_of turn.outcome table.rows)
          turn.sweep w.poll
    poll_loop turns (record { table = table; poll = s })

-- Whether there is a `cancel`, whether `closeOnce` is done, the loops that were begun, and whether
-- their context was cancelled.
pub record Lifecycle : Type 0 where
  pub has_cancel : Bool
  pub closed_once : Bool
  pub loops : ℕ
  pub cancelled : Bool

pub data LifeCall : Type 0 where
  starts closes : LifeCall

unfoldable pub start_service : Lifecycle → Lifecycle
start_service s = if s.has_cancel then s else record s { has_cancel = true; loops = suc s.loops }

unfoldable pub close_service : Lifecycle → Lifecycle
close_service s =
    if s.closed_once then s else record s { closed_once = true; cancelled = s.has_cancel }

abbrev pub new_lifecycle : Lifecycle
new_lifecycle = record { has_cancel = false; closed_once = false; loops = 0; cancelled = false }

unfoldable pub run_calls : List LifeCall → Lifecycle → Lifecycle
unfolding start_service close_service
run_calls [] s = s
run_calls (starts ∷ calls) s = run_calls calls (start_service s)
run_calls (closes ∷ calls) s = run_calls calls (close_service s)
