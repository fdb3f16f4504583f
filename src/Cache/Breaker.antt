-- ===== src/Cache/Breaker.antt =====
-- internal/infrastructure/cache/circuit_breaker.go. Times and durations are nanoseconds of one
-- clock, and 0 is the zero time. The load before the lock in `Allow` and the locked part answer alike
-- for a closed breaker, so that each method is one step. A threshold below 0 behaves as 0.
pub mod Laws
pub mod Streak
pub mod Window
use censorhub.Prelude.{ℕ, ◌+◌, Bool, true, false, List, [], ◌∷◌, ltb, leb, if◌then◌else◌}

pub data CircuitState : Type 0 where
  closed : CircuitState
  open_circuit : CircuitState
  half_open : CircuitState

pub record CircuitBreaker : Type 0 where
  pub state : CircuitState
  pub fail_count : ℕ
  pub fail_threshold : ℕ
  pub reset_timeout : ℕ
  pub last_fail_time : ℕ
  pub half_open_success : ℕ
  pub half_open_required : ℕ

unfoldable pub new_circuit_breaker : ℕ → ℕ → CircuitBreaker
new_circuit_breaker threshold timeout = record {
  state = closed;
  fail_count = 0;
  fail_threshold = threshold;
  reset_timeout = timeout;
  last_fail_time = 0;
  half_open_success = 0;
  half_open_required = 2;
}

-- `Allow` at the time `now`: the answer, and the breaker after it.
unfoldable pub allow : ℕ → CircuitBreaker → Bool × CircuitBreaker
allow now cb = elim cb.state [
  | closed ↦ (true, cb)
  | open_circuit ↦
      if ltb (cb.last_fail_time + cb.reset_timeout) now
      then (true, record cb { state = half_open; half_open_success = 0 })
      else (false, cb)
  | half_open ↦ (true, cb)
]

unfoldable pub record_success : CircuitBreaker → CircuitBreaker
record_success cb = elim cb.state [
  | closed ↦ record cb { fail_count = 0 }
  | open_circuit ↦ cb
  | half_open ↦
      let counted = record cb { half_open_success = cb.half_open_success + 1 } in
      if leb cb.half_open_required counted.half_open_success
      then record counted { state = closed; fail_count = 0 }
      else counted
]

unfoldable pub record_failure : ℕ → CircuitBreaker → CircuitBreaker
record_failure now cb =
    let timed = record cb { last_fail_time = now } in
    elim cb.state [
      | closed ↦
          let counted = record timed { fail_count = cb.fail_count + 1 } in
          if leb cb.fail_threshold counted.fail_count
          then record counted { state = open_circuit }
          else counted
      | open_circuit ↦ timed
      | half_open ↦ record timed { state = open_circuit }
    ]

unfoldable pub is_open : CircuitBreaker → Bool
is_open cb = elim cb.state [ closed ↦ false | open_circuit ↦ true | half_open ↦ false ]

-- The calls of the methods that change the state, with the time where the method reads the clock.
pub data BreakerCall : Type 0 where
  asks : ℕ → BreakerCall
  succeeds : BreakerCall
  fails : ℕ → BreakerCall

unfoldable pub step : BreakerCall → CircuitBreaker → CircuitBreaker
unfolding allow record_success record_failure
step (asks now) cb = (allow now cb).1
step succeeds cb = record_success cb
step (fails now) cb = record_failure now cb

unfoldable pub run : CircuitBreaker → List BreakerCall → CircuitBreaker
unfolding step
run cb [] = cb
run cb (c ∷ cs) = run (step c cb) cs

-- The answers that `Allow` gives in the course of the calls.
unfoldable pub answers : CircuitBreaker → List BreakerCall → List Bool
unfolding step
answers cb [] = []
answers cb (asks now ∷ cs) = (allow now cb).0 ∷ answers (step (asks now) cb) cs
answers cb (succeeds ∷ cs) = answers (step succeeds cb) cs
answers cb (fails now ∷ cs) = answers (step (fails now) cb) cs
