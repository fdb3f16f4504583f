-- ===== src/Cache/Breaker/Laws.antt =====
-- The invariant of the circuit breaker and the way back from every state that it allows.
use censorhub.Prelude.{ℕ, ◌+◌, ◌<◌, ◌≡◌, ◌⊎◌, inl, refl, true, List, [], ◌∷◌, arith}
use censorhub.Cache.Breaker.{
  closed, half_open, CircuitBreaker, new_circuit_breaker, allow, record_success, record_failure,
  BreakerCall, asks, succeeds, fails, step, run, answers,
}

-- A closed breaker is below its threshold, a half-open one below the successes that close it.
pub record IsConsistent (cb : CircuitBreaker) : Type 0 where
  pub below : cb.state ≡ closed → (cb.fail_count ≡ 0) ⊎ (cb.fail_count < cb.fail_threshold)
  pub probing : cb.state ≡ half_open → cb.half_open_success < cb.half_open_required
  pub required : cb.half_open_required ≡ 2

new_circuit_breaker-IsConsistent :
    (threshold timeout : ℕ) → IsConsistent (new_circuit_breaker threshold timeout)
unfolding new_circuit_breaker
new_circuit_breaker-IsConsistent threshold timeout = record {
  below = λ e. inl refl;
  probing = λ e. ground arith;
  required = refl;
}

step-IsConsistent :
    (c : BreakerCall) (cb : CircuitBreaker) → IsConsistent cb → IsConsistent (step c cb)
unfolding step allow record_success record_failure
step-IsConsistent (asks now) cb ok = record {
  below = λ e. ground arith;
  probing = λ e. ground arith;
  required = ground arith;
}
step-IsConsistent succeeds cb ok = record {
  below = λ e. ground arith;
  probing = λ e. ground arith;
  required = ground arith;
}
step-IsConsistent (fails now) cb ok = record {
  below = λ e. ground arith;
  probing = λ e. ground arith;
  required = ground arith;
}

run-IsConsistent :
    (cs : List BreakerCall) (cb : CircuitBreaker) → IsConsistent cb → IsConsistent (run cb cs)
unfolding run
run-IsConsistent [] cb ok = ok
run-IsConsistent (c ∷ cs) cb ok = run-IsConsistent cs (step c cb) (step-IsConsistent c cb ok)

-- A request at the time `now` is let through, and it and one more success close the breaker.
pub record Recovers (cb : CircuitBreaker) (now : ℕ) : Type 0 where
  pub granted : answers cb (asks now ∷ []) ≡ true ∷ []
  pub closes : (run cb (asks now ∷ succeeds ∷ succeeds ∷ [])).state ≡ closed
  pub cleared : (run cb (asks now ∷ succeeds ∷ succeeds ∷ [])).fail_count ≡ 0

IsConsistent-Recovers :
    (cb : CircuitBreaker) (now : ℕ)
    → IsConsistent cb
    → cb.last_fail_time + cb.reset_timeout < now
    → Recovers cb now
unfolding answers run step allow record_success
IsConsistent-Recovers cb now ok late = record {
  granted = ground arith;
  closes = ground arith;
  cleared = ground arith;
}

-- After any calls of the methods, a new breaker is consistent; and from there, once the timeout
-- since the last failure has passed, a request is let through, and it and one more success close
-- the breaker with no failure counted.
pub run-Recovers :
    (threshold timeout : ℕ) (cs : List BreakerCall) (now : ℕ)
    → let cb = run (new_circuit_breaker threshold timeout) cs in
      cb.last_fail_time + cb.reset_timeout < now → IsConsistent cb × Recovers cb now
run-Recovers threshold timeout cs now late =
    let cb = run (new_circuit_breaker threshold timeout) cs in
    let ok : IsConsistent cb =
      run-IsConsistent cs (new_circuit_breaker threshold timeout)
        (new_circuit_breaker-IsConsistent threshold timeout) in
    (ok, IsConsistent-Recovers cb now ok late)
