-- ===== src/Cache/Breaker/Window.antt =====
-- While the circuit breaker is open: no request passes before the timeout.
use censorhub.Prelude.{ℕ, ◌+◌, ◌≤◌, ◌≡◌, refl, false, List, [], ◌∷◌, All, arith}
use censorhub.Cache.Breaker.{
  open_circuit, CircuitBreaker, allow, record_success, record_failure, BreakerCall, asks, succeeds,
  fails, step, run, answers,
}

-- The calls read clocks from `since` on, and ask no later than the timeout after it.
pub data Within (since timeout : ℕ) : List BreakerCall → Type 0 where
  nothing : Within since timeout []
  asking :
      {now : ℕ} {cs : List BreakerCall}
      → now ≤ since + timeout
      → Within since timeout cs
      → Within since timeout (asks now ∷ cs)
  succeeding :
      {cs : List BreakerCall} → Within since timeout cs → Within since timeout (succeeds ∷ cs)
  failing :
      {now : ℕ} {cs : List BreakerCall}
      → since ≤ now
      → Within since timeout cs
      → Within since timeout (fails now ∷ cs)

-- An open breaker whose last failure is not before `since`.
record Shut (since timeout : ℕ) (cb : CircuitBreaker) : Type 0 where
  shut : cb.state ≡ open_circuit
  later : since ≤ cb.last_fail_time
  same : cb.reset_timeout ≡ timeout

step-asks-Shut :
    (since timeout now : ℕ) (cb : CircuitBreaker)
    → now ≤ since + timeout
    → Shut since timeout cb
    → Shut since timeout (step (asks now) cb) × ((allow now cb).0 ≡ false)
unfolding step allow
step-asks-Shut since timeout now cb early s =
    (record { shut = ground arith; later = ground arith; same = ground arith }, ground arith)

step-succeeds-Shut :
    (since timeout : ℕ) (cb : CircuitBreaker)
    → Shut since timeout cb
    → Shut since timeout (step succeeds cb)
unfolding step record_success
step-succeeds-Shut since timeout cb s = record {
  shut = ground arith;
  later = ground arith;
  same = ground arith;
}

step-fails-Shut :
    (since timeout now : ℕ) (cb : CircuitBreaker)
    → since ≤ now
    → Shut since timeout cb
    → Shut since timeout (step (fails now) cb)
unfolding step record_failure
step-fails-Shut since timeout now cb late s = record {
  shut = ground arith;
  later = ground arith;
  same = ground arith;
}

run-Shut :
    (since timeout : ℕ) {cs : List BreakerCall}
    → Within since timeout cs
    → (cb : CircuitBreaker) → Shut since timeout cb
    → Shut since timeout (run cb cs) × All (λ b. b ≡ false) (answers cb cs)
unfolding run answers
run-Shut since timeout nothing cb s = (s, tt)
run-Shut since timeout (asking {now} early rest) cb s =
    let (s', refused) = step-asks-Shut since timeout now cb early s in
    let (kept, all_refused) = run-Shut since timeout rest (step (asks now) cb) s' in
    (kept, (refused, all_refused))
run-Shut since timeout (succeeding rest) cb s =
    run-Shut since timeout rest (step succeeds cb) (step-succeeds-Shut since timeout cb s)
run-Shut since timeout (failing {now} late rest) cb s =
    run-Shut since timeout rest (step (fails now) cb) (step-fails-Shut since timeout now cb late s)

-- An open breaker stays open and refuses every request that asks no later than the timeout after
-- its last failure, whatever is recorded meanwhile.
pub run-refuses :
    (cb : CircuitBreaker) (cs : List BreakerCall)
    → cb.state ≡ open_circuit
    → Within cb.last_fail_time cb.reset_timeout cs
    → ((run cb cs).state ≡ open_circuit) × All (λ b. b ≡ false) (answers cb cs)
run-refuses cb cs is_shut within =
    let (kept, refused) =
      run-Shut cb.last_fail_time cb.reset_timeout within cb
        (record { shut = is_shut; later = ground arith; same = refl }) in
    (kept.shut, refused)
