-- ===== src/Cache/Breaker/Streak.antt =====
-- When the circuit breaker trips: after as many failures in a row as its threshold.
use censorhub.Prelude.{
  ℕ, suc, ◌≤◌, ◌≡◌, ◌↔◌, refl, Bool, true, false, ◌||◌, List, [], ◌∷◌, leb, All, arith,
}
use censorhub.Cache.Breaker.{
  closed, CircuitBreaker, new_circuit_breaker, allow, record_success, record_failure, is_open,
  BreakerCall, asks, succeeds, fails, step, run, answers,
}

-- The failures at the end of the calls that no success interrupts, after `n` that came before.
unfoldable pub streak : ℕ → List BreakerCall → ℕ
streak n [] = n
streak n (asks now ∷ cs) = streak n cs
streak n (succeeds ∷ cs) = streak 0 cs
streak n (fails now ∷ cs) = streak (suc n) cs

-- Do the calls hold `limit` failures in a row somewhere?
unfoldable pub reaches : ℕ → ℕ → List BreakerCall → Bool
reaches limit n [] = false
reaches limit n (asks now ∷ cs) = reaches limit n cs
reaches limit n (succeeds ∷ cs) = reaches limit 0 cs
reaches limit n (fails now ∷ cs) = leb limit (suc n) || reaches limit (suc n) cs

-- What holds of a breaker, and of the answers up to there, while it counts a streak of `n`.
record Counts (limit n : ℕ) (cb : CircuitBreaker) : Type 0 where
  is_closed : cb.state ≡ closed
  count : cb.fail_count ≡ n
  limited : cb.fail_threshold ≡ limit

step-asks :
    (limit n now : ℕ) (cb : CircuitBreaker)
    → Counts limit n cb
    → Counts limit n (step (asks now) cb)
unfolding step allow
step-asks limit n now cb ok = record {
  is_closed = ground arith;
  count = ground arith;
  limited = ground arith;
}

step-succeeds :
    (limit n : ℕ) (cb : CircuitBreaker) → Counts limit n cb → Counts limit 0 (step succeeds cb)
unfolding step record_success
step-succeeds limit n cb ok = record {
  is_closed = ground arith;
  count = ground arith;
  limited = ground arith;
}

step-fails :
    (limit n now : ℕ) (cb : CircuitBreaker)
    → Counts limit n cb
    → leb limit (suc n) ≡ false
    → Counts limit (suc n) (step (fails now) cb)
unfolding step record_failure
step-fails limit n now cb ok small = record {
  is_closed = ground arith;
  count = ground arith;
  limited = ground arith;
}

allowed : (limit n now : ℕ) (cb : CircuitBreaker) → Counts limit n cb → (allow now cb).0 ≡ true
unfolding allow
allowed limit n now cb ok = ground arith

run-Counts :
    (limit n : ℕ) (cs : List BreakerCall) (cb : CircuitBreaker)
    → Counts limit n cb
    → reaches limit n cs ≡ false
    → Counts limit (streak n cs) (run cb cs) × All (λ b. b ≡ true) (answers cb cs)
unfolding run answers streak reaches
run-Counts limit n [] cb ok quiet = (ok, tt)
run-Counts limit n (asks now ∷ cs) cb ok quiet =
    let (counts, granted) =
      run-Counts limit n cs (step (asks now) cb) (step-asks limit n now cb ok) quiet in
    (counts, (allowed limit n now cb ok, granted))
run-Counts limit n (succeeds ∷ cs) cb ok quiet =
    run-Counts limit 0 cs (step succeeds cb) (step-succeeds limit n cb ok) quiet
run-Counts limit n (fails now ∷ cs) cb ok quiet =
    run-Counts limit (suc n) cs (step (fails now) cb) (step-fails limit n now cb ok (ground arith))
      (ground arith)

-- As long as no `threshold` failures come in a row, a new breaker stays closed, lets every request
-- through and counts the failures since the last success; and the next failure then opens it
-- exactly when it makes them reach the threshold.
pub run-streak :
    (threshold timeout now : ℕ) (cs : List BreakerCall)
    → reaches threshold 0 cs ≡ false
    → let cb = run (new_circuit_breaker threshold timeout) cs in
      (cb.state ≡ closed)
      × (cb.fail_count ≡ streak 0 cs)
      × All (λ b. b ≡ true) (answers (new_circuit_breaker threshold timeout) cs)
      × ((is_open (record_failure now cb) ≡ true) ↔ (threshold ≤ suc (streak 0 cs)))
unfolding new_circuit_breaker record_failure is_open
run-streak threshold timeout now cs quiet =
    let first : Counts threshold 0 (new_circuit_breaker threshold timeout) = record {
      is_closed = refl;
      count = refl;
      limited = refl;
    } in
    let (counts, granted) =
      run-Counts threshold 0 cs (new_circuit_breaker threshold timeout) first quiet in
    let is_closed = counts.is_closed in
    let count = counts.count in
    let limited = counts.limited in
    (is_closed, count, granted, (λ o. ground arith, λ o. ground arith))
