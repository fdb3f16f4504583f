-- ===== src/Tests/Caching.antt =====
-- Runs of the circuit breaker and of the caches, and the theorems about them at concrete inputs.
use censorhub.Prelude.{
  suc, ◌+◌, ◌≤◌, ◌<◌, ◌≡◌, ◌⊎◌, ◌↔◌, refl, true, false, none, List, [], ◌∷◌, All, pos,
  if◌then◌else◌, ltb, arith,
}
use censorhub.Text.{Text, runes}
use censorhub.Cache.Breaker.{
  closed, new_circuit_breaker, BreakerCall, asks, succeeds, fails, run, answers, is_open,
  record_failure, record_success, step, allow,
}
use censorhub.Cache.Breaker.Laws.{IsConsistent, Recovers, run-Recovers}
use censorhub.Cache.Breaker.Streak.{streak, reaches, run-streak}
use censorhub.Cache.Local.{CacheItem, new_local_cache, local_cache_shards, shard_limit, get}
use censorhub.Cache.Local.Latest.{CacheCall, sets, evicts, run_cache, latest, fresh}
use censorhub.Cache.Local.Gets.{get-latest, get-unlimited}
use censorhub.Cache.Local.Capacity.{items_in, run_cache-length}

abbrev calls : List BreakerCall
calls = fails 3 ∷ succeeds ∷ fails 5 ∷ asks 6 ∷ []

calls-late :
    (run (new_circuit_breaker 5 10) calls).last_fail_time
      + (run (new_circuit_breaker 5 10) calls).reset_timeout
    < 16
unfolding run step allow record_success record_failure new_circuit_breaker
calls-late = omega arith

run-Recovers_example :
    IsConsistent (run (new_circuit_breaker 5 10) calls)
    × Recovers (run (new_circuit_breaker 5 10) calls) 16
run-Recovers_example = run-Recovers 5 10 calls 16 calls-late

calls-quiet : reaches 2 0 calls ≡ false
unfolding reaches
calls-quiet = refl

run-streak_example :
    let cb = run (new_circuit_breaker 2 10) calls in
    (cb.state ≡ closed)
    × (cb.fail_count ≡ streak 0 calls)
    × All (λ b. b ≡ true) (answers (new_circuit_breaker 2 10) calls)
    × ((is_open (record_failure 7 cb) ≡ true) ↔ (2 ≤ suc (streak 0 calls)))
run-streak_example = run-streak 2 10 7 calls calls-quiet

abbrev first_key : List (Text × CacheItem) → List Text
first_key [] = []
first_key ((k, item) ∷ t) = k ∷ []

abbrev writes_of_k : List CacheCall
writes_of_k = sets 1 (runes "k") (7 ∷ []) ∷ sets 2 (runes "l") (8 ∷ []) ∷ evicts 3 ∷ []

get-latest_example :
    (get 4 (runes "k") (run_cache first_key (new_local_cache 10 (pos 64)) writes_of_k) ≡ none)
    ⊎ (get 4 (runes "k") (run_cache first_key (new_local_cache 10 (pos 64)) writes_of_k)
        ≡ fresh 10 4 (latest (runes "k") none writes_of_k))
get-latest_example = get-latest first_key 10 (pos 64) writes_of_k 4 (runes "k")

no_limit : shard_limit (pos 0) ≡ 0
unfolding shard_limit
no_limit = refl

get-unlimited_example :
    get 4 (runes "k") (run_cache first_key (new_local_cache 10 (pos 0)) writes_of_k)
    ≡ fresh 10 4 (latest (runes "k") none writes_of_k)
get-unlimited_example =
    get-unlimited first_key 10 (pos 0) writes_of_k 4 (runes "k") no_limit (omega arith, tt)

run_cache-length_example :
    items_in local_cache_shards (run_cache first_key (new_local_cache 10 (pos 5)) writes_of_k)
    ≤ (if ltb 5 32 then 32 else 5)
run_cache-length_example = run_cache-length first_key 10 5 writes_of_k (omega arith)
