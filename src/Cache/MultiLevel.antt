-- ===== src/Cache/MultiLevel.antt =====
-- internal/infrastructure/cache/multi_level_cache.go. Redis is what each of its calls replies; the
-- readings of the clock in one method are separate arguments, in the order of the source.
pub mod Laws
use censorhub.Prelude.{ℕ, Bool, true, false, Option, none, some, List, ◌∷◌, [], if◌then◌else◌}
use censorhub.Text.{Text}
use censorhub.Cache.Breaker.{
  CircuitBreaker, new_circuit_breaker, allow, record_success, record_failure,
}
use censorhub.Cache.Local.{LocalCache, get, set, delete, delete_by_prefix}

pub data CacheError : Type 0 where
  redis_nil : CacheError
  redis_failure : CacheError

pub data RedisReply (A : Type 0) : Type 0 where
  replied : A → RedisReply A
  refused : CacheError → RedisReply A

pub record MultiLevelCache : Type 0 where
  pub local : LocalCache
  pub breaker : CircuitBreaker

-- `NewCircuitBreaker(5, 10*time.Second)`
unfoldable pub new_multi_level_cache : LocalCache → MultiLevelCache
new_multi_level_cache local = record { local = local; breaker = new_circuit_breaker 5 10000000000 }

-- `IsNotFound`
unfoldable pub is_not_found : CacheError → Bool
is_not_found redis_nil = true
is_not_found redis_failure = false

-- The part of `Get` behind the breaker: an error that is not a miss counts as a failure, a value is
-- filled into the local cache.
unfoldable pub answer_get :
    ℕ → Text → RedisReply (List ℕ) → MultiLevelCache → RedisReply (List ℕ) × MultiLevelCache
unfolding is_not_found
answer_get answered key (refused err) c = (
  refused err,
  if is_not_found err then c else record c { breaker = record_failure answered c.breaker },
)
answer_get answered key (replied value) c = (
  replied value,
  record c { breaker = record_success c.breaker; local = set answered key value c.local },
)

unfoldable pub get_multi :
    ℕ → ℕ → ℕ → Text → RedisReply (List ℕ) → MultiLevelCache → RedisReply (List ℕ) × MultiLevelCache
unfolding answer_get
get_multi looked asked answered key redis c = elim (get looked key c.local) [
  | some value ↦ (replied value, c)
  | none ↦
      let (allowed, b) = allow asked c.breaker in
      let c' = record c { breaker = b } in
      let behind = answer_get answered key redis c' in
      if allowed then behind else (refused redis_nil, c')
]

-- What `Set` and the two invalidations do after the local cache: the error of Redis is dropped.
unfoldable pub tell_redis : ℕ → ℕ → RedisReply Unit → MultiLevelCache → MultiLevelCache
tell_redis asked answered redis c =
    let (allowed, b) = allow asked c.breaker in
    let told : CircuitBreaker = elim redis [
      | refused err ↦ record_failure answered b
      | replied u ↦ record_success b
    ] in
    record c { breaker = if allowed then told else b }

unfoldable pub set_multi :
    ℕ → ℕ → ℕ → Text → List ℕ → RedisReply Unit → MultiLevelCache → MultiLevelCache
unfolding tell_redis
set_multi written asked answered key value redis c =
    tell_redis asked answered redis (record c { local = set written key value c.local })

unfoldable pub invalidate : ℕ → ℕ → Text → RedisReply Unit → MultiLevelCache → MultiLevelCache
unfolding tell_redis
invalidate asked answered key redis c =
    tell_redis asked answered redis (record c { local = delete key c.local })

unfoldable pub invalidate_by_prefix :
    ℕ → ℕ → Text → RedisReply Unit → MultiLevelCache → MultiLevelCache
unfolding tell_redis
invalidate_by_prefix asked answered prefix redis c =
    tell_redis asked answered redis (record c { local = delete_by_prefix prefix c.local })
