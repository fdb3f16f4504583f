-- ===== src/Cache/Local/Latest.antt =====
-- The local cache against the latest write: what `Get` answers after any calls of its methods.
use censorhub.Prelude.{
  ℕ, ◌+◌, ◌≤◌, ◌≡◌, refl, Option, none, some, List, [], ◌∷◌, ltb, if◌then◌else◌, arith,
}
use censorhub.Text.{Text, text_eq}
use censorhub.Cache.Local.{
  CacheItem, LocalCache, set, delete, has_prefix, delete_by_prefix, invalidate_all, evict_expired,
}

-- The calls that change the cache, with the time where the method reads the clock.
pub data CacheCall : Type 0 where
  sets : ℕ → Text → List ℕ → CacheCall
  deletes : Text → CacheCall
  deletes_prefix : Text → CacheCall
  invalidates : CacheCall
  evicts : ℕ → CacheCall

module _ (visits : List (Text × CacheItem) → List Text) where
  unfoldable pub step_cache : CacheCall → LocalCache → LocalCache
  unfolding set delete delete_by_prefix invalidate_all evict_expired
  step_cache (sets now key value) c = set now key value c
  step_cache (deletes key) c = delete key c
  step_cache (deletes_prefix prefix) c = delete_by_prefix prefix c
  step_cache invalidates c = invalidate_all c
  step_cache (evicts now) c = evict_expired visits now c

  unfoldable pub run_cache : LocalCache → List CacheCall → LocalCache
  unfolding step_cache
  run_cache c [] = c
  run_cache c (call ∷ calls) = run_cache (step_cache call c) calls

-- The write of a key that no later write or deletion supersedes, with its time.
unfoldable pub latest_after : Text → CacheCall → Option (ℕ × List ℕ) → Option (ℕ × List ℕ)
latest_after k (sets now key value) w = if text_eq k key then some (now, value) else w
latest_after k (deletes key) w = if text_eq k key then none else w
latest_after k (deletes_prefix prefix) w = if has_prefix prefix k then none else w
latest_after k invalidates w = none
latest_after k (evicts now) w = w

unfoldable pub latest : Text → Option (ℕ × List ℕ) → List CacheCall → Option (ℕ × List ℕ)
unfolding latest_after
latest k w [] = w
latest k w (call ∷ calls) = latest k (latest_after k call w) calls

-- What a write is worth at a time: nothing once its time to live is over.
unfoldable pub fresh : ℕ → ℕ → Option (ℕ × List ℕ) → Option (List ℕ)
fresh ttl later none = none
fresh ttl later (some (now, value)) = if ltb (now + ttl) later then none else some value

-- The evictions among the calls happen no later than a time.
abbrev pub EvictsBy : ℕ → List CacheCall → Type 0
EvictsBy later [] = Unit
EvictsBy later (evicts now ∷ calls) = (now ≤ later) × EvictsBy later calls
EvictsBy later (sets now key value ∷ calls) = EvictsBy later calls
EvictsBy later (deletes key ∷ calls) = EvictsBy later calls
EvictsBy later (deletes_prefix prefix ∷ calls) = EvictsBy later calls
EvictsBy later (invalidates ∷ calls) = EvictsBy later calls

set-ttl :
    (now : ℕ) (key : Text) (value : List ℕ) (c : LocalCache) → (set now key value c).ttl ≡ c.ttl
unfolding set
set-ttl now key value c = ground arith

set-max_items :
    (now : ℕ) (key : Text) (value : List ℕ) (c : LocalCache)
    → (set now key value c).max_items ≡ c.max_items
unfolding set
set-max_items now key value c = ground arith

pub step_cache-ttl :
    (visits : List (Text × CacheItem) → List Text) (call : CacheCall) (c : LocalCache)
    → (step_cache visits call c).ttl ≡ c.ttl
unfolding step_cache
step_cache-ttl visits (sets now key value) c = set-ttl now key value c
step_cache-ttl visits (deletes key) c = unfold delete in refl
step_cache-ttl visits (deletes_prefix prefix) c = unfold delete_by_prefix in refl
step_cache-ttl visits invalidates c = unfold invalidate_all in refl
step_cache-ttl visits (evicts now) c = unfold evict_expired in refl

pub step_cache-max_items :
    (visits : List (Text × CacheItem) → List Text) (call : CacheCall) (c : LocalCache)
    → (step_cache visits call c).max_items ≡ c.max_items
unfolding step_cache
step_cache-max_items visits (sets now key value) c = set-max_items now key value c
step_cache-max_items visits (deletes key) c = unfold delete in refl
step_cache-max_items visits (deletes_prefix prefix) c = unfold delete_by_prefix in refl
step_cache-max_items visits invalidates c = unfold invalidate_all in refl
step_cache-max_items visits (evicts now) c = unfold evict_expired in refl
