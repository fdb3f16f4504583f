-- ===== src/Cache/Local/Gets.antt =====
-- What `Get` of the local cache answers after any calls of its methods.
use censorhub.Prelude.{ℕ, ◌≡◌, ◌⊎◌, inl, inr, refl, ◌∙◌, Option, none, List, [], ◌∷◌, ap, ℤ}
use censorhub.Text.{Text}
use censorhub.Cache.Table.{lookup}
use censorhub.Cache.Local.{
  CacheItem, LocalCache, new_local_cache, shard_limit, per_shard_limit, get_item, get,
}
use censorhub.Cache.Local.Reads.{find}
use censorhub.Cache.Local.Latest.{
  CacheCall, sets, deletes, deletes_prefix, invalidates, evicts, step_cache, run_cache,
  latest_after, latest, fresh, EvictsBy, step_cache-ttl, step_cache-max_items,
}
use censorhub.Cache.Local.Effects.{Sound, Effect-Sound, Effect-fresh, step_cache-Effect}

get-find : (later : ℕ) (key : Text) (c : LocalCache) → get later key c ≡ get_item later (find key c)
unfolding get find
get-find later key c = refl

get_item-new :
    (later ttl : ℕ) (max_items : ℤ) (key : Text)
    → get_item later (find key (new_local_cache ttl max_items)) ≡ none
unfolding find new_local_cache lookup get_item
get_item-new later ttl max_items key = refl

run_cache-Sound :
    (visits : List (Text × CacheItem) → List Text) (later : ℕ) (k : Text) (calls : List CacheCall)
    (c : LocalCache) (w : Option (ℕ × List ℕ))
    → Sound later k c w
    → Sound later k (run_cache visits c calls) (latest k w calls)
unfolding run_cache latest
run_cache-Sound visits later k [] c w s = s
run_cache-Sound visits later k (call ∷ calls) c w s =
    run_cache-Sound visits later k calls (step_cache visits call c) (latest_after k call w) (
      Effect-Sound later k c (step_cache visits call c) w (latest_after k call w) call
        (step_cache-ttl visits call c) (step_cache-Effect visits k call c w) s)

EvictsBy-head :
    (later : ℕ) (call : CacheCall) (calls : List CacheCall)
    → EvictsBy later (call ∷ calls)
    → EvictsBy later (call ∷ []) × EvictsBy later calls
EvictsBy-head later (sets now key value) calls e = (tt, e)
EvictsBy-head later (deletes key) calls e = (tt, e)
EvictsBy-head later (deletes_prefix prefix) calls e = (tt, e)
EvictsBy-head later invalidates calls e = (tt, e)
EvictsBy-head later (evicts now) calls e = ((e.0, tt), e.1)

run_cache-fresh :
    (visits : List (Text × CacheItem) → List Text) (later : ℕ) (k : Text) (calls : List CacheCall)
    (c : LocalCache) (w : Option (ℕ × List ℕ))
    → shard_limit c.max_items ≡ 0
    → EvictsBy later calls
    → get_item later (find k c) ≡ fresh c.ttl later w
    → get_item later (find k (run_cache visits c calls))
      ≡ fresh (run_cache visits c calls).ttl later (latest k w calls)
unfolding run_cache latest
run_cache-fresh visits later k [] c w free early s = s
run_cache-fresh visits later k (call ∷ calls) c w free early s =
    let (now_early, rest_early) = EvictsBy-head later call calls early in
    let same = step_cache-max_items visits call c in
    run_cache-fresh visits later k calls (step_cache visits call c) (latest_after k call w)
      (rw (same) free) rest_early
      (Effect-fresh later k c (step_cache visits call c) w (latest_after k call w) call
        (step_cache-ttl visits call c) (unfold per_shard_limit in free) now_early
        (step_cache-Effect visits k call c w) s)

run_cache-ttl :
    (visits : List (Text × CacheItem) → List Text) (calls : List CacheCall) (c : LocalCache)
    → (run_cache visits c calls).ttl ≡ c.ttl
unfolding run_cache
run_cache-ttl visits [] c = refl
run_cache-ttl visits (call ∷ calls) c =
    run_cache-ttl visits calls (step_cache visits call c) ∙ step_cache-ttl visits call c

-- After any calls on a new cache and for every order of the evictions' visits, `Get` answers
-- nothing, or the value of the latest write of the key that no deletion followed, and that only
-- while the write is within its time to live.
pub get-latest :
    (visits : List (Text × CacheItem) → List Text) (ttl : ℕ) (max_items : ℤ)
    (calls : List CacheCall) (later : ℕ) (key : Text)
    → (get later key (run_cache visits (new_local_cache ttl max_items) calls) ≡ none)
      ⊎ (get later key (run_cache visits (new_local_cache ttl max_items) calls)
          ≡ fresh ttl later (latest key none calls))
get-latest visits ttl max_items calls later key =
    let c = new_local_cache ttl max_items in
    let s =
      run_cache-Sound visits later key calls c none (inl (get_item-new later ttl max_items key)) in
    let same : (run_cache visits c calls).ttl ≡ ttl =
      run_cache-ttl visits calls c ∙ unfold new_local_cache in refl in
    let found = get-find later key (run_cache visits c calls) in
    elim s [
      | inl e ↦ inl (found ∙ e)
      | inr e ↦ inr (found ∙ e ∙ ap (λ t. fresh t later (latest key none calls)) same)
    ]

-- Without a limit on the items, and if no eviction is later than the call of `Get`, it answers
-- exactly the latest write of the key while that is within its time to live.
pub get-unlimited :
    (visits : List (Text × CacheItem) → List Text) (ttl : ℕ) (max_items : ℤ)
    (calls : List CacheCall) (later : ℕ) (key : Text)
    → shard_limit max_items ≡ 0
    → EvictsBy later calls
    → get later key (run_cache visits (new_local_cache ttl max_items) calls)
      ≡ fresh ttl later (latest key none calls)
get-unlimited visits ttl max_items calls later key free early =
    let c = new_local_cache ttl max_items in
    let s =
      run_cache-fresh visits later key calls c none (unfold new_local_cache in free) early
        (unfold fresh in get_item-new later ttl max_items key) in
    let same : (run_cache visits c calls).ttl ≡ ttl =
      run_cache-ttl visits calls c ∙ unfold new_local_cache in refl in
    get-find later key (run_cache visits c calls)
    ∙ s
    ∙ ap (λ t. fresh t later (latest key none calls)) same
