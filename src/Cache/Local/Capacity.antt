-- ===== src/Cache/Local/Capacity.antt =====
-- The capacity of the local cache: no shard ever holds more than its limit.
use censorhub.Prelude.{
  ℕ, zero, suc, ◌+◌, ◌*◌, ◌≤◌, ◌<◌, ◌≡◌, ◌∙◌, refl, false, List, [], ◌∷◌, ltb, ap, length, update,
  ◌==◌, if◌then◌else◌, pos, arith, Bool-cases, Option-cases, inl, inr,
}
use censorhub.Text.{Text, text_eq}
use censorhub.Cache.Table.{lookup, store, erase, length-store_new, length-store_old, length-erase}
use censorhub.Cache.Local.{
  CacheItem, LocalCache, new_local_cache, local_cache_shards, shard_limit, per_shard_limit,
  is_refused, set, delete, has_prefix, delete_by_prefix, invalidate_all, is_expired, evict_keys,
  evict_expired, shard_for,
}
use censorhub.Cache.Local.Reads.{item_at}
use censorhub.Cache.Local.Latest.{
  CacheCall, sets, deletes, deletes_prefix, invalidates, evicts, step_cache, run_cache,
  step_cache-max_items,
}

-- No shard is above the limit.
abbrev pub Fits : ℕ → LocalCache → Type 0
Fits limit c = (i : ℕ) → length (c.shards i) ≤ limit

update-Fits :
    (limit s : ℕ) (c : LocalCache) (t : List (Text × CacheItem))
    → Fits limit c
    → length t ≤ limit
    → (i : ℕ) → length (update c.shards s t i) ≤ limit
update-Fits limit s c t fits small i = elim (Bool-cases (i == s)) [
  | inl e ↦ rw (e) small
  | inr n ↦ rw (n) (fits i)
]

admitted-length :
    (limit : ℕ) (now : ℕ) (key : Text) (value : List ℕ) (c : LocalCache)
    → 0 < limit
    → per_shard_limit c ≡ limit
    → Fits limit c
    → is_refused key c ≡ false
    → length (store key (item_at now value c) (c.shards (shard_for key))) ≤ limit
unfolding is_refused
admitted-length limit now key value c some_limit same fits admitted =
    let items = c.shards (shard_for key) in
    let below = fits (shard_for key) in
    elim (Option-cases (lookup key items)) [
      | inl e ↦
          let grows = length-store_new key (item_at now value c) items e in
          let admitted' = rw (e) at admitted in ground arith
      | inr (old, e) ↦
          let stays = length-store_old key (item_at now value c) old items e in rw (stays) below
    ]

set-Fits :
    (limit : ℕ) (now : ℕ) (key : Text) (value : List ℕ) (c : LocalCache)
    → 0 < limit
    → per_shard_limit c ≡ limit
    → Fits limit c
    → Fits limit (set now key value c)
unfolding set
set-Fits limit now key value c some_limit same fits i = elim (Bool-cases (is_refused key c)) [
  | inl r ↦ rw (r) (fits i)
  | inr a ↦ rw (a) (
      update-Fits limit (shard_for key) c
        (store key (item_at now value c) (c.shards (shard_for key))) fits
        (admitted-length limit now key value c some_limit same fits a) i)
]

length-evict_keys :
    (now budget : ℕ) (ks : List Text) (items : List (Text × CacheItem))
    → length (evict_keys now budget ks items) ≤ length items
unfolding evict_keys
length-evict_keys now zero ks items = ground arith
length-evict_keys now (suc budget) [] items = ground arith
length-evict_keys now (suc budget) (k ∷ ks) items =
    let shrinks = length-erase (text_eq k) items in
    let rest = length-evict_keys now budget ks (erase (text_eq k) items) in
    let other = length-evict_keys now (suc budget) ks items in
    elim (Bool-cases (is_expired now (lookup k items))) [
      | inl e ↦ rw (evict_keys, e) (omega arith)
      | inr n ↦ rw (evict_keys, n) other
    ]

step_cache-Fits :
    (visits : List (Text × CacheItem) → List Text) (limit : ℕ) (call : CacheCall) (c : LocalCache)
    → 0 < limit
    → per_shard_limit c ≡ limit
    → Fits limit c
    → Fits limit (step_cache visits call c)
unfolding step_cache delete delete_by_prefix invalidate_all evict_expired
step_cache-Fits visits limit (sets now key value) c some_limit same fits i =
    set-Fits limit now key value c some_limit same fits i
step_cache-Fits visits limit (deletes key) c some_limit same fits i =
    let shrinks = length-erase (text_eq key) (c.shards (shard_for key)) in
    let below = fits (shard_for key) in
    update-Fits limit (shard_for key) c (erase (text_eq key) (c.shards (shard_for key))) fits
      (omega arith) i
step_cache-Fits visits limit (deletes_prefix prefix) c some_limit same fits i =
    let shrinks = length-erase (has_prefix prefix) (c.shards i) in let below = fits i in omega arith
step_cache-Fits visits limit invalidates c some_limit same fits i = omega arith
step_cache-Fits visits limit (evicts now) c some_limit same fits i =
    let shrinks = length-evict_keys now 1000 (visits (c.shards i)) (c.shards i) in
    let below = fits i in omega arith

run_cache-Fits :
    (visits : List (Text × CacheItem) → List Text) (limit : ℕ) (calls : List CacheCall)
    (c : LocalCache)
    → 0 < limit
    → shard_limit c.max_items ≡ limit
    → Fits limit c
    → Fits limit (run_cache visits c calls)
unfolding run_cache
run_cache-Fits visits limit [] c some_limit same fits = fits
run_cache-Fits visits limit (call ∷ calls) c some_limit same fits =
    run_cache-Fits visits limit calls (step_cache visits call c) some_limit
      (ap shard_limit (step_cache-max_items visits call c) ∙ same)
      (step_cache-Fits visits limit call c some_limit (unfold per_shard_limit in same) fits)

-- The items of the first shards.
unfoldable pub items_in : ℕ → LocalCache → ℕ
items_in zero c = 0
items_in (suc k) c = items_in k c + length (c.shards k)

items_in-Fits : (limit k : ℕ) (c : LocalCache) → Fits limit c → items_in k c ≤ k * limit
unfolding items_in
items_in-Fits limit zero c fits = ground arith
items_in-Fits limit (suc k) c fits =
    let rest = items_in-Fits limit k c fits in let here = fits k in ground arith

shard_limit_pos : (n : ℕ) → 0 < n → 0 < shard_limit (pos n)
unfolding shard_limit
shard_limit_pos n h = ground arith

shard_limit_total : (n : ℕ) → 0 < n → 32 * shard_limit (pos n) ≤ (if ltb n 32 then 32 else n)
unfolding shard_limit
shard_limit_total n h = ground arith

-- For any calls on a new cache with a limit of at least 1, the 32 shards together never hold more
-- items than the limit, or 32 where it is smaller.
pub run_cache-length :
    (visits : List (Text × CacheItem) → List Text) (ttl max_items : ℕ) (calls : List CacheCall)
    → 0 < max_items
    → items_in local_cache_shards (run_cache visits (new_local_cache ttl (pos max_items)) calls)
      ≤ (if ltb max_items 32 then 32 else max_items)
run_cache-length visits ttl max_items calls some_items =
    let c = new_local_cache ttl (pos max_items) in
    let limit = shard_limit (pos max_items) in
    let fits : Fits limit (run_cache visits c calls) =
      run_cache-Fits visits limit calls c (shard_limit_pos max_items some_items)
        (unfold new_local_cache in refl) (unfold new_local_cache in λ i. ground arith) in
    let total = items_in-Fits limit 32 (run_cache visits c calls) fits in
    let bound = shard_limit_total max_items some_items in omega arith
