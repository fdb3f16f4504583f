-- ===== src/Cache/Local.antt =====
-- internal/infrastructure/cache/local_cache.go. The shards are indexed by numbers, a time is the
-- clock's nanoseconds. A loop over all the shards treats each alike and no method holds two locks,
-- so that one call is one step on every shard that it reaches.
pub mod Reads
pub mod Latest
pub mod Effects
pub mod Gets
pub mod Capacity
use Prim.Native.Nat.{bit_and}
use censorhub.Prelude.{
  ℕ, zero, suc, ◌+◌, ◌/◌, ◌==◌, Bool, true, false, ◌&&◌, Option, none, some, List, [], ◌∷◌, ltb,
  leb, if◌then◌else◌, length, update, ℤ, pos, negsuc,
}
use censorhub.Text.{Text, text_eq}
use censorhub.Cache.Hash.{sum32a}
use censorhub.Cache.Table.{lookup, store, erase}

abbrev pub local_cache_shards : ℕ
local_cache_shards = 32

pub record CacheItem : Type 0 where
  pub value : List ℕ  -- []byte
  pub expired_at : ℕ

pub record LocalCache : Type 0 where
  pub shards : ℕ → List (Text × CacheItem)
  pub ttl : ℕ
  pub max_items : ℤ

unfoldable pub new_local_cache : ℕ → ℤ → LocalCache
new_local_cache ttl max_items = record { shards = λ i. []; ttl = ttl; max_items = max_items }

unfoldable pub shard_for : Text → ℕ
shard_for key = bit_and (sum32a key) 31

-- 0 stands for no limit.
unfoldable pub shard_limit : ℤ → ℕ
shard_limit (negsuc n) = 0
shard_limit (pos n) =
    if n == 0 then 0 else if ltb n local_cache_shards then 1 else n / local_cache_shards

unfoldable pub per_shard_limit : LocalCache → ℕ
unfolding shard_limit
per_shard_limit c = shard_limit c.max_items

-- `Get` at the time `now`.
unfoldable pub get_item : ℕ → Option CacheItem → Option (List ℕ)
get_item now none = none
get_item now (some item) = if ltb item.expired_at now then none else some item.value

unfoldable pub get : ℕ → Text → LocalCache → Option (List ℕ)
unfolding get_item lookup shard_for
get now key c = get_item now (lookup key (c.shards (shard_for key)))

-- `limit > 0 && len(s.items) >= limit`, and the key is new.
unfoldable pub is_refused : Text → LocalCache → Bool
unfolding per_shard_limit lookup shard_for
is_refused key c =
    let items = c.shards (shard_for key) in
    ltb 0 (per_shard_limit c)
    && leb (per_shard_limit c) (length items)
    && elim (lookup key items) [ none ↦ true | some item ↦ false ]

unfoldable pub set : ℕ → Text → List ℕ → LocalCache → LocalCache
unfolding is_refused store shard_for
set now key value c =
    let s = shard_for key in
    let item : CacheItem = record { value = value; expired_at = now + c.ttl } in
    if is_refused key c
    then c
    else record c { shards = update c.shards s (store key item (c.shards s)) }

unfoldable pub delete : Text → LocalCache → LocalCache
unfolding erase shard_for text_eq
delete key c =
    let s = shard_for key in
    record c { shards = update c.shards s (erase (text_eq key) (c.shards s)) }

-- `strings.HasPrefix`
unfoldable pub has_prefix : Text → Text → Bool
has_prefix [] text = true
has_prefix (r ∷ rs) [] = false
has_prefix (r ∷ rs) (c ∷ cs) = r == c && has_prefix rs cs

unfoldable pub delete_by_prefix : Text → LocalCache → LocalCache
unfolding erase has_prefix
delete_by_prefix prefix c = record c { shards = λ i. erase (has_prefix prefix) (c.shards i) }

unfoldable pub invalidate_all : LocalCache → LocalCache
invalidate_all c = record c { shards = λ i. [] }

abbrev pub max_evict_per_shard_per_cycle : ℕ
max_evict_per_shard_per_cycle = 1000

unfoldable pub is_expired : ℕ → Option CacheItem → Bool
is_expired now none = false
is_expired now (some item) = ltb item.expired_at now

-- The loop over one shard, for the keys in the order of the visits, with what may yet be evicted.
unfoldable pub evict_keys : ℕ → ℕ → List Text → List (Text × CacheItem) → List (Text × CacheItem)
unfolding is_expired lookup erase text_eq
evict_keys now zero ks items = items
evict_keys now (suc budget) [] items = items
evict_keys now (suc budget) (k ∷ ks) items = elim (is_expired now (lookup k items)) [
  | true ↦ evict_keys now budget ks (erase (text_eq k) items)
  | false ↦ evict_keys now (suc budget) ks items
]

-- The order in which `range` visits the keys of a shard is the runtime's choice.
unfoldable pub evict_expired : (List (Text × CacheItem) → List Text) → ℕ → LocalCache → LocalCache
unfolding evict_keys
evict_expired visits now c = record c {
  shards = λ i. evict_keys now max_evict_per_shard_per_cycle (visits (c.shards i)) (c.shards i);
}
