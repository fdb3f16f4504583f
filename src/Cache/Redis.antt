-- ===== src/Cache/Redis.antt =====
-- internal/infrastructure/cache/redis_cache.go over the client of go-redis: the store is the keys of
-- Redis with their values and times of expiry, in the order of no promise; the pages of SCAN and the
-- outcomes of the pipelines are arguments. Other clients do not write meanwhile.
pub mod Laws
use censorhub.Prelude.{
  ℕ, ◌+◌, Bool, true, false, ◌||◌, Option, none, some, List, [], ◌∷◌, ◌++◌, ◌==◌, ltb,
  if◌then◌else◌, is_empty,
}
use censorhub.Text.{Text, runes, text_eq}
use censorhub.Cache.Table.{lookup, store, erase}
use censorhub.Cache.MultiLevel.{RedisReply, replied, refused, redis_nil}

pub record RedisCache : Type 0 where
  pub entries : List (Text × (List ℕ × Option ℕ))
  pub ttl : ℕ

-- An entry that has expired is not seen; one without a time of expiry is kept.
unfoldable pub show_entry : ℕ → Option (List ℕ × Option ℕ) → RedisReply (List ℕ)
show_entry now none = refused redis_nil
show_entry now (some (value, none)) = replied value
show_entry now (some (value, some expires)) =
    if ltb now expires then replied value else refused redis_nil

-- `client.Get`
unfoldable pub redis_get : ℕ → Text → RedisCache → RedisReply (List ℕ)
unfolding lookup show_entry
redis_get now key c = show_entry now (lookup key c.entries)

-- `client.Set` takes a time to live of 0 as none.
unfoldable pub redis_set : ℕ → Text → List ℕ → RedisCache → RedisCache
unfolding store
redis_set now key value c =
    let expires = if c.ttl == 0 then none else some (now + c.ttl) in
    record c { entries = store key (value, expires) c.entries }

unfoldable pub among : List Text → Text → Bool
unfolding text_eq
among [] key = false
among (k ∷ ks) key = text_eq k key || among ks key

-- The pipeline of `Unlink`.
unfoldable pub unlink : List Text → RedisCache → RedisCache
unfolding erase among
unlink keys c = record c { entries = erase (among keys) c.entries }

-- A turn of the loop: the page of SCAN with the next cursor, and what became of its pipeline; where
-- that fails, the keys that it unlinked before.
pub record ScanTurn : Type 0 where
  pub page : RedisReply (List Text × ℕ)
  pub exec : RedisReply Unit
  pub unlinked : List Text

-- The loop of `DeleteByPrefix`; `none` where it goes on after the turns.
unfoldable pub delete_pages : List ScanTurn → RedisCache → Option (RedisReply Unit × RedisCache)
unfolding unlink
delete_pages [] c = none
delete_pages (turn ∷ turns) c = elim turn.page [
  | refused e ↦ some (refused e, c)
  | replied (keys, next_cursor) ↦
      let again = delete_pages turns (unlink keys c) in
      if is_empty keys
      then (if next_cursor == 0 then some (replied tt, c) else delete_pages turns c)
      else elim turn.exec [
        | refused e ↦ some (refused e, unlink turn.unlinked c)
        | replied done ↦ if next_cursor == 0 then some (replied tt, unlink keys c) else again
      ]
]
