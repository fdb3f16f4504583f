-- ===== src/Cache/Redis/Laws.antt =====
-- A complete scan clears a prefix, and with the local cache both levels.
use censorhub.Prelude.{
  ℕ, ◌≡◌, refl, sym, ap, ◌∙◌, ◌⊎◌, Bool, true, false, ◌||◌, Option, none, some, List, [], ◌∷◌, ◌==◌,
  is_empty, arith, if◌then◌else◌, Bool-cases, Option-cases, inl, inr,
}
use censorhub.Text.{Text}
use censorhub.Cache.Table.{lookup, lookup-erase}
use censorhub.Cache.Local.{get, get_item, shard_for, has_prefix, delete_by_prefix}
use censorhub.Cache.MultiLevel.{MultiLevelCache, replied, refused, redis_nil, invalidate_by_prefix}
use censorhub.Cache.Redis.{RedisCache, show_entry, redis_get, among, unlink, ScanTurn, delete_pages}

-- The pages of one whole scan, up to the cursor 0, without an error.
unfoldable pub IsScan : List ScanTurn → Type 0
IsScan [] = ⊥
IsScan (turn ∷ turns) =
    (keys : List Text) × (next_cursor : ℕ) × (turn.page ≡ replied (keys, next_cursor))
    × (turn.exec ≡ replied tt)
    × (((next_cursor == 0) ≡ true) × (turns ≡ []) ⊎ ((next_cursor == 0) ≡ false) × IsScan turns)

-- A key that some page has.
unfoldable pub returned : List ScanTurn → Text → Bool
unfolding among
returned [] key = false
returned (turn ∷ turns) key =
    elim turn.page [ refused e ↦ false | replied (keys, next_cursor) ↦ among keys key ]
    || returned turns key

among-empty : (keys : List Text) (key : Text) → is_empty keys ≡ true → among keys key ≡ false
unfolding among
among-empty [] key e = refl
among-empty (k ∷ ks) key e = absurd (ground arith)

unlink-either :
    (keys : List Text) (more : Bool) (c : RedisCache) (key : Text)
    (rest : Option (List ℕ × Option ℕ))
    → rest ≡ (if more then none else lookup key (unlink keys c).entries)
    → rest ≡ (if among keys key || more then none else lookup key c.entries)
unfolding unlink
unlink-either keys more c key rest h =
    let erased = lookup-erase key (among keys) c.entries in
    elim (Bool-cases (among keys key)) [
      | inl y ↦ elim (Bool-cases more) [
        | inl m ↦ rw (y) (rw (m) at h)
        | inr m ↦ rw (y) (rw (m) at h ∙ rw (y) at erased)
      ]
      | inr n ↦ elim (Bool-cases more) [
        | inl m ↦ rw (n, m) (rw (m) at h)
        | inr m ↦ rw (n, m) (rw (m) at h ∙ rw (n) at erased)
      ]
    ]

-- The store after some pages.
Cleared : List ScanTurn → RedisCache → RedisCache → Type 0
Cleared turns c c' =
    (key : Text)
    → lookup key c'.entries ≡ (if returned turns key then none else lookup key c.entries)

delete_pages-Cleared :
    (turns : List ScanTurn) (c : RedisCache)
    → IsScan turns
    → (c' : RedisCache) × (delete_pages turns c ≡ some (replied tt, c')) × Cleared turns c c'
unfolding IsScan delete_pages returned unlink Cleared
delete_pages-Cleared [] c h = absurd h
delete_pages-Cleared (turn ∷ turns) c (keys, next_cursor, paged, done, inl (last, no_more)) =
    elim (Bool-cases (is_empty keys)) [
      | inl e ↦ (
        c,
        rw (delete_pages, paged, e, last) refl,
        λ key. rw (paged, among-empty keys key e, no_more) refl,
      )
      | inr n ↦ (
        unlink keys c,
        rw (delete_pages, paged, n, done, last) refl,
        λ key. rw (paged, no_more) (unlink-either keys false c key _ refl),
      )
    ]
delete_pages-Cleared (turn ∷ turns) c (keys, next_cursor, paged, done, inr (more, h)) =
    elim (Bool-cases (is_empty keys)) [
      | inl e ↦
          let (c', ran, cleared) = delete_pages-Cleared turns c h in
          (
            c',
            rw (delete_pages, paged, e, more) ran,
            λ key. rw (paged, among-empty keys key e) (cleared key),
          )
      | inr n ↦
          let (c', ran, cleared) = delete_pages-Cleared turns (unlink keys c) h in
          (
            c',
            rw (delete_pages, paged, n, done, more) ran,
            λ key. rw (paged) (
                unlink-either keys (returned turns key) c key (lookup key c'.entries)
                  (cleared key)),
          )
    ]

-- Where the pages have just the keys of the store with the prefix.
Cleared-prefix :
    (turns : List ScanTurn) (prefix key : Text) (c c' : RedisCache)
    → Cleared turns c c'
    → ((entry : List ℕ × Option ℕ)
        → lookup key c.entries ≡ some entry
        → returned turns key ≡ has_prefix prefix key)
    → lookup key c'.entries ≡ (if has_prefix prefix key then none else lookup key c.entries)
unfolding Cleared
Cleared-prefix turns prefix key c c' cleared covers = elim (Option-cases (lookup key c.entries)) [
  | inr (entry, e) ↦ rw (sym (covers entry e)) (cleared key)
  | inl e ↦
      let gone : lookup key c'.entries ≡ none = elim (Bool-cases (returned turns key)) [
        | inl y ↦ rw (y) at (cleared key)
        | inr n ↦ rw (n, e) at (cleared key)
      ] in
      elim (Bool-cases (has_prefix prefix key)) [
        | inl y ↦ rw (y) gone
        | inr n ↦ rw (n) (gone ∙ sym e)
      ]
]

-- What the invalidation of a prefix leaves of one key.
abbrev pub IsInvalidated :
    Text → Text → ℕ → ℕ → RedisCache → RedisCache → MultiLevelCache → MultiLevelCache → Type 0
IsInvalidated prefix key now looked c c' m m' =
    ((has_prefix prefix key ≡ true)
      × (redis_get now key c' ≡ refused redis_nil)
      × (get looked key m'.local ≡ none))
    ⊎ ((has_prefix prefix key ≡ false)
        × (redis_get now key c' ≡ redis_get now key c)
        × (get looked key m'.local ≡ get looked key m.local))

-- A scan that returns every key with the prefix, and only those, and ends with the cursor 0 without an
-- error, ends the deletion after its pages: no key with the prefix is found any more in Redis nor,
-- after the invalidation, in the local cache, and every other key is found as before.
pub delete_pages-IsInvalidated :
    (turns : List ScanTurn) (prefix : Text) (c : RedisCache) (m : MultiLevelCache)
    (asked answered now looked : ℕ)
    → IsScan turns
    → ((key : Text) (entry : List ℕ × Option ℕ)
        → lookup key c.entries ≡ some entry
        → returned turns key ≡ has_prefix prefix key)
    → (c' : RedisCache) × (delete_pages turns c ≡ some (replied tt, c'))
      × ((key : Text)
          → IsInvalidated prefix key now looked c c' m
              (invalidate_by_prefix asked answered prefix (replied tt) m))
unfolding Cleared redis_get show_entry get delete_by_prefix invalidate_by_prefix
delete_pages-IsInvalidated turns prefix c m asked answered now looked scan covers =
    let (c', ran, cleared) = delete_pages-Cleared turns c scan in
    (
      c',
      ran,
      λ key.
          let there = Cleared-prefix turns prefix key c c' cleared (covers key) in
          let erased = lookup-erase key (has_prefix prefix) (m.local.shards (shard_for key)) in
          elim (Bool-cases (has_prefix prefix key)) [
            | inl y ↦
                inl (
                  y,
                  ap (show_entry now) (rw (y) at there),
                  ap (get_item looked) (rw (y) at erased),
                )
            | inr n ↦
                inr (
                  n,
                  ap (show_entry now) (rw (n) at there),
                  ap (get_item looked) (rw (n) at erased),
                )
          ],
    )
