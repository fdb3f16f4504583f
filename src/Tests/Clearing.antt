-- ===== src/Tests/Clearing.antt =====
-- The deletion of a prefix in Redis at a concrete store: a page with no key, then the last page.
use censorhub.Prelude.{ℕ, ◌≡◌, refl, Option, none, some, List, [], ◌∷◌, arith, Bool-cases, inl, inr}
use censorhub.Text.{Text, runes, text_eq, text_eq_sound}
use censorhub.Cache.Table.{lookup}
use censorhub.Cache.Local.{has_prefix}
use censorhub.Cache.MultiLevel.{replied, invalidate_by_prefix}
use censorhub.Cache.Redis.{RedisCache, among, ScanTurn, delete_pages}
use censorhub.Cache.Redis.Laws.{IsScan, returned, IsInvalidated, delete_pages-IsInvalidated}
use censorhub.Tests.Serving.{levels}

abbrev filter_key : Text
filter_key = runes "filter:a"

abbrev other_key : Text
other_key = runes "b"

abbrev redis : RedisCache
redis = record {
  entries = (filter_key, (1 ∷ [], some 9)) ∷ (other_key, (2 ∷ [], none)) ∷ [];
  ttl = 5;
}

abbrev page_turn : List Text → ℕ → ScanTurn
page_turn keys next_cursor = record {
  page = replied (keys, next_cursor);
  exec = replied tt;
  unlinked = [];
}

abbrev pages : List ScanTurn
pages = page_turn [] 7 ∷ page_turn (filter_key ∷ []) 0 ∷ []

pages-IsScan : IsScan pages
unfolding IsScan
pages-IsScan = ([], 7, refl, refl, inr (refl, (filter_key ∷ [], 0, refl, refl, inl (refl, refl))))

pages-cover :
    (key : Text) (entry : List ℕ × Option ℕ)
    → lookup key redis.entries ≡ some entry
    → returned pages key ≡ has_prefix (runes "filter:") key
unfolding lookup returned among has_prefix text_eq
pages-cover key entry found = elim (Bool-cases (text_eq key filter_key)) [
  | inl y ↦ rw (text_eq_sound key filter_key y) refl
  | inr n ↦ elim (Bool-cases (text_eq key other_key)) [
    | inl y ↦ rw (text_eq_sound key other_key y) refl
    | inr m ↦ let failure = rw (n, m) at found in absurd (ground arith)
  ]
]

delete_pages-IsInvalidated_example :
    (c' : RedisCache) × (delete_pages pages redis ≡ some (replied tt, c'))
    × ((key : Text)
        → IsInvalidated
            (runes "filter:")
            key
            3
            4
            redis
            c'
            levels
            (invalidate_by_prefix 1 2 (runes "filter:") (replied tt) levels))
delete_pages-IsInvalidated_example =
    delete_pages-IsInvalidated pages (runes "filter:") redis levels 1 2 3 4 pages-IsScan pages-cover
