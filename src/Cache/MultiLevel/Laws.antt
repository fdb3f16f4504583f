-- ===== src/Cache/MultiLevel/Laws.antt =====
-- The multi-level cache: what it reads back, and that it works without Redis.
use censorhub.Prelude.{
  ℕ, ◌+◌, ◌≤◌, ◌≡◌, refl, true, false, none, some, List, arith, Option-cases, inl, inr, ◌∙◌, ap,
}
use censorhub.Text.{Text, text_eq_refl}
use censorhub.Cache.Local.{LocalCache, get, get_item, set, is_refused}
use censorhub.Cache.Local.Reads.{find, find-set, item_at}
use censorhub.Cache.Breaker.{allow}
use censorhub.Cache.MultiLevel.{
  MultiLevelCache, RedisReply, replied, refused, redis_nil, get_multi, answer_get, set_multi,
  tell_redis,
}

get_item-in_time :
    (now later : ℕ) (value : List ℕ) (c : LocalCache)
    → later ≤ now + c.ttl
    → get_item later (some (item_at now value c)) ≡ some value
unfolding get_item
get_item-in_time now later value c early = ground arith

pub get-set :
    (now later : ℕ) (key : Text) (value : List ℕ) (c : LocalCache)
    → is_refused key c ≡ false
    → later ≤ now + c.ttl
    → get later key (set now key value c) ≡ some value
unfolding get find
get-set now later key value c admitted early =
    let found = find-set now key key value c admitted in
    ap (get_item later) {y = some (item_at now value c)} (found ∙ rw (text_eq_refl key) refl)
    ∙ get_item-in_time now later value c early

get_multi-local :
    (looked asked answered : ℕ) (key : Text) (value : List ℕ) (redis : RedisReply (List ℕ))
    (c : MultiLevelCache)
    → get looked key c.local ≡ some value
    → get_multi looked asked answered key redis c ≡ (replied value, c)
unfolding get_multi
get_multi-local looked asked answered key value redis c e = rw (get_multi, e) refl

-- A value that the local cache takes is read back within its time to live, whatever Redis replies
-- to the write and to the read and whatever the state of the breaker, and the read changes nothing.
pub get_multi-set_multi :
    (written asked answered : ℕ) (key : Text) (value : List ℕ) (told : RedisReply Unit)
    (looked asked' answered' : ℕ) (redis : RedisReply (List ℕ)) (c : MultiLevelCache)
    → is_refused key c.local ≡ false
    → looked ≤ written + c.local.ttl
    → get_multi looked asked' answered' key redis
        (set_multi written asked answered key value told c)
      ≡ (replied value, set_multi written asked answered key value told c)
get_multi-set_multi written asked answered key value told looked asked' answered' redis c admitted
      early =
    get_multi-local looked asked' answered' key value redis
      (set_multi written asked answered key value told c)
      (unfold set_multi tell_redis in get-set written looked key value c.local admitted early)

-- While the breaker refuses, what Redis would reply makes no difference, to the answer or to the
-- cache; the answer is the local one, or a miss.
pub get_multi-refused :
    (looked asked answered answered' : ℕ) (key : Text) (redis redis' : RedisReply (List ℕ))
    (c : MultiLevelCache)
    → (allow asked c.breaker).0 ≡ false
    → (get_multi looked asked answered key redis c ≡ get_multi looked asked answered' key redis' c)
      × ((get_multi looked asked answered key redis c).0
          ≡ elim (get looked key c.local) [ none ↦ refused redis_nil | some value ↦ replied value ])
unfolding get_multi
get_multi-refused looked asked answered answered' key redis redis' c shut =
    elim (Option-cases (get looked key c.local)) [
      | inl e ↦ rw (get_multi, e, shut) (refl, refl)
      | inr (value, e) ↦ rw (get_multi, e) (refl, refl)
    ]

filled :
    (looked asked answered looked' : ℕ) (key : Text) (value : List ℕ) (c : MultiLevelCache)
    → get looked key c.local ≡ none
    → (allow asked c.breaker).0 ≡ true
    → is_refused key c.local ≡ false
    → looked' ≤ answered + c.local.ttl
    → get looked' key (get_multi looked asked answered key (replied value) c).1.local ≡ some value
unfolding get_multi answer_get
filled looked asked answered looked' key value c missed granted admitted early =
    rw (get_multi, missed, granted) (get-set answered looked' key value c.local admitted early)

-- A value that Redis replies is filled in: the next read of the key within the time to live
-- answers it whatever Redis replies then, if the local cache has room.
pub get_multi-again :
    (looked asked answered : ℕ) (key : Text) (value : List ℕ) (c : MultiLevelCache)
    (looked' asked' answered' : ℕ) (redis : RedisReply (List ℕ))
    → get looked key c.local ≡ none
    → (allow asked c.breaker).0 ≡ true
    → is_refused key c.local ≡ false
    → looked' ≤ answered + c.local.ttl
    → get_multi looked' asked' answered' key redis
        (get_multi looked asked answered key (replied value) c).1
      ≡ (replied value, (get_multi looked asked answered key (replied value) c).1)
get_multi-again looked asked answered key value c looked' asked' answered' redis missed granted
      admitted early =
    get_multi-local looked' asked' answered' key value redis
      (get_multi looked asked answered key (replied value) c).1
      (filled looked asked answered looked' key value c missed granted admitted early)
