-- ===== src/Cache/Local/Effects.antt =====
-- What one call does to one key of the local cache, and how that changes what the key reads as.
use censorhub.Prelude.{
  ℕ, ◌≤◌, ◌≡◌, ◌⊎◌, inl, inr, refl, sym, ◌∙◌, true, Option, none, some, List, [], ◌∷◌, ltb, ap,
  arith, Bool-cases, Option-cases,
}
use censorhub.Text.{Text, text_eq, text_eq_sound}
use censorhub.Cache.Table.{lookup}
use censorhub.Cache.Local.{
  CacheItem, LocalCache, per_shard_limit, is_refused, get_item, set, has_prefix, is_expired,
  shard_for,
}
use censorhub.Cache.Local.Reads.{
  find, find-set, find-delete, find-delete_by_prefix, find-invalidate_all, find-evict_expired,
  item_at,
}
use censorhub.Cache.Local.Latest.{
  CacheCall, sets, deletes, deletes_prefix, invalidates, evicts, step_cache, latest_after, fresh,
  EvictsBy,
}

-- From a cache and the latest write of a key to those after a call.
pub data Effect (k : Text) (c c' : LocalCache) (w w' : Option (ℕ × List ℕ)) (call : CacheCall)
    : Type 0 where
  keeps : find k c' ≡ find k c → w' ≡ w → Effect k c c' w w' call
  writes :
      {now : ℕ} {value : List ℕ}
      → find k c' ≡ some (item_at now value c)
      → w' ≡ some (now, value)
      → Effect k c c' w w' call
  clears : find k c' ≡ none → w' ≡ none → Effect k c c' w w' call
  refuses : find k c' ≡ none → ltb 0 (per_shard_limit c) ≡ true → Effect k c c' w w' call
  expires :
      {now : ℕ}
      → call ≡ evicts now
      → find k c' ≡ none
      → w' ≡ w
      → is_expired now (find k c) ≡ true
      → Effect k c c' w w' call

refused-limit :
    (key : Text) (c : LocalCache) → is_refused key c ≡ true → ltb 0 (per_shard_limit c) ≡ true
unfolding is_refused
refused-limit key c h = ground arith

refused-find : (key : Text) (c : LocalCache) → is_refused key c ≡ true → find key c ≡ none
unfolding is_refused find
refused-find key c h = elim (Option-cases (lookup key (c.shards (shard_for key)))) [
  | inl e ↦ e
  | inr (item, e) ↦ ground arith
]

refused-set :
    (now : ℕ) (key : Text) (value : List ℕ) (c : LocalCache)
    → is_refused key c ≡ true
    → set now key value c ≡ c
unfolding set
refused-set now key value c h = rw (h) refl

set-Effect :
    (k : Text) (now : ℕ) (key : Text) (value : List ℕ) (c : LocalCache) (w : Option (ℕ × List ℕ))
    → Effect k c
        (set now key value c)
        w
        (latest_after k (sets now key value) w)
        (sets now key value)
unfolding latest_after
set-Effect k now key value c w = elim (Bool-cases (is_refused key c)) [
  | inl r ↦ elim (Bool-cases (text_eq k key)) [
    | inl e ↦
        refuses
          (ap (find k) (refused-set now key value c r)
            ∙ ap (λ j. find j c) (text_eq_sound k key e)
            ∙ refused-find key c r)
          (refused-limit key c r)
    | inr n ↦ keeps (ap (find k) (refused-set now key value c r)) (rw (n) refl)
  ]
  | inr a ↦
      let found = find-set now k key value c a in
      elim (Bool-cases (text_eq k key)) [
        | inl e ↦ writes {now = now} {value = value} (found ∙ rw (e) refl) (rw (e) refl)
        | inr n ↦ keeps (found ∙ rw (n) refl) (rw (n) refl)
      ]
]

pub step_cache-Effect :
    (visits : List (Text × CacheItem) → List Text) (k : Text) (call : CacheCall) (c : LocalCache)
    (w : Option (ℕ × List ℕ))
    → Effect k c (step_cache visits call c) w (latest_after k call w) call
unfolding step_cache latest_after
step_cache-Effect visits k (sets now key value) c w = set-Effect k now key value c w
step_cache-Effect visits k (deletes key) c w = elim (Bool-cases (text_eq k key)) [
  | inl e ↦ clears (find-delete k key c ∙ rw (e) refl) (rw (e) refl)
  | inr n ↦ keeps (find-delete k key c ∙ rw (n) refl) (rw (n) refl)
]
step_cache-Effect visits k (deletes_prefix prefix) c w = elim (Bool-cases (has_prefix prefix k)) [
  | inl e ↦ clears (find-delete_by_prefix k prefix c ∙ rw (e) refl) (rw (e) refl)
  | inr n ↦ keeps (find-delete_by_prefix k prefix c ∙ rw (n) refl) (rw (n) refl)
]
step_cache-Effect visits k invalidates c w = clears (find-invalidate_all k c) refl
step_cache-Effect visits k (evicts now) c w = elim (find-evict_expired visits now k c) [
  | inl same ↦ keeps same refl
  | inr (gone, old) ↦ expires refl gone refl old
]

-- What a key reads as: nothing, or the latest write while it is fresh.
abbrev pub Sound : ℕ → Text → LocalCache → Option (ℕ × List ℕ) → Type 0
Sound later k c w =
    (get_item later (find k c) ≡ none) ⊎ (get_item later (find k c) ≡ fresh c.ttl later w)

get_item-gone : (later : ℕ) (o : Option CacheItem) → o ≡ none → get_item later o ≡ none
unfolding get_item
get_item-gone later o e = rw (e) refl

written-fresh :
    {now : ℕ} {value : List ℕ} (later : ℕ) (k : Text) (c c' : LocalCache) (w' : Option (ℕ × List ℕ))
    → c'.ttl ≡ c.ttl
    → find k c' ≡ some (item_at now value c)
    → w' ≡ some (now, value)
    → get_item later (find k c') ≡ fresh c'.ttl later w'
unfolding get_item fresh
written-fresh later k c c' w' t f l = rw (f, l, t) refl

pub Effect-Sound :
    (later : ℕ) (k : Text) (c c' : LocalCache) (w w' : Option (ℕ × List ℕ)) (call : CacheCall)
    → c'.ttl ≡ c.ttl
    → Effect k c c' w w' call
    → Sound later k c w
    → Sound later k c' w'
Effect-Sound later k c c' w w' call t (keeps f l) s = rw (f, l, t) s
Effect-Sound later k c c' w w' call t (writes f l) s = inr (written-fresh later k c c' w' t f l)
Effect-Sound later k c c' w w' call t (clears f l) s = inl (get_item-gone later (find k c') f)
Effect-Sound later k c c' w w' call t (refuses f l) s = inl (get_item-gone later (find k c') f)
Effect-Sound later k c c' w w' call t (expires e f l old) s =
    inl (get_item-gone later (find k c') f)

is_expired-get_item :
    (now later : ℕ) (o : Option CacheItem)
    → now ≤ later
    → is_expired now o ≡ true
    → get_item later o ≡ none
unfolding is_expired get_item
is_expired-get_item now later none by old = refl
is_expired-get_item now later (some item) by old = ground arith

-- The same where there is no limit and no eviction is later.
pub Effect-fresh :
    (later : ℕ) (k : Text) (c c' : LocalCache) (w w' : Option (ℕ × List ℕ)) (call : CacheCall)
    → c'.ttl ≡ c.ttl
    → per_shard_limit c ≡ 0
    → EvictsBy later (call ∷ [])
    → Effect k c c' w w' call
    → get_item later (find k c) ≡ fresh c.ttl later w
    → get_item later (find k c') ≡ fresh c'.ttl later w'
Effect-fresh later k c c' w w' call t free early (keeps f l) s = rw (f, l, t) s
Effect-fresh later k c c' w w' call t free early (writes f l) s =
    written-fresh later k c c' w' t f l
Effect-fresh later k c c' w w' call t free early (clears f l) s =
    unfold get_item fresh in rw (f, l) refl
Effect-fresh later k c c' w w' call t free early (refuses f limited) s = ground arith
Effect-fresh later k c c' w w' call t free early (expires {now} e f l old) s =
    let by : now ≤ later = (rw (e) at early).0 in
    let gone : get_item later (find k c) ≡ none = is_expired-get_item now later (find k c) by old in
    get_item-gone later (find k c') f ∙ sym gone ∙ s ∙ rw (l, t) refl
