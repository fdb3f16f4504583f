-- ===== src/Cache/Local/Reads.antt =====
-- What a lookup in the local cache finds after each of its operations.
use censorhub.Prelude.{
  ℕ, zero, suc, ◌+◌, ◌≡◌, refl, sym, ap, ◌∙◌, true, false, Option, none, some, List, [], ◌∷◌,
  if◌then◌else◌, update, update_self, ◌==◌, ◌⊎◌, arith, Bool-cases, inl, inr,
}
use censorhub.Text.{Text, text_eq, text_eq_sound}
use censorhub.Cache.Table.{lookup, store, erase, lookup-store, lookup-erase}
use censorhub.Cache.Local.{
  CacheItem, LocalCache, shard_for, is_refused, set, delete, has_prefix, delete_by_prefix,
  invalidate_all, is_expired, evict_keys, evict_expired, max_evict_per_shard_per_cycle,
}

-- The item under a key.
unfoldable pub find : Text → LocalCache → Option CacheItem
unfolding lookup shard_for
find key c = lookup key (c.shards (shard_for key))

pub text_eq_sym : (a b : Text) → text_eq a b ≡ text_eq b a
text_eq_sym a b = elim (Bool-cases (text_eq a b)) [
  | inl e ↦ rw (text_eq_sound a b e) refl
  | inr n ↦ elim (Bool-cases (text_eq b a)) [
    | inl e ↦ rw (text_eq_sound b a e) refl
    | inr m ↦ rw (n, m) refl
  ]
]

-- A change of the shard of a key that leaves the other keys alone.
find-update :
    (k key : Text) (c : LocalCache) (t : List (Text × CacheItem)) (o : Option CacheItem)
    → lookup k t ≡ (if text_eq k key then o else lookup k (c.shards (shard_for key)))
    → lookup k (update c.shards (shard_for key) t (shard_for k))
      ≡ (if text_eq k key then o else find k c)
unfolding find
find-update k key c t o h = elim (Bool-cases (text_eq k key)) [
  | inl e ↦
      let same : shard_for k ≡ shard_for key = ap shard_for (text_eq_sound k key e) in
      rw (same, update_self c.shards (shard_for key) t, h, e) refl
  | inr n ↦ elim (Bool-cases (shard_for k == shard_for key)) [
    | inl e ↦
        let same : shard_for k ≡ shard_for key = ground arith in
        rw (same, update_self c.shards (shard_for key) t, h, n) refl
    | inr m ↦ rw (m, n) refl
  ]
]

abbrev pub item_at : ℕ → List ℕ → LocalCache → CacheItem
item_at now value c = record { value = value; expired_at = now + c.ttl }

pub find-set :
    (now : ℕ) (k key : Text) (value : List ℕ) (c : LocalCache)
    → is_refused key c ≡ false
    → find k (set now key value c)
      ≡ (if text_eq k key then some (item_at now value c) else find k c)
unfolding set find
find-set now k key value c admitted = rw (admitted) (
    find-update k key c (store key (item_at now value c) (c.shards (shard_for key)))
      (some (item_at now value c))
      (lookup-store k key (item_at now value c) (c.shards (shard_for key))))

pub find-delete :
    (k key : Text) (c : LocalCache)
    → find k (delete key c) ≡ (if text_eq k key then none else find k c)
unfolding delete find
find-delete k key c =
    find-update k key c (erase (text_eq key) (c.shards (shard_for key))) none
      (rw (text_eq_sym k key) (lookup-erase k (text_eq key) (c.shards (shard_for key))))

pub find-delete_by_prefix :
    (k prefix : Text) (c : LocalCache)
    → find k (delete_by_prefix prefix c) ≡ (if has_prefix prefix k then none else find k c)
unfolding delete_by_prefix find
find-delete_by_prefix k prefix c = lookup-erase k (has_prefix prefix) (c.shards (shard_for k))

pub find-invalidate_all : (k : Text) (c : LocalCache) → find k (invalidate_all c) ≡ none
unfolding invalidate_all find lookup
find-invalidate_all k c = refl

-- An eviction removes what has expired, or leaves it.
abbrev pub Evicts : ℕ → Option CacheItem → Option CacheItem → Type 0
Evicts now before after = (after ≡ before) ⊎ ((after ≡ none) × (is_expired now before ≡ true))

lookup-evict_keys :
    (now budget : ℕ) (k : Text) (ks : List Text) (items : List (Text × CacheItem))
    → Evicts now (lookup k items) (lookup k (evict_keys now budget ks items))
unfolding evict_keys
lookup-evict_keys now zero k ks items = inl refl
lookup-evict_keys now (suc budget) k [] items = inl refl
lookup-evict_keys now (suc budget) k (j ∷ ks) items =
    elim (Bool-cases (is_expired now (lookup j items))) [
      | inr n ↦ rw (evict_keys, n) (lookup-evict_keys now (suc budget) k ks items)
      | inl e ↦
          let rest = lookup-evict_keys now budget k ks (erase (text_eq j) items) in
          elim (Bool-cases (text_eq j k)) [
            | inl same ↦
                let gone : lookup k (erase (text_eq j) items) ≡ none =
                  rw (lookup-erase k (text_eq j) items, same) refl in
                let old : is_expired now (lookup k items) ≡ true =
                  rw (sym (text_eq_sound j k same)) e in
                let after : lookup k (evict_keys now budget ks (erase (text_eq j) items)) ≡ none =
                  elim rest [ inl a ↦ a ∙ gone | inr (b, _) ↦ b ] in
                rw (evict_keys, e) (inr (after, old))
            | inr other ↦
                let kept : lookup k (erase (text_eq j) items) ≡ lookup k items =
                  rw (lookup-erase k (text_eq j) items, other) refl in
                let same_rest : Evicts now (lookup k items)
                    (lookup k (evict_keys now budget ks (erase (text_eq j) items))) =
                  rw (kept) at rest in
                rw (evict_keys, e) same_rest
          ]
    ]

pub find-evict_expired :
    (visits : List (Text × CacheItem) → List Text) (now : ℕ) (k : Text) (c : LocalCache)
    → Evicts now (find k c) (find k (evict_expired visits now c))
unfolding evict_expired find
find-evict_expired visits now k c =
    lookup-evict_keys now max_evict_per_shard_per_cycle k (visits (c.shards (shard_for k)))
      (c.shards (shard_for k))
