-- ===== src/Words/Poll/Laws.antt =====
-- What a round of the poll does, and what the start can leave behind.
use censorhub.Prelude.{
  ℕ, zero, suc, ◌+◌, ◌%◌, ◌^◌, ◌<◌, ◌≡◌, ◌⊎◌, refl, ap, true, false, Option, none, some, List, [],
  ◌∷◌, ◌++◌, arith, Bool-cases, inl, inr,
}
use censorhub.Text.{Text, Unicode, runes}
use censorhub.Cache.Table.{lookup-erase}
use censorhub.Cache.Local.{get, get_item, shard_for, has_prefix, delete_by_prefix}
use censorhub.Cache.MultiLevel.{MultiLevelCache, invalidate_by_prefix}
use censorhub.Domain.Word.{SensitiveWord}
use censorhub.Automaton.{Edge}
use censorhub.Automaton.Levels.{VisitsAll}
use censorhub.Engine.{FilterEngine, engine_version}
use censorhub.Engine.Rebuild.{match_text-rebuild}
use censorhub.Service.Filter.Laws.{Serves}
use censorhub.Words.Table.{find_all_active}
use censorhub.Words.Poll.{
  WordFingerprint, active_fingerprint, same_fingerprint, PollState, Sweep, invalidate_prefix,
  max_attempts, rebuild_with_retry, reconcile_once, init_engine,
}

same_fingerprint_refl : (a : WordFingerprint) → same_fingerprint a a ≡ true
unfolding same_fingerprint
same_fingerprint_refl a = ground arith

-- So many loads that fail.
unfoldable pub failures : ℕ → List (Option (List SensitiveWord))
failures zero = []
failures (suc k) = none ∷ failures k

-- What is left of the cached answers: there is no cache, or the local one has no key of theirs.
abbrev pub Forgets : Option MultiLevelCache → Option MultiLevelCache → Type 0
Forgets before after =
    ((before ≡ none) × (after ≡ none))
    ⊎ (c : MultiLevelCache) × (c' : MultiLevelCache) × (before ≡ some c)
      × (after ≡ some c')
      × ((key : Text) (now : ℕ)
          → ((has_prefix (runes "filter:") key ≡ true) × (get now key c'.local ≡ none))
            ⊎ ((has_prefix (runes "filter:") key ≡ false)
                × (get now key c'.local ≡ get now key c.local)))

invalidate_prefix-Forgets :
    (w : Sweep) (cache : Option MultiLevelCache)
    → Forgets cache (invalidate_prefix w (runes "filter:") cache)
unfolding invalidate_prefix invalidate_by_prefix delete_by_prefix get
invalidate_prefix-Forgets w none = inl (refl, refl)
invalidate_prefix-Forgets w (some c) =
    let prefix = runes "filter:" in
    inr (
      c,
      invalidate_by_prefix w.asked w.answered prefix w.reply c,
      refl,
      refl,
      λ key now.
          let erased = lookup-erase key (has_prefix prefix) (c.local.shards (shard_for key)) in
          elim (Bool-cases (has_prefix prefix key)) [
            | inl y ↦ inl (y, ap (get_item now) (rw (y) at erased))
            | inr n ↦ inr (n, ap (get_item now) (rw (n) at erased))
          ],
    )

module _ (order : ℕ → List Edge → List Edge) (visits_all : VisitsAll order) (u : Unicode) where
  retry-succeeds :
      (k n : ℕ) (words : List SensitiveWord) (rest : List (Option (List SensitiveWord)))
      (e : FilterEngine)
      → k < n
      → (e' : FilterEngine) × (rebuild_with_retry order u n (failures k ++ some words ∷ rest) e
          ≡ some (e', true))
        × (engine_version e' ≡ (engine_version e + 1) % 2 ^ 64)
        × Serves u words e'
  unfolding rebuild_with_retry failures Serves
  retry-succeeds k zero words rest e small = absurd (omega arith)
  retry-succeeds zero (suc n) words rest e small =
      let (e', built, counted, _, serves) = match_text-rebuild order visits_all u e words in
      (e', rw (built) refl, counted, serves)
  retry-succeeds (suc k) (suc n) words rest e small = retry-succeeds k n words rest e (omega arith)

  -- A round that reads another fingerprint than the last and loads words within three attempts
  -- rebuilds the engine from them, adds one to its version and remembers the fingerprint that it read
  -- before; if there is a cache, every key with the prefix `filter:` is gone from the local cache, and
  -- every other key is found as before, whatever becomes of Redis.
  pub reconcile_once-Serves :
      (k : ℕ) (words : List SensitiveWord) (rest : List (Option (List SensitiveWord)))
      (before : WordFingerprint) (w : Sweep) (s : PollState)
      → k < 3
      → same_fingerprint before s.last ≡ false
      → (s' : PollState) × (reconcile_once order u
            (some before)
            (failures k ++ some words ∷ rest)
            w
            s
          ≡ some s')
        × Serves u words s'.engine
        × (engine_version s'.engine ≡ (engine_version s.engine + 1) % 2 ^ 64)
        × (s'.last ≡ before)
        × Forgets s.cache s'.cache
  unfolding reconcile_once invalidate_prefix
  reconcile_once-Serves k words rest before w s small changed =
      let (e', ran, counted, serves) = retry-succeeds k 3 words rest s.engine small in
      (
        record {
          engine = e';
          last = before;
          cache = invalidate_prefix w (runes "filter:") s.cache;
        },
        rw (reconcile_once, changed, ran) refl,
        serves,
        counted,
        refl,
        invalidate_prefix-Forgets w s.cache,
      )

  retry-fails :
      (n k : ℕ) (e : FilterEngine) → rebuild_with_retry order u n (failures k) e ≡ some (e, false)
  unfolding rebuild_with_retry failures
  retry-fails zero k e = refl
  retry-fails (suc n) zero e = refl
  retry-fails (suc n) (suc k) e = retry-fails n k e

  -- A round whose fingerprint or whose every load fails changes nothing, and neither does one that
  -- reads the fingerprint of the last rebuild.
  pub reconcile_once-waits :
      (k : ℕ) (before : WordFingerprint) (replies : List (Option (List SensitiveWord))) (w : Sweep)
      (s : PollState)
      → (reconcile_once order u none replies w s ≡ some s)
        × (reconcile_once order u (some before) (failures k) w s ≡ some s)
        × (reconcile_once order u (some s.last) replies w s ≡ some s)
  unfolding reconcile_once
  reconcile_once-waits k before replies w s = (
    refl,
    elim (Bool-cases (same_fingerprint before s.last)) [
      | inl y ↦ rw (reconcile_once, y) refl
      | inr n ↦ rw (reconcile_once, n, retry-fails max_attempts k s.engine) refl
    ],
    rw (reconcile_once, same_fingerprint_refl s.last) refl,
  )

  -- A start whose words were read before a change of the table and whose fingerprint after it
  -- serves the words from before, and every round of the poll leaves it so until the fingerprint
  -- changes again.
  pub init_engine-stale :
      (rows rows' : List SensitiveWord) (s : PollState)
      → (s' : PollState) × (init_engine order u
            (some (find_all_active rows))
            (some (active_fingerprint rows'))
            s
          ≡ some (s', true))
        × Serves u (find_all_active rows) s'.engine
        × ((replies : List (Option (List SensitiveWord))) (w : Sweep)
            → reconcile_once order u (some (active_fingerprint rows')) replies w s' ≡ some s')
  unfolding init_engine
  init_engine-stale rows rows' s =
      let (e', built, _, _, serves) =
        match_text-rebuild order visits_all u s.engine (find_all_active rows) in
      let s' : PollState = record s { engine = e'; last = active_fingerprint rows' } in
      (
        s',
        rw (init_engine, built) refl,
        unfold Serves in serves,
        λ replies w. (reconcile_once-waits 0 s'.last replies w s').2,
      )
