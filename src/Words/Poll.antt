-- ===== src/Words/Poll.antt =====
-- The poll of fingerprints: InitEngine, reconcileOnce and rebuildWithRetry of
-- internal/application/service/word_app_service.go, and ActiveFingerprint of
-- internal/infrastructure/persistence/mysql/word_repo.go. The replies of the database are arguments,
-- `none` for an error; the result is `none` for a panic.
pub mod Laws
pub mod Fingerprint
pub mod Writes
pub mod Current
pub mod Passing
pub mod Loop
use censorhub.Prelude.{
  ℕ, zero, suc, Bool, true, false, ◌&&◌, Option, none, some, List, [], ◌∷◌, ◌==◌, ltb,
  if◌then◌else◌, ◌>>=◌, length,
}
use censorhub.Text.{Text, Unicode, runes}
use censorhub.Domain.Word.{SensitiveWord}
use censorhub.Automaton.{Edge}
use censorhub.Engine.{FilterEngine, rebuild}
use censorhub.Cache.MultiLevel.{MultiLevelCache, RedisReply, invalidate_by_prefix}
use censorhub.Words.Table.{find_all_active}

pub record WordFingerprint : Type 0 where
  pub count : ℕ
  pub max_id : ℕ
  pub max_updated : ℕ

-- `MAX(id)` and `MAX(updated_at)`, 0 where there is no row.
unfoldable pub max_of : (SensitiveWord → ℕ) → List SensitiveWord → ℕ
max_of f [] = 0
max_of f (w ∷ ws) = let rest = max_of f ws in if ltb rest (f w) then f w else rest

unfoldable pub active_fingerprint : List SensitiveWord → WordFingerprint
unfolding find_all_active max_of
active_fingerprint rows =
    let active = find_all_active rows in
    record {
      count = length active;
      max_id = max_of (λ w. w.id) active;
      max_updated = max_of (λ w. w.updated_at) active;
    }

unfoldable pub same_fingerprint : WordFingerprint → WordFingerprint → Bool
same_fingerprint a b = a.count == b.count && a.max_id == b.max_id && a.max_updated == b.max_updated

pub record PollState : Type 0 where
  pub engine : FilterEngine
  pub last : WordFingerprint
  pub cache : Option MultiLevelCache

abbrev pub max_attempts : ℕ
max_attempts = 3

-- The readings of the clock and the reply of Redis in the invalidation.
pub record Sweep : Type 0 where
  pub asked : ℕ
  pub answered : ℕ
  pub reply : RedisReply Unit

unfoldable pub invalidate_prefix : Sweep → Text → Option MultiLevelCache → Option MultiLevelCache
invalidate_prefix w prefix none = none
invalidate_prefix w prefix (some c) =
    some (invalidate_by_prefix w.asked w.answered prefix w.reply c)

module _ (order : ℕ → List Edge → List Edge) (u : Unicode) where
  -- The engine after at most so many attempts, and whether one of them loaded the words. The replies
  -- run out when the context ends between two attempts.
  unfoldable pub rebuild_with_retry :
      ℕ → List (Option (List SensitiveWord)) → FilterEngine → Option (FilterEngine × Bool)
  rebuild_with_retry zero replies e = some (e, false)
  rebuild_with_retry (suc k) [] e = some (e, false)
  rebuild_with_retry (suc k) (none ∷ replies) e = rebuild_with_retry k replies e
  rebuild_with_retry (suc k) (some words ∷ replies) e = do
    e' ← rebuild order u e words
    some (e', true)

  unfoldable pub reconcile_once :
      Option WordFingerprint
      → List (Option (List SensitiveWord))
      → Sweep
      → PollState
      → Option PollState
  unfolding same_fingerprint rebuild_with_retry invalidate_prefix
  reconcile_once none replies w s = some s
  reconcile_once (some before) replies w s = if same_fingerprint before s.last then some s else do
    (e, done) ← rebuild_with_retry max_attempts replies s.engine
    some (elim done [
      | false ↦ record s { engine = e }
      | true ↦ record {
        engine = e;
        last = before;
        cache = invalidate_prefix w (runes "filter:") s.cache;
      }
    ])

  -- The words are read first, the fingerprint after them; the flag says whether there is no error.
  unfoldable pub init_engine :
      Option (List SensitiveWord) → Option WordFingerprint → PollState → Option (PollState × Bool)
  init_engine none print s = some (s, false)
  init_engine (some words) print s = do
    e ← rebuild order u s.engine words
    some (record s { engine = e; last = elim print [ none ↦ s.last | some fp ↦ fp ] }, true)
