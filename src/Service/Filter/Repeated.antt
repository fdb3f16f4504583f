-- ===== src/Service/Filter/Repeated.antt =====
-- Calls of `Filter` one after the other, which the local cache may answer.
use censorhub.Prelude.{ℕ, ◌<◌, ◌^◌, ◌≡◌, refl, some, List, [], ◌∷◌, All, arith, Option, ◌>>=◌}
use censorhub.Text.{Text, Unicode}
use censorhub.Domain.{MatchItem}
use censorhub.Domain.Word.{SensitiveWord}
use censorhub.Automaton.{Edge}
use censorhub.Automaton.Levels.{VisitsAll}
use censorhub.Engine.{FilterEngine, engine_version, rebuild}
use censorhub.Strategy.Sort.{SortsByPosition}
use censorhub.Cache.Hash.{sum64a}
use censorhub.Cache.Local.{get}
use censorhub.Cache.MultiLevel.{MultiLevelCache}
use censorhub.Service.Filter.{
  FilterRequest, FilterResponse, Timing, FilterAppService, Json, filter_text, select_strategy,
}
use censorhub.Service.Filter.Laws.{Answers, rebuilt-Serves}
use censorhub.Service.Filter.Truthful.{IsMissed, HoldsTruth, IsTruthful, filter_text-IsTruthful}

pub record Call : Type 0 where
  pub timing : Timing
  pub request : FilterRequest

module _ (sort : List MatchItem → List MatchItem) (u : Unicode) (json : Json) where
  unfoldable pub filter_all :
      List Call → FilterAppService → Option (List FilterResponse × FilterAppService)
  unfolding filter_text
  filter_all [] s = some ([], s)
  filter_all (call ∷ calls) s = do
    (r, s') ← filter_text sort u json call.timing call.request s
    (rs, s'') ← filter_all calls s'
    some (r ∷ rs, s'')

-- A truthful answer to each of the requests, in their order.
unfoldable pub AllAnswered : Unicode → List SensitiveWord → List Call → List FilterResponse → Type 0
AllAnswered u words [] rs = rs ≡ []
AllAnswered u words (call ∷ calls) [] = ⊥
AllAnswered u words (call ∷ calls) (r ∷ rs) =
    Answers u words (select_strategy call.request.strategy) call.request.text r
    × AllAnswered u words calls rs

HoldsTruth-new :
    (json : Json) (u : Unicode) (words : List SensitiveWord) (asked : Text → Type 0) (version : ℕ)
    (c : MultiLevelCache)
    → c.local.shards ≡ (λ i. [])
    → HoldsTruth json u words asked version (some c)
unfolding HoldsTruth get
HoldsTruth-new json u words asked version c empty now text strategy bytes r here known hit d =
    let gone = rw (empty) at hit in ground arith

module _ (json : Json) (u : Unicode) (words : List SensitiveWord) (asked : Text → Type 0)
    (decodes : (r : FilterResponse) (bytes : List ℕ)
      → json.marshal r ≡ some bytes
      → json.unmarshal bytes ≡ some r)
    (distinct : (a b : Text) → asked a → asked b → sum64a a ≡ sum64a b → a ≡ b) where
  filter_all-IsTruthful :
      (sort : List MatchItem → List MatchItem)
      → SortsByPosition sort
      → (version : ℕ) → version < 2 ^ 64
      → (calls : List Call) (s : FilterAppService)
      → All (λ (call : Call). IsMissed call.timing × asked call.request.text) calls
      → IsTruthful json u words asked version s
      → (rs : List FilterResponse) × (s' : FilterAppService) × (filter_all sort u json calls s
          ≡ some (rs, s'))
        × AllAnswered u words calls rs
  unfolding filter_all AllAnswered
  filter_all-IsTruthful sort sorts version small [] s h o = ([], s, refl, refl)
  filter_all-IsTruthful sort sorts version small (call ∷ calls) s ((missed, here), h) o =
      let (r, s', done, answers, o') =
        filter_text-IsTruthful json u words asked version decodes distinct small sort sorts
          call.timing call.request s missed here o in
      let (rs, s'', rest, answered) =
        filter_all-IsTruthful sort sorts version small calls s' h o' in
      (r ∷ rs, s'', rw (filter_all, done, rest) refl, (answers, answered))

  -- Any calls of `Filter` one after the other, on an engine rebuilt from a list of words and a cache
  -- whose local part is new, while Redis has no entry, are answered truthfully for the active words,
  -- each by its strategy, although a later call may get what an earlier one left in the local cache;
  -- the codec decodes what it encoded, and no two of the texts have the same hash.
  pub filter_all-Answers :
      (order : ℕ → List Edge → List Edge)
      → VisitsAll order
      → (sort : List MatchItem → List MatchItem) → SortsByPosition sort
      → (before : FilterEngine) (calls : List Call) (s : FilterAppService) (c : MultiLevelCache)
      → rebuild order u before words ≡ some s.engine
      → engine_version s.engine < 2 ^ 64
      → s.cache ≡ some c
      → c.local.shards ≡ (λ i. [])
      → All (λ (call : Call). IsMissed call.timing × asked call.request.text) calls
      → (rs : List FilterResponse) × (s' : FilterAppService) × (filter_all sort u json calls s
          ≡ some (rs, s'))
        × AllAnswered u words calls rs
  filter_all-Answers order visits_all sort sorts before calls s c rebuilt small cached empty h =
      filter_all-IsTruthful sort sorts (engine_version s.engine) small calls s h (record {
        serves = rebuilt-Serves order visits_all u words before s.engine rebuilt;
        versioned = refl;
        holds = rw (cached) (HoldsTruth-new json u words asked (engine_version s.engine) c empty);
      })
