-- ===== src/Service/Filter.antt =====
-- internal/application/service/filter_app_service.go and the parts of internal/application/dto and
-- internal/application/assembler that it uses. `none` is a panic. The readings of the clock and the
-- replies of Redis in one call of `Filter` are the fields of `Timing`.
pub mod Laws
pub mod Cached
pub mod Truthful
pub mod Repeated
use censorhub.Prelude.{
  ℕ, ◌+◌, ◌-◌, ◌/◌, Bool, true, false, Option, none, some, List, [], ◌∷◌, map, if◌then◌else◌, ◌>>=◌,
  length, is_empty, ℤ,
}
use censorhub.Text.{Text, Unicode}
use censorhub.Domain.{
  MatchItem, FilterResult, strategy_detect, strategy_replace, strategy_highlight, strategy_is_valid,
}
use censorhub.Engine.{FilterEngine, MatchResult, match_text, engine_version}
use censorhub.Strategy.Apply.{apply_strategy}
use censorhub.Cache.MultiLevel.{MultiLevelCache, RedisReply, replied, refused, get_multi, set_multi}
use censorhub.Service.Key.{filter_cache_key}

pub record FilterRequest : Type 0 where
  pub text : Text
  pub strategy : Text

pub record MatchDto : Type 0 where
  pub word : Text
  pub position : ℕ
  pub end_pos : ℕ
  pub category : Text
  pub level : ℤ

pub record FilterResponse : Type 0 where
  pub original : Text
  pub filtered : Text
  pub is_hit : Bool
  pub hit_count : ℕ
  pub matches : List MatchDto
  pub risk_level : ℤ
  pub cost_ms : ℕ

unfoldable pub match_to_dto : MatchItem → MatchDto
match_to_dto m = record {
  word = m.word;
  position = m.position;
  end_pos = m.end_pos;
  category = m.category;
  level = m.level;
}

unfoldable pub filter_result_to_dto : FilterResult → FilterResponse
unfolding match_to_dto
filter_result_to_dto r = record {
  original = r.original;
  filtered = r.filtered;
  is_hit = r.is_hit;
  hit_count = r.hit_count;
  matches = map match_to_dto r.matches;
  risk_level = r.risk_level;
  cost_ms = r.cost_ms;
}

-- An unknown name, or none, is the detect strategy.
unfoldable pub select_strategy : Text → Text
unfolding strategy_is_valid
select_strategy name =
    if is_empty name
    then strategy_detect
    else if strategy_is_valid name
    then name
    else strategy_detect

pub record Timing : Type 0 where
  pub started : ℕ
  pub looked : ℕ  -- the local cache's clock in `Get`
  pub asked : ℕ
  pub answered : ℕ
  pub get_reply : RedisReply (List ℕ)
  pub processed : ℕ
  pub finished : ℕ
  pub written : ℕ  -- the local cache's clock in `Set`
  pub told : ℕ
  pub confirmed : ℕ
  pub set_reply : RedisReply Unit

-- `time.Since(start).Milliseconds()`
unfoldable pub milliseconds : Timing → ℕ
milliseconds t = (t.finished - t.started) / 1000000

pub record FilterAppService : Type 0 where
  pub engine : FilterEngine
  pub cache : Option MultiLevelCache

-- What sonic supplies.
pub record Json : Type 0 where
  pub marshal : FilterResponse → Option (List ℕ)
  pub unmarshal : List ℕ → Option FilterResponse

-- The cached answer, and the service after the look into the cache.
unfoldable pub look_up :
    Json → Timing → Text → FilterAppService → Option FilterResponse × FilterAppService
look_up json t key s = elim s.cache [
  | none ↦ (none, s)
  | some c ↦
      let (reply, c') = get_multi t.looked t.asked t.answered key t.get_reply c in
      (
        elim reply [
          | refused err ↦ none
          | replied data_read ↦ elim (json.unmarshal data_read) [
            | none ↦ none
            | some cached ↦ some (record cached { cost_ms = milliseconds t })
          ]
        ],
        record s { cache = some c' },
      )
]

unfoldable pub write_back :
    Json → Timing → Text → FilterResponse → FilterAppService → FilterAppService
write_back json t key resp s = elim s.cache [
  | none ↦ s
  | some c ↦ elim (json.marshal resp) [
    | none ↦ s
    | some bytes ↦ record s {
      cache = some (set_multi t.written t.told t.confirmed key bytes t.set_reply c);
    }
  ]
]

module _ (sort : List MatchItem → List MatchItem) (u : Unicode) (json : Json) where
  -- The matching, the strategy and the conversion, without the cache.
  unfoldable pub compute : Timing → Text → Text → FilterEngine → Option FilterResponse
  unfolding filter_result_to_dto milliseconds
  compute t strategy text e = do
    m ← match_text u e text
    result ← apply_strategy sort strategy t.processed text m.normalized_text m.matches
    some (filter_result_to_dto (record result { cost_ms = milliseconds t }))

  unfoldable pub filter_text :
      Timing → FilterRequest → FilterAppService → Option (FilterResponse × FilterAppService)
  unfolding select_strategy look_up compute write_back filter_cache_key
  filter_text t req s =
      let strategy = select_strategy req.strategy in
      let key = filter_cache_key req.text strategy (engine_version s.engine) in
      let (cached, s') = look_up json t key s in
      elim cached [
        | some resp ↦ some (resp, s')
        | none ↦ do
          resp ← compute t strategy req.text s'.engine
          some (resp, write_back json t key resp s')
      ]

  -- `Detect`, `Replace` and `Highlight`
  unfoldable pub detect_text :
      Timing → FilterRequest → FilterAppService → Option (FilterResponse × FilterAppService)
  unfolding filter_text
  detect_text t req s = filter_text t (record req { strategy = strategy_detect }) s

  unfoldable pub replace_text :
      Timing → FilterRequest → FilterAppService → Option (FilterResponse × FilterAppService)
  unfolding filter_text
  replace_text t req s = filter_text t (record req { strategy = strategy_replace }) s

  unfoldable pub highlight_text :
      Timing → FilterRequest → FilterAppService → Option (FilterResponse × FilterAppService)
  unfolding filter_text
  highlight_text t req s = filter_text t (record req { strategy = strategy_highlight }) s
