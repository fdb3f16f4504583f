-- ===== src/Tests/Serving.antt =====
-- The theorems about the filter service at concrete inputs.
use censorhub.Prelude.{ℕ, suc, ◌+◌, ◌≤◌, ◌≡◌, refl, false, none, some, List, [], ◌∷◌, pos, arith}
use censorhub.Text.{runes}
use censorhub.Automaton.{search_normalized}
use censorhub.Domain.{max_risk_level}
use censorhub.Strategy.Apply.{apply_strategy}
use censorhub.Engine.{FilterEngine, match_text}
use censorhub.Engine.Rebuild.{match_text-rebuild}
use censorhub.Cache.Breaker.{new_circuit_breaker, allow}
use censorhub.Cache.Local.{new_local_cache, is_refused, get}
use censorhub.Cache.MultiLevel.{MultiLevelCache, refused, redis_nil, redis_failure, get_multi}
use censorhub.Service.Filter.{
  FilterRequest, FilterResponse, Timing, milliseconds, FilterAppService, Json, look_up, write_back,
  compute, filter_text, select_strategy,
}
use censorhub.Service.Filter.Laws.{request_key, Answers, filter_text-Answers}
use censorhub.Service.Filter.Cached.{filter_text-again}
use censorhub.Service.Race.{Source, own, Shared, Steps, at_start}
use censorhub.Service.Race.Labels.{IsOrdered, Steps-IsOrdered, Steps-mislabelled}
use censorhub.Tests.Inputs.{
  ascii, keep_order, keep_order-VisitsAll, sort_by_position, sort_by_position-SortsByPosition,
}
use censorhub.Tests.Matching.{word_list, idle}

abbrev pub clean : FilterResponse
clean = record {
  original = runes "a sin";
  filtered = runes "a sin";
  is_hit = false;
  hit_count = 0;
  matches = [];
  risk_level = pos 0;
  cost_ms = 2;
}

-- An encoding that keeps one response.
abbrev pub json : Json
json = record { marshal = λ r. some (1 ∷ []); unmarshal = λ b. some clean }

abbrev pub timing : Timing
timing = record {
  started = 1000000;
  looked = 1000001;
  asked = 1000002;
  answered = 1000003;
  get_reply = refused redis_nil;
  processed = 1000004;
  finished = 3000000;
  written = 3000001;
  told = 3000002;
  confirmed = 3000003;
  set_reply = refused redis_failure;
}

abbrev pub request : FilterRequest
request = record { text = runes "a sin"; strategy = runes "mask" }

abbrev pub rebuilt : FilterEngine
rebuilt = (match_text-rebuild keep_order keep_order-VisitsAll ascii idle word_list).0

abbrev pub uncached : FilterAppService
uncached = record { engine = rebuilt; cache = none }

uncached-misses : (look_up json timing (request_key request uncached) uncached).0 ≡ none
unfolding look_up
uncached-misses = refl

filter_text-Answers_example :
    (r : FilterResponse) × (filter_text sort_by_position ascii json timing request uncached
      ≡ some (
        r,
        write_back json timing
            (request_key request uncached)
            r
            (look_up json timing (request_key request uncached) uncached).1,
      ))
    × Answers ascii word_list (select_strategy request.strategy) request.text r
filter_text-Answers_example =
    filter_text-Answers keep_order keep_order-VisitsAll sort_by_position
      sort_by_position-SortsByPosition ascii json word_list idle timing request uncached
      (match_text-rebuild keep_order keep_order-VisitsAll ascii idle word_list).1 uncached-misses

abbrev pub levels : MultiLevelCache
levels = record {
  local = new_local_cache 300000000000 (pos 64);
  breaker = new_circuit_breaker 5 10;
}

abbrev pub serving : FilterAppService
serving = record { engine = idle; cache = some levels }

serving-misses : (look_up json timing (request_key request serving) serving).0 ≡ none
unfolding look_up get_multi new_local_cache new_circuit_breaker get allow
serving-misses = refl

serving-keeps : (look_up json timing (request_key request serving) serving).1.cache ≡ some levels
unfolding look_up get_multi new_local_cache new_circuit_breaker get allow
serving-keeps = refl

serving-computes :
    compute sort_by_position ascii json timing
      (select_strategy request.strategy)
      request.text
      serving.engine
    ≡ some clean
unfolding compute select_strategy match_text search_normalized apply_strategy max_risk_level
serving-computes = refl

serving-admits : is_refused (request_key request serving) levels.local ≡ false
unfolding is_refused new_local_cache
serving-admits = refl

serving-ttl : timing.looked ≤ timing.written + levels.local.ttl
unfolding new_local_cache
serving-ttl = omega arith

filter_text-again_example :
    (s' : FilterAppService) × (filter_text sort_by_position ascii json timing request serving
      ≡ some (clean, s'))
    × (filter_text sort_by_position ascii json timing request s'
        ≡ some (record clean { cost_ms = milliseconds timing }, s'))
filter_text-again_example =
    filter_text-again sort_by_position ascii json timing timing request serving clean (1 ∷ [])
      levels serving-misses serving-keeps serving-computes refl refl serving-admits serving-ttl

abbrev raced : Shared
raced = (Steps-mislabelled at_start refl).0

Steps-IsOrdered_example : IsOrdered raced
Steps-IsOrdered_example = Steps-IsOrdered (Steps-mislabelled at_start refl).1

Steps-mislabelled_example :
    (t : Shared) × Steps raced t
    × ((es : List (ℕ × Source)) × (t.entries ≡ (raced.version, own (suc raced.stored)) ∷ es))
    × (t.version ≡ suc raced.version)
    × (t.pending ≡ 0)
Steps-mislabelled_example = Steps-mislabelled raced (Steps-mislabelled at_start refl).4
