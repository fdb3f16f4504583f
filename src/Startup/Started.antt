-- ===== src/Startup/Started.antt =====
-- What a start makes: an engine that serves the words that were read, and empty caches.
use censorhub.Prelude.{ℕ, ◌≡◌, refl, Option, none, some, List, []}
use censorhub.Text.{Text, Unicode}
use censorhub.Domain.Word.{SensitiveWord}
use censorhub.Automaton.{Edge}
use censorhub.Automaton.Levels.{VisitsAll}
use censorhub.Automaton.Correct.{new_aho_corasick_lem}
use censorhub.Engine.{new_filter_engine}
use censorhub.Engine.Rebuild.{match_text-rebuild}
use censorhub.Cache.Breaker.{new_circuit_breaker, allow}
use censorhub.Cache.Local.{new_local_cache, get}
use censorhub.Cache.MultiLevel.{CacheError, refused, get_multi, new_multi_level_cache}
use censorhub.Service.Filter.{Timing, FilterAppService, Json, look_up}
use censorhub.Service.Filter.Laws.{Serves}
use censorhub.Words.Table.{WordTable}
use censorhub.Words.Poll.{WordFingerprint, init_engine}
use censorhub.Web.Limiter.{new_per_client_limiter}
use censorhub.Config.{Config, CacheConfig}
use censorhub.Startup.{Server, new_cache, settings_of, no_fingerprint, start_up}

module _ (order : ℕ → List Edge → List Edge) (visits_all : VisitsAll order) (u : Unicode)
    {L : Type 0} where
  -- The server that a start makes of some words.
  pub record Started (cfg : Config) (words : List SensitiveWord) (table : WordTable)
      (server : Server L) : Type 0 where
    pub serves : Serves u words server.backend.filter.engine
    pub cache_new : server.backend.filter.cache ≡ some (new_cache cfg.cache)
    pub table_kept : server.backend.table ≡ table
    pub limiters_new :
        server.limiters
        ≡ new_per_client_limiter cfg.rate_limit.requests_per_second cfg.rate_limit.burst
    pub configured : server.settings ≡ settings_of cfg

  pub start_up-Started :
      (cfg : Config) (words : List SensitiveWord) (print : Option WordFingerprint)
      (table : WordTable)
      → (server : Server L) × (start_up order u cfg (some words) print table ≡ some (some server))
        × Started cfg words table server
  unfolding start_up new_filter_engine init_engine Serves
  start_up-Started cfg words print table =
      let (ac, empty_built, _, _) = new_aho_corasick_lem order visits_all u [] in
      let (e', built, _, _, serves) =
        match_text-rebuild order visits_all u (record { current = ac; version = 0 }) words in
      (
        record {
          backend = record {
            filter = record { engine = e'; cache = some (new_cache cfg.cache) };
            table = table;
          };
          limiters = new_per_client_limiter cfg.rate_limit.requests_per_second cfg.rate_limit.burst;
          settings = settings_of cfg;
          last = elim print [ none ↦ no_fingerprint | some fp ↦ fp ];
        },
        rw (start_up, new_filter_engine, empty_built, init_engine, built) refl,
        record {
          serves = serves;
          cache_new = refl;
          table_kept = refl;
          limiters_new = refl;
          configured = refl;
        },
      )

-- A new cache has no answer unless Redis has one.
pub new_cache-misses :
    (json : Json) (t : Timing) (key : Text) (s : FilterAppService) (c : CacheConfig)
    (e : CacheError)
    → s.cache ≡ some (new_cache c)
    → t.get_reply ≡ refused e
    → (look_up json t key s).0 ≡ none
unfolding look_up new_cache new_multi_level_cache new_local_cache get_multi get allow
    new_circuit_breaker
new_cache-misses json t key s c e fresh missed = rw (look_up, fresh, missed) refl
