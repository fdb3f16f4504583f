-- ===== src/Startup.antt =====
-- cmd/server/main.go: what the start makes of the configuration and the words. A load of the words
-- that fails ends the process, which Process follows from its arguments to its end.
pub mod Started
pub mod Process
pub mod Laws
use censorhub.Prelude.{ℕ, pos_part, Bool, Option, none, some, List, if◌then◌else◌, ◌>>=◌}
use censorhub.Text.{Unicode}
use censorhub.Domain.Word.{SensitiveWord}
use censorhub.Automaton.{Edge}
use censorhub.Engine.{new_filter_engine}
use censorhub.Cache.Local.{new_local_cache}
use censorhub.Cache.MultiLevel.{MultiLevelCache, new_multi_level_cache}
use censorhub.Words.Table.{WordTable}
use censorhub.Words.Poll.{WordFingerprint, PollState, init_engine}
use censorhub.Web.Limiter.{PerClientLimiter, new_per_client_limiter}
use censorhub.Web.Handlers.{Backend}
use censorhub.Web.Router.{Settings}
use censorhub.Config.{Config, CacheConfig}

-- The services with their limiters, the settings of the middlewares, and the fingerprint.
pub record Server (L : Type 0) : Type 0 where
  pub backend : Backend
  pub limiters : PerClientLimiter L
  pub settings : Settings
  pub last : WordFingerprint

-- A time to live is not negative.
unfoldable pub new_cache : CacheConfig → MultiLevelCache
unfolding new_multi_level_cache new_local_cache
new_cache c = new_multi_level_cache (new_local_cache (pos_part c.local_ttl) c.local_max_items)

-- A limit below 0 stops every body, as a limit of 0 does.
unfoldable pub settings_of : Config → Settings
settings_of cfg = record {
  api_keys = cfg.auth.api_keys;
  allowed_origins = cfg.cors.allowed_origins;
  max_body_size = pos_part cfg.server.http.max_body_size;
}

abbrev pub no_fingerprint : WordFingerprint
no_fingerprint = record { count = 0; max_id = 0; max_updated = 0 }

module _ (order : ℕ → List Edge → List Edge) (u : Unicode) {L : Type 0} where
  -- The replies of the database to the load of the words and to the fingerprint after it. The outer
  -- `none` is a panic, the inner one the end of the process.
  unfoldable pub start_up :
      Config
      → Option (List SensitiveWord)
      → Option WordFingerprint
      → WordTable
      → Option (Option (Server L))
  unfolding new_filter_engine new_cache init_engine new_per_client_limiter settings_of
  start_up cfg words print table = do
    engine ← new_filter_engine order u
    (s, done) ←
        init_engine order u words print
          (record { engine = engine; last = no_fingerprint; cache = some (new_cache cfg.cache) })
    some (
        if done
        then some (record {
          backend = record {
            filter = record { engine = s.engine; cache = s.cache };
            table = table;
          };
          limiters = new_per_client_limiter cfg.rate_limit.requests_per_second cfg.rate_limit.burst;
          settings = settings_of cfg;
          last = s.last;
        })
        else none)
