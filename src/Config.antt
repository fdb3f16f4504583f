-- ===== src/Config.antt =====
-- internal/infrastructure/config/config.go. A duration is in nanoseconds; the sampling rate is kept as
-- the bits of its float64. The files and the variables of the environment are read by viper, which is
-- a parameter.
pub mod Paths
pub mod Load
pub mod Laws
use censorhub.Prelude.{ℕ, ◌*◌, ℤ, pos, eqℤ, Bool, true, false, ◌||◌, List, is_empty, if◌then◌else◌}
use censorhub.Text.{Text, runes, text_eq}

pub record HttpConfig : Type 0 where
  pub addr : Text
  pub read_timeout : ℤ
  pub write_timeout : ℤ
  pub idle_timeout : ℤ
  pub max_body_size : ℤ

pub record GrpcConfig : Type 0 where
  pub addr : Text

pub record ServerConfig : Type 0 where
  pub http : HttpConfig
  pub grpc : GrpcConfig

pub record DatabaseConfig : Type 0 where
  pub driver : Text
  pub dsn : Text
  pub max_open_conns : ℤ
  pub max_idle_conns : ℤ
  pub conn_max_lifetime : ℤ
  pub conn_max_idle_time : ℤ

pub record RedisConfig : Type 0 where
  pub addr : Text
  pub password : Text
  pub db : ℤ
  pub pool_size : ℤ

pub record CacheConfig : Type 0 where
  pub local_ttl : ℤ
  pub redis_ttl : ℤ
  pub local_max_items : ℤ

pub record LogConfig : Type 0 where
  pub level : Text
  pub format : Text
  pub output : Text

pub record TraceConfig : Type 0 where
  pub endpoint : Text
  pub sample_rate : ℕ

pub record RateLimitConfig : Type 0 where
  pub requests_per_second : ℤ
  pub burst : ℤ

pub record AuthConfig : Type 0 where
  pub api_keys : List Text

pub record CorsConfig : Type 0 where
  pub allowed_origins : List Text

abbrev pub Env : Type 0
Env = Text

pub record Config : Type 0 where
  pub env : Env
  pub server : ServerConfig
  pub database : DatabaseConfig
  pub redis : RedisConfig
  pub cache : CacheConfig
  pub log : LogConfig
  pub trace : TraceConfig
  pub rate_limit : RateLimitConfig
  pub auth : AuthConfig
  pub cors : CorsConfig

abbrev pub env_dev : Env
env_dev = runes "dev"

abbrev pub env_test : Env
env_test = runes "test"

abbrev pub env_staging : Env
env_staging = runes "staging"

abbrev pub env_production : Env
env_production = runes "production"

unfoldable pub env_is_valid : Env → Bool
unfolding text_eq
env_is_valid e =
    text_eq e env_dev || text_eq e env_test || text_eq e env_staging || text_eq e env_production

unfoldable pub env_is_prod : Env → Bool
unfolding text_eq
env_is_prod e = text_eq e env_production

-- A number where it is 0, or a text where it is empty, gets its default.
unfoldable pub or_default : ℤ → ℤ → ℤ
or_default value standard = if eqℤ value (pos 0) then standard else value

unfoldable pub or_default_text : Text → Text → Text
or_default_text value standard = if is_empty value then standard else value

abbrev pub seconds : ℕ → ℤ
seconds n = pos (n * 1000000000)

unfoldable pub set_defaults : Config → Config
unfolding or_default or_default_text
set_defaults cfg = record cfg {
  server = record {
    http = record {
      addr = or_default_text cfg.server.http.addr (runes ":8080");
      read_timeout = or_default cfg.server.http.read_timeout (seconds 10);
      write_timeout = or_default cfg.server.http.write_timeout (seconds 10);
      idle_timeout = or_default cfg.server.http.idle_timeout (seconds 60);
      max_body_size = or_default cfg.server.http.max_body_size (pos 10485760);
    };
    grpc = record { addr = or_default_text cfg.server.grpc.addr (runes ":9090") };
  };
  database = record cfg.database {
    max_open_conns = or_default cfg.database.max_open_conns (pos 100);
    max_idle_conns = or_default cfg.database.max_idle_conns (pos 25);
    conn_max_idle_time = or_default cfg.database.conn_max_idle_time (seconds 300);
  };
  redis = record cfg.redis { pool_size = or_default cfg.redis.pool_size (pos 500) };
  cache = record {
    local_ttl = or_default cfg.cache.local_ttl (seconds 300);
    redis_ttl = or_default cfg.cache.redis_ttl (seconds 1800);
    local_max_items = or_default cfg.cache.local_max_items (pos 100000);
  };
  rate_limit = record {
    requests_per_second = or_default cfg.rate_limit.requests_per_second (pos 1000);
    burst = or_default cfg.rate_limit.burst (pos 2000);
  };
}
