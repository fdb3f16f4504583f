-- ===== src/Connections.antt =====
-- What the process connects to: internal/infrastructure/database, internal/infrastructure/trace and
-- pkg/logger. Whether a library opens or answers is an argument; the times are nanoseconds, and a DSN
-- is its bytes.
pub mod Laws
use censorhub.Prelude.{
  ℕ, ℤ, pos, Bool, true, false, ◌||◌, ◌&&◌, Option, none, some, ◌++◌, ltb, if◌then◌else◌, ltbℤ,
  length, is_empty, take,
}
use censorhub.Text.{Text, runes, text_eq}
use censorhub.Config.{Config, LogConfig, seconds}

-- `maskDSN`
unfoldable pub mask_dsn : Text → Text
mask_dsn dsn = if ltb 20 (length dsn) then take 20 dsn ++ runes "..." else dsn

pub data GormLevel : Type 0 where
  gorm_warn gorm_info : GormLevel

-- The settings of the pool; no idle time is the library's default.
pub record MySql : Type 0 where
  pub dsn : Text
  pub log_level : GormLevel
  pub max_open_conns : ℤ
  pub max_idle_conns : ℤ
  pub conn_max_lifetime : ℤ
  pub conn_max_idle_time : Option ℤ
  pub log_line : Text

-- `gorm.Open`, and then `db.DB`; `none` for an error.
unfoldable pub new_mysql : Config → Bool → Bool → Option MySql
unfolding mask_dsn text_eq
new_mysql cfg opens gives_db =
    if opens && gives_db
    then some (record {
      dsn = cfg.database.dsn;
      log_level = if text_eq cfg.log.level (runes "debug") then gorm_info else gorm_warn;
      max_open_conns = cfg.database.max_open_conns;
      max_idle_conns = cfg.database.max_idle_conns;
      conn_max_lifetime =
          if ltbℤ (pos 0) cfg.database.conn_max_lifetime
          then cfg.database.conn_max_lifetime
          else seconds 3600;
      conn_max_idle_time =
          if ltbℤ (pos 0) cfg.database.conn_max_idle_time
          then some cfg.database.conn_max_idle_time
          else none;
      log_line = mask_dsn cfg.database.dsn;
    })
    else none

pub record RedisClient : Type 0 where
  pub addr : Text
  pub password : Text
  pub db : ℤ
  pub pool_size : ℤ

-- The client is tried with a ping of at most five seconds.
unfoldable pub new_redis : Config → Bool → Option RedisClient
new_redis cfg pings =
    if pings
    then some (record {
      addr = cfg.redis.addr;
      password = cfg.redis.password;
      db = cfg.redis.db;
      pool_size = cfg.redis.pool_size;
    })
    else none

pub data Tracer : Type 0 where
  no_tracer : Tracer
  tracer_at : Text → Tracer

-- `otlptracegrpc.New` and `resource.New`; the sampler is left out.
unfoldable pub init_tracer : Config → Bool → Bool → Option Tracer
init_tracer cfg exporter resource =
    if is_empty cfg.trace.endpoint
    then some no_tracer
    else if exporter && resource
    then some (tracer_at cfg.trace.endpoint)
    else none

pub data Encoder : Type 0 where
  console json : Encoder

pub data Writer : Type 0 where
  stdout : Writer
  file : Text → Writer

-- `Z` are the levels of zap.
pub record Logger (Z : Type 0) : Type 0 where
  pub level : Z
  pub encoder : Encoder
  pub writer : Writer

module _ {Z : Type 0} (info : Z) (unmarshal : Text → Option Z) where
  -- A level that cannot be read is `info`; a file that cannot be opened is an error.
  unfoldable pub new_logger : LogConfig → (Text → Bool) → Option (Logger Z)
  unfolding text_eq
  new_logger cfg opens =
      let logger : Writer → Logger Z = λ w. record {
        level = elim (unmarshal cfg.level) [ none ↦ info | some level ↦ level ];
        encoder = if text_eq cfg.format (runes "console") then console else json;
        writer = w;
      } in
      if text_eq cfg.output (runes "stdout") || is_empty cfg.output
      then some (logger stdout)
      else if opens cfg.output
      then some (logger (file cfg.output))
      else none
