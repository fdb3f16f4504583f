-- ===== src/Config/Load.antt =====
-- `LoadWithEnv`. `V` is what viper holds.
use censorhub.Prelude.{Bool, Option, none, some, List, [], ◌∷◌, is_empty, if◌then◌else◌}
use censorhub.Text.{Text, runes}
use censorhub.Config.{Config, Env, env_dev, set_defaults}
use censorhub.Config.Paths.{env_config_path}

-- What viper and the file system supply; a file of the environment may be missing. The values that
-- `unmarshal` gives are those of the environment's variables where the keys are bound.
pub record Viper (V : Type 0) : Type 0 where
  pub read_in_config : Text → Option V
  pub exists : Text → Bool
  pub merge_in_config : Text → V → Option V
  pub unmarshal : List Text → V → Option Config

pub data LoadError : Type 0 where
  read_failed merge_failed unmarshal_failed : LoadError

pub data Loaded : Type 0 where
  loaded : Config → Loaded
  not_loaded : LoadError → Loaded

abbrev pub bound_keys : List Text
bound_keys =
    runes "server.http.addr"
    ∷ runes "server.grpc.addr"
    ∷ runes "database.driver"
    ∷ runes "database.dsn"
    ∷ runes "database.max_open_conns"
    ∷ runes "database.max_idle_conns"
    ∷ runes "redis.addr"
    ∷ runes "redis.password"
    ∷ runes "redis.db"
    ∷ runes "redis.pool_size"
    ∷ runes "cache.local_ttl"
    ∷ runes "cache.redis_ttl"
    ∷ runes "log.level"
    ∷ runes "log.format"
    ∷ runes "log.output"
    ∷ runes "trace.endpoint"
    ∷ runes "trace.sample_rate"
    ∷ runes "ratelimit.requests_per_second"
    ∷ runes "ratelimit.burst"
    ∷ []

-- The argument, else the variable APP_ENV, else dev.
unfoldable pub choose_env : Text → Text → Env
choose_env env app_env =
    if is_empty env then (if is_empty app_env then env_dev else app_env) else env

module _ {V : Type 0} (viper : Viper V) (app_env : Text) where
  -- The values of the file of the environment over those of the base file.
  unfoldable pub merge_env : Text → V → Option V
  merge_env path v = if viper.exists path then viper.merge_in_config path v else some v

  unfoldable pub load_with_env : Text → Text → Loaded
  unfolding choose_env merge_env env_config_path set_defaults
  load_with_env path env_given =
      let env = choose_env env_given app_env in
      elim (viper.read_in_config path) [
        | none ↦ not_loaded read_failed
        | some v ↦ elim (merge_env (env_config_path path env) v) [
          | none ↦ not_loaded merge_failed
          | some v' ↦ elim (viper.unmarshal bound_keys v') [
            | none ↦ not_loaded unmarshal_failed
            | some cfg ↦ loaded (set_defaults (record cfg { env = env }))
          ]
        ]
      ]

  -- `Load`
  unfoldable pub load : Text → Loaded
  unfolding load_with_env
  load path = load_with_env path []
