-- ===== src/Config/Laws.antt =====
-- What a loaded configuration is.
use censorhub.Prelude.{ℤ, pos, eqℤ, ◌≡◌, ◌≢◌, ◌⊎◌, ◌||◌, Bool, false, List, [], ◌∷◌, All}
use censorhub.Text.{Text, runes}
use censorhub.Config.{Config, seconds, or_default, set_defaults}

-- The numbers that have a default.
abbrev pub numbers : Config → List ℤ
numbers c =
    c.server.http.read_timeout ∷ c.server.http.write_timeout ∷ c.server.http.idle_timeout
    ∷ c.server.http.max_body_size ∷ c.database.max_open_conns ∷ c.database.max_idle_conns
    ∷ c.database.conn_max_idle_time ∷ c.redis.pool_size ∷ c.cache.local_ttl ∷ c.cache.redis_ttl
    ∷ c.cache.local_max_items ∷ c.rate_limit.requests_per_second ∷ c.rate_limit.burst ∷ []

-- The numbers of the second configuration are those of the first, where those are not 0.
abbrev Keeps : List ℤ → List ℤ → Type 0
Keeps [] [] = Unit
Keeps [] (b ∷ bs) = Unit
Keeps (a ∷ rest) [] = Unit
Keeps (a ∷ rest) (b ∷ bs) = ((a ≡ pos 0) ⊎ (b ≡ a)) × Keeps rest bs

any_zero : List ℤ → Bool
any_zero [] = false
any_zero (d ∷ ds) = eqℤ d (pos 0) || any_zero ds

-- Numbers with their defaults, place by place.
abbrev filled : List ℤ → List ℤ → List ℤ
filled [] ds = []
filled (x ∷ xs) [] = []
filled (x ∷ xs) (d ∷ ds) = or_default x d ∷ filled xs ds

abbrev standards : List ℤ
standards =
    seconds 10
    ∷ seconds 10
    ∷ seconds 60
    ∷ pos 10485760
    ∷ pos 100
    ∷ pos 25
    ∷ seconds 300
    ∷ pos 500
    ∷ seconds 300
    ∷ seconds 1800
    ∷ pos 100000
    ∷ pos 1000
    ∷ pos 2000
    ∷ []

-- The environment of the argument, else that of APP_ENV, else dev.
abbrev pub IsChosen : Text → Text → Text → Type 0
IsChosen given app_env env =
    ((given ≢ []) × (env ≡ given))
    ⊎ ((given ≡ []) × (app_env ≢ []) × (env ≡ app_env))
    ⊎ ((given ≡ []) × (app_env ≡ []) × (env ≡ runes "dev"))

-- The configuration of a run: complete, with the values of the files that are not 0, and settled.
pub record IsComplete (raw : Config) (given app_env : Text) (c : Config) : Type 0 where
  pub env_chosen : IsChosen given app_env c.env
  pub nonzero : All (λ n. n ≢ pos 0) (numbers c)
  pub kept : Keeps (numbers raw) (numbers c)
  pub settled : set_defaults c ≡ c
