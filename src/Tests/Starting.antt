-- ===== src/Tests/Starting.antt =====
-- A configuration that is loaded, and a server that starts with it, at concrete inputs.
use censorhub.Prelude.{ℕ, ◌≡◌, refl, pos, true, false, none, some, [], ◌∷◌, ◌||◌, is_empty}
use censorhub.Text.{runes}
use censorhub.Cache.MultiLevel.{redis_nil}
use censorhub.Web.Middleware.{HttpRequest, contains_text}
use censorhub.Web.Handlers.{bind_body, bound}
use censorhub.Web.Router.{api, filter_detect, find_route, serve_http}
use censorhub.Config.{Config, set_defaults}
use censorhub.Config.Load.{Viper}
use censorhub.Config.Paths.{env_config_path}
use censorhub.Startup.{Server, settings_of, start_up}
use censorhub.Startup.Laws.{IsTruthfulReply, start_up-IsTruthful}
use censorhub.Tests.Inputs.{
  ascii, keep_order, keep_order-VisitsAll, sort_by_position, sort_by_position-SortsByPosition,
}
use censorhub.Tests.Matching.{word_list}
use censorhub.Tests.Serving.{json, request}
use censorhub.Tests.Managing.{no_words, like_any}
use censorhub.Tests.Requesting.{binder, counting, arrival, post_word}
use censorhub.Text.{text_eq}

-- A file with nothing in it.
abbrev pub blank : Config
blank = record {
  env = [];
  server = record {
    http = record {
      addr = [];
      read_timeout = pos 0;
      write_timeout = pos 0;
      idle_timeout = pos 0;
      max_body_size = pos 0;
    };
    grpc = record { addr = [] };
  };
  database = record {
    driver = [];
    dsn = [];
    max_open_conns = pos 0;
    max_idle_conns = pos 0;
    conn_max_lifetime = pos 0;
    conn_max_idle_time = pos 0;
  };
  redis = record { addr = []; password = []; db = pos 0; pool_size = pos 7 };
  cache = record { local_ttl = pos 0; redis_ttl = pos 0; local_max_items = pos 0 };
  log = record { level = []; format = []; output = [] };
  trace = record { endpoint = []; sample_rate = 0 };
  rate_limit = record { requests_per_second = pos 0; burst = pos 0 };
  auth = record { api_keys = runes "k" ∷ [] };
  cors = record { allowed_origins = [] };
}

-- The base file can be read, no other file exists.
abbrev pub viper : Viper ℕ
viper = record {
  read_in_config = λ path. some 0;
  exists = λ path. false;
  merge_in_config = λ path v. none;
  unmarshal = λ keys v. some blank;
}

-- The path of the file of an environment, for a path whose directories have points.
path_test :
    env_config_path (runes "./a.b/config.yaml") (runes "dev") ≡ runes "./a.b/config.dev.yaml"
unfolding env_config_path
path_test = refl

abbrev ready : Config
ready = set_defaults (record blank { env = runes "test" })

abbrev post_text : HttpRequest
post_text = record (post_word (runes "k")) { full_path = runes "/api/v1/filter/detect" }

post_text-found : find_route post_text ≡ some (api filter_detect)
unfolding find_route
post_text-found = refl

post_text-known :
    (is_empty ready.auth.api_keys || contains_text post_text.api_key ready.auth.api_keys) ≡ true
unfolding contains_text set_defaults
post_text-known = refl

ready-allows :
    (counting.allow arrival.asked
      (counting.new_limiter ready.rate_limit.requests_per_second ready.rate_limit.burst)).0
    ≡ true
unfolding set_defaults
ready-allows = refl

post_text-bound :
    bind_body binder.filter_request (record {
      request = post_text;
      trace_id = [];
      limit = some (settings_of ready).max_body_size;
    })
    ≡ bound request
unfolding bind_body settings_of set_defaults
post_text-bound = refl

start_up-IsTruthful_example :
    (server : Server ℕ) × (start_up keep_order ascii ready (some word_list) none no_words
      ≡ some (some server))
    × IsTruthfulReply ascii word_list request.text
        (serve_http binder sort_by_position ascii json text_eq like_any counting server.settings
          arrival post_text
          (server.backend, server.limiters)).reply
start_up-IsTruthful_example =
    start_up-IsTruthful keep_order keep_order-VisitsAll sort_by_position
      sort_by_position-SortsByPosition ascii json binder text_eq like_any counting ready word_list
      none no_words arrival post_text request redis_nil post_text-found post_text-known ready-allows
      post_text-bound refl
