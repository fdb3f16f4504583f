-- ===== src/Tests/Requesting.antt =====
-- The server at concrete requests.
use censorhub.Prelude.{ℕ, zero, suc, ◌≡◌, refl, pos, true, false, none, some, List, [], ◌∷◌, arith}
use censorhub.Text.{Text, runes, text_eq, normalize, normalize_for_index}
use censorhub.Domain.{category_is_valid, level_is_valid}
use censorhub.Domain.Word.{validate}
use censorhub.Web.Limiter.{
  Buckets, PerClientLimiter, new_per_client_limiter, Event, asks, sweeps, run_events,
}
use censorhub.Web.Limiter.Laws.{answers_to, times_of, ask_bucket, StaysBusy, run_events-own}
use censorhub.Web.Middleware.{HttpRequest, contains_text}
use censorhub.Web.Handlers.{Binder, bound, unbound, Readings, Backend}
use censorhub.Web.Router.{api, words_create, find_route, Settings, Arrival, serve_http}
use censorhub.Web.Router.Laws.{IsRefusal, serve_http-unauthorized}
use censorhub.Web.Router.Statuses.{IsSound, serve_http-IsSound}
use censorhub.Tests.Inputs.{ascii, sort_by_position}
use censorhub.Tests.Serving.{json, timing, uncached, request}
use censorhub.Tests.Managing.{up, casino, no_words, like_any, lower}

-- A bucket that counts its tokens and gets no new ones.
abbrev pub counting : Buckets ℕ
counting = record {
  new_limiter = λ rps burst. elim burst [ pos n ↦ n | _ ↦ 0 ];
  allow = λ now n. elim n [ zero ↦ (false, 0) | suc k ↦ (true, k) ];
}

abbrev events : List Event
events =
    asks (runes "a") 5
    ∷ asks (runes "b") 6
    ∷ sweeps 100
    ∷ asks (runes "b") 101
    ∷ asks (runes "a") 102
    ∷ []

events-StaysBusy : StaysBusy (runes "a") none events
unfolding StaysBusy text_eq
events-StaysBusy = (omega arith, tt)

run_events-own_example :
    answers_to (runes "a") (run_events counting events (new_per_client_limiter (pos 1) (pos 2)))
    ≡ ask_bucket counting (times_of (runes "a") events) (counting.new_limiter (pos 1) (pos 2))
run_events-own_example = run_events-own counting (pos 1) (pos 2) (runes "a") events events-StaysBusy

abbrev pub binder : Binder
binder = record {
  filter_request = λ b more. bound request;
  batch_request = λ b more. bound (record { texts = b ∷ []; strategy = [] });
  create_request = λ b more. bound casino;
  update_request = λ b more. bound lower;
  list_request = λ q. unbound q;
  import_request = λ b more. bound (casino ∷ []);
  number_message = λ t. t;
}

abbrev readings : Readings
readings = record {
  timing = timing;
  turns = [];
  cancelled = false;
  db = up;
  now = 10;
  detail = runes "gone away";
  connection = true;
  database_ping = true;
  redis_ping = false;
  batches = [];
  flushed = true;
  spilled = 0;
}

abbrev pub arrival : Arrival
arrival = record {
  generated_id = runes "0a";
  span = none;
  asked = 7;
  exposition = [];
  readings = readings;
}

abbrev pub settings : Settings
settings = record { api_keys = runes "k" ∷ []; allowed_origins = []; max_body_size = 100 }

abbrev pub post_word : Text → HttpRequest
post_word key = record {
  method = runes "POST";
  full_path = runes "/api/v1/words";
  url_path = runes "/api/v1/words";
  param_id = [];
  query = [];
  origin = [];
  api_key = key;
  request_id = [];
  client_ip = runes "::1";
  body = 1 ∷ [];
}

abbrev pub backend : Backend
backend = record { filter = uncached; table = no_words }

abbrev pub fresh : PerClientLimiter ℕ
fresh = record { limiters = λ k. none; rps = pos 1; burst = pos 2 }

post_word-found : find_route (post_word []) ≡ some (api words_create)
unfolding find_route
post_word-found = refl

post_word-unknown : contains_text (post_word []).api_key settings.api_keys ≡ false
unfolding contains_text
post_word-unknown = refl

serve_http-unauthorized_example : IsRefusal backend (
    serve_http binder sort_by_position ascii json text_eq like_any counting settings arrival
      (post_word [])
      (backend, fresh))
serve_http-unauthorized_example =
    serve_http-unauthorized binder sort_by_position ascii json text_eq like_any counting settings
      arrival (post_word []) words_create backend fresh post_word-found refl post_word-unknown

serve_http-IsSound_example : IsSound backend.table (
    serve_http binder sort_by_position ascii json text_eq like_any counting settings arrival
      (post_word (runes "k"))
      (backend, fresh))
serve_http-IsSound_example =
    serve_http-IsSound binder sort_by_position ascii json text_eq like_any counting settings arrival
      (post_word (runes "k")) backend fresh

-- A request with a key creates a word.
post_word-created :
    (serve_http binder sort_by_position ascii json text_eq like_any counting settings arrival
      (post_word (runes "k"))
      (backend, fresh)).reply.status
    ≡ 201
unfolding serve_http validate normalize_for_index normalize category_is_valid level_is_valid
post_word-created = refl
