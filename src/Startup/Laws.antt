-- ===== src/Startup/Laws.antt =====
-- From the start to the first answer.
use censorhub.Startup.Started.{start_up-Started, new_cache-misses}
use censorhub.Prelude.{
  ℕ, ℤ, ◌≡◌, arith, Bool-cases, inl, inr, refl, Bool, true, false, ◌||◌, Option, none, some, List,
  [], is_empty, if◌then◌else◌,
}
use censorhub.Text.{Text, Unicode, runes, text_eq, text_eq_sound}
use censorhub.Domain.{MatchItem, strategy_detect}
use censorhub.Domain.Word.{SensitiveWord}
use censorhub.Automaton.{Edge}
use censorhub.Automaton.Levels.{VisitsAll}
use censorhub.Strategy.Sort.{SortsByPosition}
use censorhub.Cache.MultiLevel.{CacheError, refused}
use censorhub.Service.Filter.{FilterRequest, FilterResponse, Json, detect_text}
use censorhub.Service.Filter.Laws.{Answers, Serves, filter_text-Serves, request_key}
use censorhub.Words.Table.{WordTable}
use censorhub.Words.Poll.{WordFingerprint}
use censorhub.Web.Limiter.{
  Buckets, PerClientLimiter, allow_client, get_limiter, put_client, new_per_client_limiter,
}
use censorhub.Web.Reply.{Reply, filtered, success}
use censorhub.Web.Middleware.{
  HttpRequest, Context, Headers, Handler, Outcome, replied, panicked, with_headers, contains_text,
  recovery, auth, rate_limit,
}
use censorhub.Web.Handlers.{
  Binder, bound, bind_body, filter_reply, handle_detect, Backend, Readings,
}
use censorhub.Web.Router.{
  Route, filter_detect, api, find_route, Settings, Arrival, handle_api, handle_route, serve_http,
  keeping,
}
use censorhub.Web.Router.Chain.{global_chain, global_chain-passes}
use censorhub.Config.{Config, CacheConfig}
use censorhub.Startup.{Server, new_cache, settings_of, start_up}

-- No route takes the method of a preflight.
routed-method :
    (req : HttpRequest) (route : Route)
    → find_route req ≡ some route
    → text_eq req.method (runes "OPTIONS") ≡ false
unfolding find_route
routed-method req route found = elim (Bool-cases (text_eq req.method (runes "OPTIONS"))) [
  | inr n ↦ n
  | inl y ↦
      let same = text_eq_sound req.method (runes "OPTIONS") y in
      let lost = rw (find_route, same) at found in absurd (ground arith)
]

-- A reply that tells the truth about a text, for the active words of a list.
pub record IsTruthfulReply (u : Unicode) (words : List SensitiveWord) (text : Text) (r : Reply)
    : Type 0 where
  pub trace_id : Text
  pub response : FilterResponse
  pub shown : r ≡ success trace_id (filtered response)
  pub answers : Answers u words strategy_detect text response

Tells : {S : Type 0} → Unicode → List SensitiveWord → Text → Outcome S → Type 0
Tells u words text (replied hs r s) = IsTruthfulReply u words text r
Tells u words text (panicked hs) = ⊥

module _ (order : ℕ → List Edge → List Edge) (visits_all : VisitsAll order)
    (sort : List MatchItem → List MatchItem) (sorts : SortsByPosition sort) (u : Unicode)
    (json : Json) (binder : Binder) (same like : Text → Text → Bool) {L : Type 0}
    (buckets : Buckets L) where
  detect-Tells :
      (words : List SensitiveWord) (c : CacheConfig) (now : Readings) (ctx : Context) (s : Backend)
      (req : FilterRequest) (e : CacheError)
      → Serves u words s.filter.engine
      → s.filter.cache ≡ some (new_cache c)
      → now.timing.get_reply ≡ refused e
      → bind_body binder.filter_request ctx ≡ bound req
      → Tells u words req.text (handle_detect binder sort u json now ctx s)
  unfolding handle_detect filter_reply detect_text Tells
  detect-Tells words c now ctx s req e serves fresh missed bound_to =
      let req' : FilterRequest = record req { strategy = strategy_detect } in
      let (r, called, answers) =
        filter_text-Serves sort sorts u json words now.timing req' s.filter serves (
          new_cache-misses json now.timing (request_key req' s.filter) s.filter c e fresh missed) in
      rw (filter_reply, bound_to, called)
        (record { trace_id = ctx.trace_id; response = r; shown = refl; answers = answers })

  Tells-with_headers :
      {S : Type 0} (words : List SensitiveWord) (text : Text) (hs : Headers) (o : Outcome S)
      → Tells u words text o
      → Tells u words text (with_headers hs o)
  unfolding Tells with_headers
  Tells-with_headers words text hs (replied gs r s) h = h
  Tells-with_headers words text hs (panicked gs) h = h

  Tells-keeping :
      (words : List SensitiveWord) (text : Text) (next : Handler Backend) (c : Context)
      (s : Backend) (limiters : PerClientLimiter L)
      → Tells u words text (next c s)
      → Tells u words text (keeping next c (s, limiters))
  unfolding Tells keeping
  Tells-keeping words text next c s limiters h = go (next c s) refl
    where
      go : (o : Outcome Backend) → next c s ≡ o → Tells u words text (keeping next c (s, limiters))
      go (replied hs r s') e = rw (keeping, e) (rw (e) at h)
      go (panicked hs) e = absurd (rw (e) at h)

  Tells-recovery :
      (words : List SensitiveWord) (text : Text) (next : Handler (Backend × PerClientLimiter L))
      (c : Context) (s : Backend × PerClientLimiter L)
      → Tells u words text (next c s)
      → IsTruthfulReply u words text (recovery next c s).reply
  unfolding Tells recovery
  Tells-recovery words text next c s h = go (next c s) refl
    where
      go :
          (o : Outcome (Backend × PerClientLimiter L))
          → next c s ≡ o
          → IsTruthfulReply u words text (recovery next c s).reply
      go (replied hs r s') e = rw (recovery, e) (rw (e) at h)
      go (panicked hs) e = absurd (rw (e) at h)

  -- A new limiter asks a new bucket.
  new_limiter-allows :
      (rps burst : ℤ) (now : ℕ) (key : Text)
      → (buckets.allow now (buckets.new_limiter rps burst)).0 ≡ true
      → (allow_client buckets now key (new_per_client_limiter rps burst)).0 ≡ true
  unfolding allow_client get_limiter new_per_client_limiter
  new_limiter-allows rps burst now key h = h

  handle_route-Tells :
      (words : List SensitiveWord) (text : Text) (settings : Settings) (arrival : Arrival)
      (c : Context) (s : Backend) (limiters : PerClientLimiter L)
      → ((key : Text) → (allow_client buckets arrival.asked key limiters).0 ≡ true)
      → (is_empty settings.api_keys || contains_text c.request.api_key settings.api_keys) ≡ true
      → Tells u words text (handle_detect binder sort u json arrival.readings c s)
      → Tells u words text (
          handle_route binder sort u json same like buckets settings arrival
            (some (api filter_detect))
            c
            (s, limiters))
  unfolding handle_route rate_limit auth handle_api
  handle_route-Tells words text settings arrival c s limiters allowed known h =
      let key = if is_empty c.request.api_key then c.request.client_ip else c.request.api_key in
      rw (handle_route, rate_limit, allowed key, auth, known)
        (Tells-keeping words text (handle_detect binder sort u json arrival.readings) c s
          (allow_client buckets arrival.asked key limiters).1 h)

  -- A server that started with some words answers its first request for a detection truthfully for
  -- those words, if the request has a configured key where there are any, the new bucket lets it
  -- through, its body is bound and Redis has no entry for it.
  pub start_up-IsTruthful :
      (cfg : Config) (words : List SensitiveWord) (print : Option WordFingerprint)
      (table : WordTable) (arrival : Arrival) (req : HttpRequest) (detect : FilterRequest)
      (e : CacheError)
      → find_route req ≡ some (api filter_detect)
      → (is_empty cfg.auth.api_keys || contains_text req.api_key cfg.auth.api_keys) ≡ true
      → (buckets.allow arrival.asked
          (buckets.new_limiter cfg.rate_limit.requests_per_second cfg.rate_limit.burst)).0
        ≡ true
      → bind_body binder.filter_request
          (record { request = req; trace_id = []; limit = some (settings_of cfg).max_body_size })
        ≡ bound detect
      → arrival.readings.timing.get_reply ≡ refused e
      → (server : Server L) × (start_up order u cfg (some words) print table ≡ some (some server))
        × IsTruthfulReply u words detect.text
            (serve_http binder sort u json same like buckets server.settings arrival req
              (server.backend, server.limiters)).reply
  unfolding serve_http handle_route handle_api rate_limit auth allow_client get_limiter put_client
      new_per_client_limiter settings_of bind_body
  start_up-IsTruthful cfg words print table arrival req detect e found known allowed bound_to
        missed =
      let (server, done, started) = start_up-Started order visits_all u cfg words print table in
      let settings = settings_of cfg in
      let limiters : PerClientLimiter L =
        new_per_client_limiter cfg.rate_limit.requests_per_second cfg.rate_limit.burst in
      let route =
        handle_route binder sort u json same like buckets settings arrival
          (some (api filter_detect)) in
      let within : Text → Context =
        λ id. record { request = req; trace_id = id; limit = some settings.max_body_size } in
      let c : Context = record { request = req; trace_id = []; limit = none } in
      let answered =
        global_chain-passes (Tells u words detect.text) (Tells-with_headers words detect.text)
          arrival.generated_id settings.max_body_size settings.allowed_origins arrival.span route c
          (server.backend, limiters) (routed-method req (api filter_detect) found)
          (λ id.
            handle_route-Tells words detect.text settings arrival (within id) server.backend
              limiters
              (λ key.
                new_limiter-allows cfg.rate_limit.requests_per_second cfg.rate_limit.burst
                  arrival.asked key allowed)
              known
              (detect-Tells words cfg.cache arrival.readings (within id) server.backend detect e
                started.serves started.cache_new missed bound_to)) in
      (
        server,
        done,
        rw (started.configured, started.limiters_new, serve_http, found)
            (Tells-recovery words detect.text
              (global_chain arrival.generated_id settings.max_body_size settings.allowed_origins
                arrival.span route)
              c (server.backend, limiters) answered),
      )
