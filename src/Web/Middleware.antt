-- ===== src/Web/Middleware.antt =====
-- internal/interfaces/middleware. A handler takes the context of a request and the state of the
-- server; a middleware makes a handler of the next one, `c.Next()`. The logger and the metrics stand in
-- Observe.
use censorhub.Prelude.{
  ℕ, Bool, false, ◌||◌, Option, none, some, List, [], ◌∷◌, ◌++◌, if◌then◌else◌, is_empty,
}
use censorhub.Text.{Text, runes, text_eq}
use censorhub.Web.Limiter.{Buckets, PerClientLimiter, allow_client}
use censorhub.Web.Reply.{no_body, no_data, Reply, respond}

-- What the code reads of a request: the headers Origin, X-API-Key and X-Request-ID, the pattern of
-- the route that gin found, or none, and the parameter in it.
pub record HttpRequest : Type 0 where
  pub method : Text
  pub full_path : Text
  pub url_path : Text
  pub param_id : Text
  pub query : Text
  pub origin : Text
  pub api_key : Text
  pub request_id : Text
  pub client_ip : Text
  pub body : List ℕ

-- `limit` is the reader's limit of bytes, if there is one.
pub record Context : Type 0 where
  pub request : HttpRequest
  pub trace_id : Text
  pub limit : Option ℕ

abbrev pub Headers : Type 0
Headers = List (Text × Text)

-- A reply with the headers set so far and the state after it, or a panic on the way.
pub data Outcome (S : Type 0) : Type 0 where
  replied : Headers → Reply → S → Outcome S
  panicked : Headers → Outcome S

abbrev pub Handler : Type 0 → Type 0
Handler S = Context → S → Outcome S

-- What a panic leaves of the state is not followed.
pub record Served (S : Type 0) : Type 0 where
  pub headers : Headers
  pub reply : Reply
  pub state : Option S

unfoldable pub with_headers : {S : Type 0} → Headers → Outcome S → Outcome S
with_headers hs (replied gs r s) = replied (hs ++ gs) r s
with_headers hs (panicked gs) = panicked (hs ++ gs)

-- `c.AbortWithStatusJSON` with a code and a message.
unfoldable pub abort_with : ℕ → ℕ → Text → Reply
unfolding respond
abort_with status code message =
    respond status (record { code = code; message = message; payload = no_data; trace_id = [] })

unfoldable pub contains_text : Text → List Text → Bool
unfolding text_eq
contains_text t [] = false
contains_text t (x ∷ xs) = text_eq x t || contains_text t xs

abbrev pub cors_headers : Headers
cors_headers =
    (runes "Access-Control-Allow-Methods", runes "GET, POST, PUT, DELETE, OPTIONS")
    ∷ (
      runes "Access-Control-Allow-Headers",
      runes "Origin, Content-Type, Authorization, X-API-Key, X-Request-ID",
    )
    ∷ (runes "Access-Control-Expose-Headers", runes "X-Request-ID")
    ∷ (runes "Access-Control-Max-Age", runes "86400")
    ∷ []

abbrev pub origin_headers : Bool → Text → Headers
origin_headers allow_all origin =
    if allow_all
    then (runes "Access-Control-Allow-Origin", runes "*") ∷ []
    else (runes "Access-Control-Allow-Origin", origin) ∷ (runes "Vary", runes "Origin") ∷ []

module _ {S : Type 0} where
  -- The panics of the model are no broken pipes.
  unfoldable pub recovery : Handler S → Context → S → Served S
  unfolding abort_with
  recovery next c s = elim (next c s) [
    | replied hs r s' ↦ record { headers = hs; reply = r; state = some s' }
    | panicked hs ↦ record {
      headers = hs;
      reply = abort_with 500 500 (runes "internal server error");
      state = none;
    }
  ]

  -- The identifier that is drawn for a request without one is an argument.
  unfoldable pub request_id_middleware : Text → Handler S → Handler S
  unfolding with_headers
  request_id_middleware generated next c s =
      let id = if is_empty c.request.request_id then generated else c.request.request_id in
      with_headers ((runes "X-Request-ID", id) ∷ []) (next (record c { trace_id = id }) s)

  unfoldable pub body_limit : ℕ → Handler S → Handler S
  body_limit max_bytes next c s = next (record c { limit = some max_bytes }) s

  -- The names before the `*` are looked up only where there is no `*`.
  unfoldable pub cors : List Text → Handler S → Handler S
  unfolding with_headers contains_text text_eq
  cors allowed next c s =
      let preflight = text_eq c.request.method (runes "OPTIONS") in
      let allow_all = contains_text (runes "*") allowed in
      if allow_all || contains_text c.request.origin allowed
      then with_headers (origin_headers allow_all c.request.origin) (
          with_headers cors_headers (
            if preflight then replied [] (record { status = 204; body = no_body }) s else next c s))
      else if preflight
      then replied [] (record { status = 403; body = no_body }) s
      else next c s

  -- The identifier of the span, where tracing is on and the span has one.
  unfoldable pub tracing : Option Text → Handler S → Handler S
  unfolding with_headers
  tracing none next c s = next c s
  tracing (some id) next c s =
      with_headers ((runes "X-Trace-ID", id) ∷ []) (next (record c { trace_id = id }) s)

  -- A set with no key lets everyone through.
  unfoldable pub auth : List Text → Handler S → Handler S
  unfolding abort_with contains_text
  auth api_keys next c s =
      if is_empty api_keys || contains_text c.request.api_key api_keys
      then next c s
      else replied []
          (abort_with 401 10008 (runes "unauthorized: invalid or missing X-API-Key header")) s

-- The state with the limiters of the clients; the time at which the bucket is asked is an argument.
module _ {S L : Type 0} (buckets : Buckets L) where
  unfoldable pub rate_limit :
      ℕ → Handler (S × PerClientLimiter L) → Handler (S × PerClientLimiter L)
  unfolding abort_with allow_client
  rate_limit now next c (s, limiters) =
      let key = if is_empty c.request.api_key then c.request.client_ip else c.request.api_key in
      let (allowed, limiters') = allow_client buckets now key limiters in
      if allowed
      then next c (s, limiters')
      else replied [] (abort_with 429 10007 (runes "rate limit exceeded")) (s, limiters')
