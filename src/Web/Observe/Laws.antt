-- ===== src/Web/Observe/Laws.antt =====
-- The observers change no reply, and what they see.
use censorhub.Prelude.{
  sym, ℕ, ◌≡◌, refl, ap, ◌∙◌, Bool, Option, none, some, List, [], ◌∷◌, ◌++◌, if◌then◌else◌,
  is_empty,
}
use censorhub.Text.{Text, Unicode, runes, text_eq}
use censorhub.Domain.{MatchItem}
use censorhub.Service.Filter.{Json}
use censorhub.Web.Limiter.{Buckets, PerClientLimiter}
use censorhub.Web.Reply.{Reply}
use censorhub.Web.Middleware.{
  HttpRequest, Context, Headers, Handler, Outcome, replied, panicked, with_headers, recovery,
  request_id_middleware, body_limit, cors, tracing,
}
use censorhub.Web.Handlers.{Binder, Backend}
use censorhub.Web.Router.{find_route, Settings, Arrival, handle_route, serve_http, dispatch_http}
use censorhub.Web.Observe.{
  Observation, access_line, request_count, metrics_middleware, logger_middleware, serve_observed,
  dispatch_observed,
}
use censorhub.Web.Observe.Seen.{
  seen_with, with_headers-seen_with, cors-seen_with, logger-seen_with, recovery-seen_with,
  recovery-replied, recovery-panicked, with_seen,
}

-- The identifier that the client sends, or else a new one.
unfoldable pub identifier : Text → HttpRequest → Text
identifier generated req = if is_empty req.request_id then generated else req.request_id

request_id_middleware-identifier :
    {S : Type 0} (generated : Text) (next : Handler S) (c : Context) (s : S)
    → request_id_middleware generated next c s
      ≡ with_headers
          ((runes "X-Request-ID", identifier generated c.request) ∷ [])
          (next (record c { trace_id = identifier generated c.request }) s)
unfolding request_id_middleware identifier
request_id_middleware-identifier generated next c s = refl

-- What is seen of a request: the count, unless it is a preflight, and the line with its identifier.
unfoldable pub seen_of : Text → HttpRequest → ℕ → Reply → List Observation
unfolding access_line request_count identifier
seen_of generated req max_bytes r =
    let c : Context = record {
      request = req;
      trace_id = identifier generated req;
      limit = some max_bytes;
    } in
    access_line c r ∷ (if text_eq req.method (runes "OPTIONS") then [] else request_count c r ∷ [])

-- A reply of the chain starts with the identifier; a redirect has the headers that gin gives it.
unfoldable pub IsIdentified : Option (Headers × Reply) → Text → Headers → Type 0
IsIdentified none id hs = (gs : Headers) × (hs ≡ (runes "X-Request-ID", id) ∷ gs)
IsIdentified (some answer) id hs = hs ≡ answer.0

recovery-with_headers :
    {S : Type 0} (next : Handler S) (c : Context) (s : S) (hs : Headers) (o : Outcome S)
    → next c s ≡ with_headers hs o
    → (gs : Headers) × ((recovery next c s).headers ≡ hs ++ gs)
unfolding with_headers
recovery-with_headers next c s hs (replied gs r t) e =
    (gs, ap (λ v. v.headers) (recovery-replied next c s (hs ++ gs) r t e))
recovery-with_headers next c s hs (panicked gs) e =
    (gs, ap (λ v. v.headers) (recovery-panicked next c s (hs ++ gs) e))

module _ (binder : Binder) (sort : List MatchItem → List MatchItem) (u : Unicode) (json : Json)
    (same like : Text → Text → Bool) {L : Type 0} (buckets : Buckets L) (settings : Settings) where
  serve_observed-serve_http :
      (arrival : Arrival) (req : HttpRequest) (s : Backend × PerClientLimiter L)
      → serve_observed binder sort u json same like buckets settings arrival req s
        ≡ with_seen
            (seen_of arrival.generated_id req settings.max_body_size)
            (serve_http binder sort u json same like buckets settings arrival req s)
  unfolding serve_observed serve_http seen_of body_limit
  serve_observed-serve_http arrival req s =
      let route =
        handle_route binder sort u json same like buckets settings arrival (find_route req) in
      let id = identifier arrival.generated_id req in
      let c : Context = record {
        request = req;
        trace_id = id;
        limit = some settings.max_body_size;
      } in
      let next = tracing arrival.span route in
      let f : Reply → List Observation =
        λ r. if text_eq req.method (runes "OPTIONS") then [] else request_count c r ∷ [] in
      let seen = seen_of arrival.generated_id req settings.max_body_size in
      let plain = body_limit settings.max_body_size (cors settings.allowed_origins next) in
      let observed =
        body_limit settings.max_body_size
          (logger_middleware (cors settings.allowed_origins (metrics_middleware next))) in
      let c0 : Context = record { request = req; trace_id = []; limit = none } in
      let inner =
        logger-seen_with f (cors settings.allowed_origins (metrics_middleware next)) c (s, [])
          (cors settings.allowed_origins next c s)
          (cors-seen_with settings.allowed_origins next c s []) in
      recovery-seen_with seen (request_id_middleware arrival.generated_id plain)
        (request_id_middleware arrival.generated_id observed) c0 s (s, [])
        (request_id_middleware-identifier arrival.generated_id observed c0 (s, [])
          ∙ ap (with_headers ((runes "X-Request-ID", id) ∷ [])) inner
          ∙ with_headers-seen_with seen ((runes "X-Request-ID", id) ∷ [])
              (cors settings.allowed_origins next c s)
          ∙ ap (seen_with seen)
              (sym (request_id_middleware-identifier arrival.generated_id plain c0 s)))

  -- What is seen of a request that gin does not redirect.
  unfoldable pub seen_at :
      Option (Headers × Reply) → Arrival → HttpRequest → Reply → List Observation
  unfolding seen_of
  seen_at redirect arrival req r = elim redirect [
    | none ↦ seen_of arrival.generated_id req settings.max_body_size r
    | some answer ↦ []
  ]

  -- The logger and the metrics change nothing of what is served. A request that gin redirects before
  -- the chain has no line in the log and no count. Any other has the identifier that the client sends,
  -- or else a new one, in the header X-Request-ID of its reply, also after a panic; if it ends without
  -- a panic, it has one line in the log, with the status of the reply and the same identifier, and,
  -- unless it is a preflight, is counted once, under its pattern or `unknown`.
  pub dispatch_observed-dispatch_http :
      (redirect : Option (Headers × Reply)) (arrival : Arrival) (req : HttpRequest)
      (s : Backend × PerClientLimiter L)
      → let served =
          dispatch_http binder sort u json same like buckets settings redirect arrival req s in
        (dispatch_observed binder sort u json same like buckets settings redirect arrival req s
          ≡ with_seen (seen_at redirect arrival req) served)
        × IsIdentified redirect (identifier arrival.generated_id req) served.headers
  unfolding dispatch_observed dispatch_http seen_at IsIdentified with_seen serve_http body_limit
  dispatch_observed-dispatch_http none arrival req s =
      let id = identifier arrival.generated_id req in
      let next = cors settings.allowed_origins (
        tracing arrival.span
          (handle_route binder sort u json same like buckets settings arrival (find_route req))) in
      let c : Context = record { request = req; trace_id = []; limit = none } in
      (
        serve_observed-serve_http arrival req s,
        recovery-with_headers
            (request_id_middleware arrival.generated_id (body_limit settings.max_body_size next)) c
            s ((runes "X-Request-ID", id) ∷ [])
            (next (record c { trace_id = id; limit = some settings.max_body_size }) s)
            (request_id_middleware-identifier arrival.generated_id
              (body_limit settings.max_body_size next) c s),
      )
  dispatch_observed-dispatch_http (some answer) arrival req s = (refl, refl)
