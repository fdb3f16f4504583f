-- ===== src/Web/Router.antt =====
-- internal/interfaces/http/router.go: the routes, and the chain of middlewares in front of them.
-- gin finds the pattern of the route, and answers a request without one after the global chain, or
-- before it by a redirect to the path with another slash at its end, which is a parameter.
pub mod Chain
pub mod Statuses
pub mod Laws
use censorhub.Prelude.{
  ℕ, ℤ, Bool, true, false, ◌&&◌, Option, none, some, List, [], ◌∷◌, if◌then◌else◌, is_empty,
}
use censorhub.Text.{Text, Unicode, runes, text_eq}
use censorhub.Domain.{MatchItem}
use censorhub.Service.Filter.{Json}
use censorhub.Web.Limiter.{Buckets, PerClientLimiter}
use censorhub.Web.Reply.{page, Reply}
use censorhub.Web.Middleware.{
  HttpRequest, Headers, Context, Handler, Outcome, replied, panicked, Served, recovery,
  request_id_middleware, body_limit, cors, tracing, auth, rate_limit,
}
use censorhub.Web.Handlers.{
  Binder, Readings, Backend, handle_detect, handle_replace, handle_highlight, handle_batch_detect,
  handle_create, handle_get, handle_update, handle_delete, handle_list, handle_import,
  handle_export, liveness, readiness,
}

pub data ApiRoute : Type 0 where
  filter_detect filter_replace filter_highlight filter_batch : ApiRoute
  words_list words_create words_get words_update words_delete words_import words_export : ApiRoute

pub data Route : Type 0 where
  healthz readyz metrics : Route
  api : ApiRoute → Route

-- The routes with their methods and patterns.
abbrev routes : List (Text × Text × Route)
routes =
    (runes "GET", runes "/healthz", healthz)
    ∷ (runes "GET", runes "/readyz", readyz)
    ∷ (runes "GET", runes "/metrics", metrics)
    ∷ (runes "POST", runes "/api/v1/filter/detect", api filter_detect)
    ∷ (runes "POST", runes "/api/v1/filter/replace", api filter_replace)
    ∷ (runes "POST", runes "/api/v1/filter/highlight", api filter_highlight)
    ∷ (runes "POST", runes "/api/v1/filter/batch", api filter_batch)
    ∷ (runes "GET", runes "/api/v1/words", api words_list)
    ∷ (runes "POST", runes "/api/v1/words", api words_create)
    ∷ (runes "GET", runes "/api/v1/words/:id", api words_get)
    ∷ (runes "PUT", runes "/api/v1/words/:id", api words_update)
    ∷ (runes "DELETE", runes "/api/v1/words/:id", api words_delete)
    ∷ (runes "POST", runes "/api/v1/words/import", api words_import)
    ∷ (runes "GET", runes "/api/v1/words/export", api words_export)
    ∷ []

find_in : Text → Text → List (Text × Text × Route) → Option Route
unfolding text_eq
find_in method path [] = none
find_in method path ((m, p, route) ∷ rs) =
    let rest = find_in method path rs in
    if text_eq m method && text_eq p path then some route else rest

unfoldable pub find_route : HttpRequest → Option Route
unfolding find_in
find_route req = find_in req.method req.full_path routes

-- The settings of the middlewares.
pub record Settings : Type 0 where
  pub api_keys : List Text
  pub allowed_origins : List Text
  pub max_body_size : ℕ

-- What one request draws and reads outside the handlers: the identifier, the span, the time at which
-- its bucket is asked, and the exposition of the metrics.
pub record Arrival : Type 0 where
  pub generated_id : Text
  pub span : Option Text
  pub asked : ℕ
  pub exposition : Text
  pub readings : Readings

-- A handler of the services under the limiters.
unfoldable pub keeping : {L : Type 0} → Handler Backend → Handler (Backend × PerClientLimiter L)
keeping next c (s, limiters) = elim (next c s) [
  | replied hs r s' ↦ replied hs r (s', limiters)
  | panicked hs ↦ panicked hs
]

module _ (binder : Binder) (sort : List MatchItem → List MatchItem) (u : Unicode) (json : Json)
    (same like : Text → Text → Bool) where
  unfoldable pub handle_api : Readings → ApiRoute → Handler Backend
  unfolding handle_detect handle_replace handle_highlight handle_batch_detect handle_create
      handle_get handle_update handle_delete handle_list handle_import handle_export
  handle_api now filter_detect = handle_detect binder sort u json now
  handle_api now filter_replace = handle_replace binder sort u json now
  handle_api now filter_highlight = handle_highlight binder sort u json now
  handle_api now filter_batch = handle_batch_detect binder sort u json now
  handle_api now words_list = handle_list binder same like now
  handle_api now words_create = handle_create binder same u now
  handle_api now words_get = handle_get binder now
  handle_api now words_update = handle_update binder same u now
  handle_api now words_delete = handle_delete binder now
  handle_api now words_import = handle_import binder same u now
  handle_api now words_export = handle_export u now

  module _ {L : Type 0} (buckets : Buckets L) (settings : Settings) where
    unfoldable pub handle_route : Arrival → Option Route → Handler (Backend × PerClientLimiter L)
    unfolding handle_api rate_limit auth keeping liveness readiness
    handle_route arrival none c s =
        replied [] (record { status = 404; body = page (runes "404 page not found") }) s
    handle_route arrival (some healthz) c s = keeping liveness c s
    handle_route arrival (some readyz) c s = keeping (readiness arrival.readings) c s
    handle_route arrival (some metrics) c s =
        replied [] (record { status = 200; body = page arrival.exposition }) s
    handle_route arrival (some (api route)) c s =
        rate_limit buckets arrival.asked
          (auth settings.api_keys (keeping (handle_api arrival.readings route))) c s

    unfoldable pub serve_http :
        Arrival → HttpRequest → Backend × PerClientLimiter L → Served (Backend × PerClientLimiter L)
    unfolding handle_route find_route recovery request_id_middleware body_limit cors tracing
    serve_http arrival req s =
        recovery
          (request_id_middleware arrival.generated_id (
            body_limit settings.max_body_size (
              cors settings.allowed_origins
                (tracing arrival.span (handle_route arrival (find_route req))))))
          (record { request = req; trace_id = []; limit = none }) s

    -- gin's redirect, where it has one, is the whole answer, and no middleware sees the request.
    unfoldable pub dispatch_http :
        Option (Headers × Reply)
        → Arrival
        → HttpRequest
        → Backend × PerClientLimiter L
        → Served (Backend × PerClientLimiter L)
    unfolding serve_http
    dispatch_http redirect arrival req s = elim redirect [
      | none ↦ serve_http arrival req s
      | some (hs, r) ↦ record { headers = hs; reply = r; state = some s }
    ]
