-- ===== src/Web/Observe.antt =====
-- The logger and the metrics of internal/interfaces/middleware, which keep what they observe beside
-- the state, and the whole chain of internal/interfaces/http/router.go with them. The durations and
-- the sizes are left out; a status stands for its label.
pub mod Seen
pub mod Laws
use censorhub.Prelude.{ℕ, Bool, Option, none, some, List, [], ◌∷◌, leb, if◌then◌else◌, is_empty}
use censorhub.Text.{Text, Unicode, runes}
use censorhub.Domain.{MatchItem}
use censorhub.Service.Filter.{Json}
use censorhub.Web.Limiter.{Buckets, PerClientLimiter}
use censorhub.Web.Reply.{Reply}
use censorhub.Web.Middleware.{
  HttpRequest, Headers, Context, Handler, replied, panicked, Served, recovery,
  request_id_middleware, body_limit, cors, tracing,
}
use censorhub.Web.Handlers.{Binder, Backend}
use censorhub.Web.Router.{find_route, Settings, Arrival, handle_route}

pub data LogLevel : Type 0 where
  info warn error : LogLevel

pub record AccessLine : Type 0 where
  pub level : LogLevel
  pub status : ℕ
  pub method : Text
  pub path : Text
  pub query : Text
  pub ip : Text
  pub request_id : Text

-- An increment of the counter of requests, and a line of the log.
pub data Observation : Type 0 where
  counted : Text → Text → ℕ → Observation
  logged : AccessLine → Observation

unfoldable pub access_level : ℕ → LogLevel
access_level status = if leb 500 status then error else if leb 400 status then warn else info

-- The line is written before tracing gives the context another identifier.
unfoldable pub access_line : Context → Reply → Observation
unfolding access_level
access_line c r = logged (record {
  level = access_level r.status;
  status = r.status;
  method = c.request.method;
  path = c.request.url_path;
  query = c.request.query;
  ip = c.request.client_ip;
  request_id = c.trace_id;
})

unfoldable pub request_count : Context → Reply → Observation
request_count c r =
    counted c.request.method
      (if is_empty c.request.full_path then runes "unknown" else c.request.full_path) r.status

module _ {S : Type 0} where
  -- A panic passes by what stands after `c.Next()`.
  unfoldable pub metrics_middleware : Handler S → Handler (S × List Observation)
  unfolding request_count
  metrics_middleware next c (s, seen) = elim (next c s) [
    | replied hs r s' ↦ replied hs r (s', request_count c r ∷ seen)
    | panicked hs ↦ panicked hs
  ]

  unfoldable pub logger_middleware : Handler (S × List Observation) → Handler (S × List Observation)
  unfolding access_line
  logger_middleware next c s = elim (next c s) [
    | replied hs r (s', seen) ↦ replied hs r (s', access_line c r ∷ seen)
    | panicked hs ↦ panicked hs
  ]

module _ (binder : Binder) (sort : List MatchItem → List MatchItem) (u : Unicode) (json : Json)
    (same like : Text → Text → Bool) {L : Type 0} (buckets : Buckets L) (settings : Settings) where
  unfoldable pub serve_observed :
      Arrival
      → HttpRequest
      → Backend × PerClientLimiter L
      → Served ((Backend × PerClientLimiter L) × List Observation)
  unfolding recovery request_id_middleware body_limit logger_middleware cors metrics_middleware
      tracing handle_route find_route
  serve_observed arrival req s =
      recovery
        (request_id_middleware arrival.generated_id (
          body_limit settings.max_body_size (
            logger_middleware (
              cors settings.allowed_origins (
                metrics_middleware (
                  tracing arrival.span (
                    handle_route binder sort u json same like buckets settings arrival
                      (find_route req))))))))
        (record { request = req; trace_id = []; limit = none }) (s, [])

  -- A request that gin redirects is seen by no middleware.
  unfoldable pub dispatch_observed :
      Option (Headers × Reply)
      → Arrival
      → HttpRequest
      → Backend × PerClientLimiter L
      → Served ((Backend × PerClientLimiter L) × List Observation)
  unfolding serve_observed
  dispatch_observed redirect arrival req s = elim redirect [
    | none ↦ serve_observed arrival req s
    | some (hs, r) ↦ record { headers = hs; reply = r; state = some (s, []) }
  ]
