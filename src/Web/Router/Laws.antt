-- ===== src/Web/Router/Laws.antt =====
-- What the server promises about every request.
use censorhub.Prelude.{
  ℕ, ◌≡◌, refl, Bool, true, false, ◌||◌, none, some, List, [], ◌==◌, is_empty, if◌then◌else◌,
  Bool-cases, inl, inr,
}
use censorhub.Text.{Text, Unicode}
use censorhub.Domain.{MatchItem}
use censorhub.Service.Filter.{Json}
use censorhub.Web.Limiter.{Buckets, PerClientLimiter, allow_client}
use censorhub.Web.Middleware.{
  HttpRequest, Context, Headers, Outcome, replied, panicked, Served, with_headers, contains_text,
  recovery, auth, rate_limit,
}
use censorhub.Web.Handlers.{Binder, Backend}
use censorhub.Web.Router.{ApiRoute, api, find_route, Settings, Arrival, handle_route, serve_http}
use censorhub.Web.Router.Chain.{global_chain, global_chain-keeps}

-- Unauthorized, over the limit, or an answer to a preflight.
abbrev is_refusal : ℕ → Bool
is_refusal status = status == 401 || status == 429 || status == 403 || status == 204

-- A refusal that leaves the services as they are.
pub record IsRefusal {L : Type 0} (s : Backend) (r : Served (Backend × PerClientLimiter L))
    : Type 0 where
  pub refused : is_refusal r.reply.status ≡ true
  pub limiters : PerClientLimiter L
  pub kept : r.state ≡ some (s, limiters)

Refuses : {L : Type 0} → Backend → Outcome (Backend × PerClientLimiter L) → Type 0
Refuses s (replied hs r (s', ls)) = (is_refusal r.status ≡ true) × (s' ≡ s)
Refuses s (panicked hs) = ⊥

module _ (binder : Binder) (sort : List MatchItem → List MatchItem) (u : Unicode) (json : Json)
    (same like : Text → Text → Bool) {L : Type 0} (buckets : Buckets L) (settings : Settings) where
  Refuses-with_headers :
      (s : Backend) (hs : Headers) (o : Outcome (Backend × PerClientLimiter L))
      → Refuses s o
      → Refuses s (with_headers hs o)
  unfolding Refuses with_headers
  Refuses-with_headers s hs (replied gs r (s', ls)) h = h
  Refuses-with_headers s hs (panicked gs) h = h

  handle_route-Refuses :
      (arrival : Arrival) (route : ApiRoute) (c : Context) (s : Backend)
      (limiters : PerClientLimiter L)
      → is_empty settings.api_keys ≡ false
      → contains_text c.request.api_key settings.api_keys ≡ false
      → Refuses s (
          handle_route binder sort u json same like buckets settings arrival
            (some (api route))
            c
            (s, limiters))
  unfolding handle_route rate_limit auth Refuses
  handle_route-Refuses arrival route c s limiters keyed unknown =
      let key = if is_empty c.request.api_key then c.request.client_ip else c.request.api_key in
      elim (Bool-cases (allow_client buckets arrival.asked key limiters).0) [
        | inl y ↦ rw (handle_route, rate_limit, y, keyed, unknown) (refl, refl)
        | inr n ↦ rw (handle_route, rate_limit, n) (refl, refl)
      ]

  recovery-IsRefusal :
      (s : Backend) (o : Outcome (Backend × PerClientLimiter L)) (c : Context)
      (limiters : PerClientLimiter L)
      → Refuses s o
      → IsRefusal s (recovery (λ c' s'. o) c (s, limiters))
  unfolding recovery Refuses
  recovery-IsRefusal s (replied hs r (s', ls)) c limiters (refused, kept) = record {
    refused = refused;
    limiters = ls;
    kept = rw (kept) refl;
  }
  recovery-IsRefusal s (panicked hs) c limiters h = absurd h

  -- Where keys are configured, a request for the interface whose key is not one of them is refused,
  -- with the status 401, 429, 403 or 204, and changes neither the words nor the filter service.
  pub serve_http-unauthorized :
      (arrival : Arrival) (req : HttpRequest) (route : ApiRoute) (s : Backend)
      (limiters : PerClientLimiter L)
      → find_route req ≡ some (api route)
      → is_empty settings.api_keys ≡ false
      → contains_text req.api_key settings.api_keys ≡ false
      → IsRefusal s
          (serve_http binder sort u json same like buckets settings arrival req (s, limiters))
  unfolding serve_http recovery Refuses
  serve_http-unauthorized arrival req route s limiters found keyed unknown =
      rw (serve_http, found)
        (recovery-IsRefusal s
          (global_chain arrival.generated_id settings.max_body_size settings.allowed_origins
            arrival.span
            (handle_route binder sort u json same like buckets settings arrival (some (api route)))
            (record { request = req; trace_id = []; limit = none }) (s, limiters))
          (record { request = req; trace_id = []; limit = none }) limiters
          (global_chain-keeps (Refuses s) (Refuses-with_headers s) arrival.generated_id
            settings.max_body_size settings.allowed_origins arrival.span
            (handle_route binder sort u json same like buckets settings arrival (some (api route)))
            (record { request = req; trace_id = []; limit = none }) (s, limiters) (refl, refl)
            (refl, refl)
            (λ id limit.
              handle_route-Refuses arrival route
                (record { request = req; trace_id = id; limit = limit }) s limiters keyed unknown)))
