-- ===== src/Web/Router/Chain.antt =====
-- What the global chain of middlewares keeps of the outcomes of the routes behind it.
use censorhub.Prelude.{
  ◌≡◌, false, ℕ, Option, none, some, List, [], ◌∷◌, ◌||◌, Bool-cases, inl, inr, if◌then◌else◌,
  is_empty,
}
use censorhub.Text.{Text, runes, text_eq}
use censorhub.Web.Reply.{no_body}
use censorhub.Web.Middleware.{
  cors_headers, origin_headers, Context, Headers, Handler, Outcome, replied, with_headers,
  contains_text, request_id_middleware, body_limit, cors, tracing,
}

-- The chain without the recovery.
abbrev pub global_chain : {S : Type 0} → Text → ℕ → List Text → Option Text → Handler S → Handler S
global_chain generated max_bytes origins span next =
    request_id_middleware generated (body_limit max_bytes (cors origins (tracing span next)))

module _ {S : Type 0} (P : Outcome S → Type 0)
    (stable : (hs : Headers) (o : Outcome S) → P o → P (with_headers hs o)) where
  tracing-keeps :
      (span : Option Text) (next : Handler S) (c : Context) (s : S)
      → ((id : Text) → P (next (record c { trace_id = id }) s))
      → P (tracing span next c s)
  unfolding tracing
  tracing-keeps none next c s h = h c.trace_id
  tracing-keeps (some id) next c s h =
      stable ((runes "X-Trace-ID", id) ∷ []) (next (record c { trace_id = id }) s) (h id)

  wrapped :
      (origins : List Text) (c : Context) (o : Outcome S)
      → P o
      → P (
          with_headers
            (origin_headers (contains_text (runes "*") origins) c.request.origin)
            (with_headers cors_headers o))
  wrapped origins c o h =
      stable (origin_headers (contains_text (runes "*") origins) c.request.origin)
        (with_headers cors_headers o) (stable cors_headers o h)

  -- No preflight: the next handler runs.
  cors-passes :
      (origins : List Text) (next : Handler S) (c : Context) (s : S)
      → text_eq c.request.method (runes "OPTIONS") ≡ false
      → P (next c s)
      → P (cors origins next c s)
  unfolding cors
  cors-passes origins next c s pre h =
      elim (Bool-cases
        (contains_text (runes "*") origins || contains_text c.request.origin origins)) [
          | inl y ↦ rw (cors, y, pre) (wrapped origins c (next c s) h)
          | inr n ↦ rw (cors, n, pre) h
        ]

  cors-keeps :
      (origins : List Text) (next : Handler S) (c : Context) (s : S)
      → P (replied [] (record { status = 204; body = no_body }) s)
      → P (replied [] (record { status = 403; body = no_body }) s)
      → P (next c s)
      → P (cors origins next c s)
  unfolding cors
  cors-keeps origins next c s accepted refused h =
      elim (Bool-cases (text_eq c.request.method (runes "OPTIONS"))) [
        | inl pre ↦
            elim (Bool-cases
              (contains_text (runes "*") origins || contains_text c.request.origin origins)) [
                | inl y ↦
                    rw (cors, y, pre)
                      (wrapped origins c (replied [] (record { status = 204; body = no_body }) s)
                        accepted)
                | inr n ↦ rw (cors, n, pre) refused
              ]
        | inr pre ↦ cors-passes origins next c s pre h
      ]

  pub global_chain-keeps :
      (generated : Text) (max_bytes : ℕ) (origins : List Text) (span : Option Text)
      (next : Handler S) (c : Context) (s : S)
      → P (replied [] (record { status = 204; body = no_body }) s)
      → P (replied [] (record { status = 403; body = no_body }) s)
      → ((id : Text) (limit : Option ℕ)
          → P (next (record { request = c.request; trace_id = id; limit = limit }) s))
      → P (global_chain generated max_bytes origins span next c s)
  unfolding request_id_middleware body_limit
  global_chain-keeps generated max_bytes origins span next c s accepted refused h =
      let id = if is_empty c.request.request_id then generated else c.request.request_id in
      let c' : Context = record { request = c.request; trace_id = id; limit = some max_bytes } in
      stable ((runes "X-Request-ID", id) ∷ []) (cors origins (tracing span next) c' s) (
        cors-keeps origins (tracing span next) c' s accepted refused
          (tracing-keeps span next c' s (λ i. h i (some max_bytes))))

  pub global_chain-passes :
      (generated : Text) (max_bytes : ℕ) (origins : List Text) (span : Option Text)
      (next : Handler S) (c : Context) (s : S)
      → text_eq c.request.method (runes "OPTIONS") ≡ false
      → ((id : Text)
          → P (next (record { request = c.request; trace_id = id; limit = some max_bytes }) s))
      → P (global_chain generated max_bytes origins span next c s)
  unfolding request_id_middleware body_limit
  global_chain-passes generated max_bytes origins span next c s pre h =
      let id = if is_empty c.request.request_id then generated else c.request.request_id in
      let c' : Context = record { request = c.request; trace_id = id; limit = some max_bytes } in
      stable ((runes "X-Request-ID", id) ∷ []) (cors origins (tracing span next) c' s)
        (cors-passes origins (tracing span next) c' s pre (tracing-keeps span next c' s h))
