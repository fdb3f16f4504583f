-- ===== src/Web/Observe/Seen.antt =====
-- What the logger and the metrics see of an outcome, through the middlewares around them.
use censorhub.Prelude.{
  ◌≡◌, refl, sym, ap, ◌∙◌, none, some, List, ◌∷◌, ◌||◌, Bool-cases, inl, inr, if◌then◌else◌,
}
use censorhub.Text.{Text, runes, text_eq}
use censorhub.Web.Reply.{Reply}
use censorhub.Web.Middleware.{
  cors_headers, origin_headers, Context, Headers, Handler, Outcome, replied, panicked, Served,
  with_headers, contains_text, abort_with, recovery, cors,
}
use censorhub.Web.Observe.{
  Observation, access_line, request_count, metrics_middleware, logger_middleware,
}

-- An outcome with what was seen of its reply.
unfoldable pub seen_with :
    {S : Type 0} → (Reply → List Observation) → Outcome S → Outcome (S × List Observation)
seen_with f (replied hs r s) = replied hs r (s, f r)
seen_with f (panicked hs) = panicked hs

pub with_headers-seen_with :
    {S : Type 0} (f : Reply → List Observation) (hs : Headers) (o : Outcome S)
    → with_headers hs (seen_with f o) ≡ seen_with f (with_headers hs o)
unfolding with_headers seen_with
with_headers-seen_with f hs (replied gs r s) = refl
with_headers-seen_with f hs (panicked gs) = refl

module _ {S : Type 0} where
  pub metrics-seen_with :
      (next : Handler S) (c : Context) (s : S) (seen : List Observation)
      → metrics_middleware next c (s, seen) ≡ seen_with (λ r. request_count c r ∷ seen) (next c s)
  unfolding metrics_middleware seen_with
  metrics-seen_with next c s seen = go (next c s) refl
    where
      go :
          (o : Outcome S)
          → next c s ≡ o
          → metrics_middleware next c (s, seen)
            ≡ seen_with (λ r. request_count c r ∷ seen) (next c s)
      go (replied hs r s') e = rw (metrics_middleware, seen_with, e) refl
      go (panicked hs) e = rw (metrics_middleware, seen_with, e) refl

  -- The metrics do not see what CORS answers.
  pub cors-seen_with :
      (origins : List Text) (next : Handler S) (c : Context) (s : S) (seen : List Observation)
      → cors origins (metrics_middleware next) c (s, seen)
        ≡ seen_with
            (λ r.
              if text_eq c.request.method (runes "OPTIONS") then seen else request_count c r ∷ seen)
            (cors origins next c s)
  unfolding cors seen_with with_headers
  cors-seen_with origins next c s seen =
      elim (Bool-cases (text_eq c.request.method (runes "OPTIONS"))) [
        | inl pre ↦
            elim (Bool-cases
              (contains_text (runes "*") origins || contains_text c.request.origin origins)) [
                | inl y ↦ rw (cors, y, pre) refl
                | inr n ↦ rw (cors, n, pre) refl
              ]
        | inr pre ↦
            let f : Reply → List Observation = λ r. request_count c r ∷ seen in
            let origin = origin_headers (contains_text (runes "*") origins) c.request.origin in
            let inner = metrics-seen_with next c s seen in
            elim (Bool-cases
              (contains_text (runes "*") origins || contains_text c.request.origin origins)) [
                | inl y ↦
                    rw (cors, y, pre)
                      (ap (λ o. with_headers origin (with_headers cors_headers o)) inner
                        ∙ ap (with_headers origin)
                            (with_headers-seen_with f cors_headers (next c s))
                        ∙ with_headers-seen_with f origin (with_headers cors_headers (next c s)))
                | inr n ↦ rw (cors, n, pre) inner
              ]
      ]

  pub logger-seen_with :
      (f : Reply → List Observation) (next : Handler (S × List Observation)) (c : Context)
      (s : S × List Observation) (o : Outcome S)
      → next c s ≡ seen_with f o
      → logger_middleware next c s ≡ seen_with (λ r. access_line c r ∷ f r) o
  unfolding logger_middleware seen_with
  logger-seen_with f next c s (replied hs r s') e = rw (logger_middleware, e) refl
  logger-seen_with f next c s (panicked hs) e = rw (logger_middleware, e) refl

-- A request that was served without a panic, with what was seen of its reply.
unfoldable pub with_seen :
    {S : Type 0} → (Reply → List Observation) → Served S → Served (S × List Observation)
with_seen f v = record {
  headers = v.headers;
  reply = v.reply;
  state = elim v.state [ none ↦ none | some s ↦ some (s, f v.reply) ];
}

pub recovery-replied :
    {S : Type 0} (next : Handler S) (c : Context) (s : S) (hs : Headers) (r : Reply) (t : S)
    → next c s ≡ replied hs r t
    → recovery next c s ≡ record { headers = hs; reply = r; state = some t }
unfolding recovery
recovery-replied next c s hs r t h = rw (recovery, h) refl

pub recovery-panicked :
    {S : Type 0} (next : Handler S) (c : Context) (s : S) (hs : Headers)
    → next c s ≡ panicked hs
    → recovery next c s ≡ record {
      headers = hs;
      reply = abort_with 500 500 (runes "internal server error");
      state = none;
    }
unfolding recovery
recovery-panicked next c s hs h = rw (recovery, h) refl

pub recovery-seen_with :
    {S : Type 0} (f : Reply → List Observation) (next : Handler S)
    (next' : Handler (S × List Observation)) (c : Context) (s : S) (s' : S × List Observation)
    → next' c s' ≡ seen_with f (next c s)
    → recovery next' c s' ≡ with_seen f (recovery next c s)
unfolding seen_with with_seen
recovery-seen_with {S} f next next' c s s' e = go (next c s) refl
  where
    go : (o : Outcome S) → next c s ≡ o → recovery next' c s' ≡ with_seen f (recovery next c s)
    go (replied hs r t) h =
        recovery-replied next' c s' hs r (t, f r) (e ∙ ap (seen_with f) h)
        ∙ ap (with_seen f) (sym (recovery-replied next c s hs r t h))
    go (panicked hs) h =
        recovery-panicked next' c s' hs (e ∙ ap (seen_with f) h)
        ∙ ap (with_seen f) (sym (recovery-panicked next c s hs h))
