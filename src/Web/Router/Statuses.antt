-- ===== src/Web/Router/Statuses.antt =====
-- The codes and statuses of all replies, and the table of words behind the errors.
use censorhub.Web.Handlers.Statuses.{
  IsConsistentBody, Sound, table_of, filter_reply-Sound, handle_batch_detect-Sound,
  handle_create-Sound, handle_import-Sound, with_id-Sound, handle_get-Sound, handle_delete-Sound,
  update_by_id-Sound, handle_list-Sound,
}
use censorhub.Prelude.{
  ◌≡◌, refl, Bool, true, ◌||◌, ◌⊎◌, Option, none, some, List, [], ltb, is_empty, Bool-cases, inl,
  inr, if◌then◌else◌,
}
use censorhub.Text.{Text, Unicode}
use censorhub.Domain.{MatchItem}
use censorhub.Service.Filter.{Json, detect_text, replace_text, highlight_text}
use censorhub.Words.Table.{WordTable}
use censorhub.Web.Limiter.{Buckets, PerClientLimiter, allow_client}
use censorhub.Web.Middleware.{
  HttpRequest, Context, Headers, Handler, Outcome, replied, panicked, Served, with_headers,
  contains_text, abort_with, recovery, auth, rate_limit,
}
use censorhub.Web.Handlers.{
  update_by_id, handle_detect, handle_replace, handle_highlight, handle_export, liveness, Binder,
  Readings, Backend, handle_update, readiness, not_ready,
}
use censorhub.Web.Router.{
  ApiRoute, filter_detect, filter_replace, filter_highlight, filter_batch, words_list, words_create,
  words_get, words_update, words_delete, words_import, words_export, Route, healthz, readyz,
  metrics, api, find_route, Settings, Arrival, handle_api, handle_route, serve_http, keeping,
}
use censorhub.Web.Router.Chain.{global_chain, global_chain-keeps}

-- What a request did: the reply is consistent, and the table is the old one or the status is below 400.
pub record IsSound {L : Type 0} (t : WordTable) (r : Served (Backend × PerClientLimiter L))
    : Type 0 where
  pub consistent : IsConsistentBody r.reply.status r.reply.body
  pub kept : elim r.state as (λ x. Type 0) [
    | none ↦ r.reply.status ≡ 500
    | some s ↦ (s.0.table ≡ t) ⊎ (ltb r.reply.status 400 ≡ true)
  ]

readiness-Sound :
    (now : Readings) (c : Context) (s : Backend) → Sound table_of s.table (readiness now c s)
unfolding readiness not_ready
readiness-Sound now c s = elim (Bool-cases now.connection) [
  | inr a ↦ rw (readiness, a) (tt, inl refl)
  | inl a ↦ elim (Bool-cases now.database_ping) [
    | inr b ↦ rw (readiness, a, b) (tt, inl refl)
    | inl b ↦ elim (Bool-cases now.redis_ping) [
      | inr d ↦ rw (readiness, a, b, d) (tt, inl refl)
      | inl d ↦ rw (readiness, a, b, d) (tt, inl refl)
    ]
  ]
]

module _ (binder : Binder) (sort : List MatchItem → List MatchItem) (u : Unicode) (json : Json)
    (same like : Text → Text → Bool) where
  handle_api-Sound :
      (now : Readings) (route : ApiRoute) (c : Context) (s : Backend)
      → Sound table_of s.table (handle_api binder sort u json same like now route c s)
  unfolding handle_api handle_detect handle_replace handle_highlight handle_update handle_export
  handle_api-Sound now filter_detect c s =
      filter_reply-Sound binder sort u json same like (detect_text sort u json) now c s
  handle_api-Sound now filter_replace c s =
      filter_reply-Sound binder sort u json same like (replace_text sort u json) now c s
  handle_api-Sound now filter_highlight c s =
      filter_reply-Sound binder sort u json same like (highlight_text sort u json) now c s
  handle_api-Sound now filter_batch c s =
      handle_batch_detect-Sound binder sort u json same like now c s
  handle_api-Sound now words_list c s = handle_list-Sound binder sort u json same like now c s
  handle_api-Sound now words_create c s = handle_create-Sound binder sort u json same like now c s
  handle_api-Sound now words_get c s = handle_get-Sound binder sort u json same like now c s
  handle_api-Sound now words_update c s =
      with_id-Sound binder sort u json same like (update_by_id binder same u now) c s
        (λ id. update_by_id-Sound binder sort u json same like now id c s)
  handle_api-Sound now words_delete c s = handle_delete-Sound binder sort u json same like now c s
  handle_api-Sound now words_import c s = handle_import-Sound binder sort u json same like now c s
  handle_api-Sound now words_export c s = (tt, inl refl)

  module _ {L : Type 0} (buckets : Buckets L) (settings : Settings) where
    abbrev shared_table : Backend × PerClientLimiter L → WordTable
    shared_table s = s.0.table

    Sound-with_headers :
        (t : WordTable) (hs : Headers) (o : Outcome (Backend × PerClientLimiter L))
        → Sound shared_table t o
        → Sound shared_table t (with_headers hs o)
    unfolding with_headers
    Sound-with_headers t hs (replied gs r s) h = h
    Sound-with_headers t hs (panicked gs) h = h

    keeping-Sound :
        (t : WordTable) (next : Handler Backend) (c : Context) (s : Backend)
        (limiters : PerClientLimiter L)
        → Sound table_of t (next c s)
        → Sound shared_table t (keeping next c (s, limiters))
    unfolding keeping
    keeping-Sound t next c s limiters h = go (next c s) refl
      where
        go :
            (o : Outcome Backend)
            → next c s ≡ o
            → Sound shared_table t (keeping next c (s, limiters))
        go (replied hs r s') e = rw (keeping, e) (rw (e) at h)
        go (panicked hs) e = rw (keeping, e) tt

    handle_route-Sound :
        (arrival : Arrival) (route : Option Route) (c : Context) (s : Backend)
        (limiters : PerClientLimiter L)
        → Sound shared_table s.table (
            handle_route binder sort u json same like buckets settings arrival route c
              (s, limiters))
    unfolding handle_route rate_limit auth liveness
    handle_route-Sound arrival none c s limiters = (tt, inl refl)
    handle_route-Sound arrival (some metrics) c s limiters = (tt, inl refl)
    handle_route-Sound arrival (some healthz) c s limiters =
        keeping-Sound s.table liveness c s limiters (tt, inl refl)
    handle_route-Sound arrival (some readyz) c s limiters =
        keeping-Sound s.table (readiness arrival.readings) c s limiters
          (readiness-Sound arrival.readings c s)
    handle_route-Sound arrival (some (api route)) c s limiters =
        let key = if is_empty c.request.api_key then c.request.client_ip else c.request.api_key in
        let behind =
          keeping-Sound s.table (handle_api binder sort u json same like arrival.readings route) c s
            (allow_client buckets arrival.asked key limiters).1
            (handle_api-Sound arrival.readings route c s) in
        elim (Bool-cases (allow_client buckets arrival.asked key limiters).0) [
          | inr n ↦ rw (handle_route, rate_limit, n) (refl, inl refl)
          | inl y ↦
              elim (Bool-cases
                (is_empty settings.api_keys || contains_text c.request.api_key settings.api_keys)) [
                  | inl known ↦ rw (handle_route, rate_limit, y, auth, known) behind
                  | inr unknown ↦ rw (handle_route, rate_limit, y, auth, unknown) (refl, inl refl)
                ]
        ]

    recovery-IsSound :
        (t : WordTable) (next : Handler (Backend × PerClientLimiter L)) (c : Context)
        (s : Backend × PerClientLimiter L)
        → Sound shared_table t (next c s)
        → IsSound t (recovery next c s)
    unfolding recovery abort_with
    recovery-IsSound t next c s h = go (next c s) refl
      where
        go :
            (o : Outcome (Backend × PerClientLimiter L))
            → next c s ≡ o
            → IsSound t (recovery next c s)
        go (replied hs r s') e =
            let (fits, same_table) = rw (e) at h in
            rw (recovery, e) (record { consistent = fits; kept = same_table })
        go (panicked hs) e = rw (recovery, e) (record { consistent = refl; kept = refl })

    -- Every request is answered, and where the answer has a code it is 0 exactly for a status below
    -- 400; a request that is answered with another status leaves the table of words as it was, but
    -- for a panic, which is answered with the status 500.
    pub serve_http-IsSound :
        (arrival : Arrival) (req : HttpRequest) (s : Backend) (limiters : PerClientLimiter L)
        → IsSound s.table
            (serve_http binder sort u json same like buckets settings arrival req (s, limiters))
    unfolding serve_http
    serve_http-IsSound arrival req s limiters =
        let route =
          handle_route binder sort u json same like buckets settings arrival (find_route req) in
        let c : Context = record { request = req; trace_id = []; limit = none } in
        recovery-IsSound s.table
          (global_chain arrival.generated_id settings.max_body_size settings.allowed_origins
            arrival.span route)
          c (s, limiters)
          (global_chain-keeps (Sound shared_table s.table) (Sound-with_headers s.table)
            arrival.generated_id settings.max_body_size settings.allowed_origins arrival.span route
            c (s, limiters) (tt, inl refl) (tt, inl refl)
            (λ id limit.
              handle_route-Sound arrival (find_route req)
                (record { request = req; trace_id = id; limit = limit }) s limiters))
