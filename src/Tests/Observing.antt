-- ===== src/Tests/Observing.antt =====
-- A request that is served with the logger and the metrics.
use censorhub.Prelude.{◌≡◌, refl, none, some, [], ◌∷◌}
use censorhub.Text.{runes, text_eq}
use censorhub.Web.Router.{dispatch_http}
use censorhub.Web.Reply.{no_body, Reply}
use censorhub.Web.Middleware.{HttpRequest, Headers}
use censorhub.Web.Observe.{counted, logged, error, dispatch_observed}
use censorhub.Web.Observe.Seen.{with_seen}
use censorhub.Web.Observe.Laws.{
  seen_of, seen_at, identifier, IsIdentified, dispatch_observed-dispatch_http,
}
use censorhub.Tests.Inputs.{ascii, sort_by_position}
use censorhub.Tests.Serving.{json}
use censorhub.Tests.Managing.{like_any}
use censorhub.Tests.Requesting.{binder, counting, settings, arrival, post_word, backend, fresh}

-- What is seen of a reply with the status 503.
seen_503 :
    seen_of (runes "0a") (post_word []) 9 (record { status = 503; body = no_body })
    ≡ logged (record {
      level = error;
      status = 503;
      method = runes "POST";
      path = runes "/api/v1/words";
      query = [];
      ip = runes "::1";
      request_id = runes "0a";
    })
      ∷ counted (runes "POST") (runes "/api/v1/words") 503
      ∷ []
unfolding seen_of identifier text_eq
seen_503 = refl

abbrev asked : HttpRequest
asked = post_word (runes "k")

-- A redirect to the path with a slash less.
abbrev moved : Headers × Reply
moved = ((runes "Location", runes "/healthz") ∷ [], record { status = 301; body = no_body })

redirected :
    dispatch_observed binder sort_by_position ascii json text_eq like_any counting settings
      (some moved)
      arrival
      asked
      (backend, fresh)
    ≡ record { headers = moved.0; reply = moved.1; state = some ((backend, fresh), []) }
unfolding dispatch_observed
redirected = refl

dispatch_observed-dispatch_http_example :
    (dispatch_observed binder sort_by_position ascii json text_eq like_any counting settings none
        arrival asked
        (backend, fresh)
      ≡ with_seen
          (seen_at binder sort_by_position ascii json text_eq like_any counting settings none
            arrival asked)
          (dispatch_http binder sort_by_position ascii json text_eq like_any counting settings none
            arrival asked
            (backend, fresh)))
    × IsIdentified none
        (identifier arrival.generated_id asked)
        (dispatch_http binder sort_by_position ascii json text_eq like_any counting settings none
          arrival asked
          (backend, fresh)).headers
dispatch_observed-dispatch_http_example =
    dispatch_observed-dispatch_http binder sort_by_position ascii json text_eq like_any counting
      settings none arrival asked (backend, fresh)
