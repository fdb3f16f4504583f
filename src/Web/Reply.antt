-- ===== src/Web/Reply.antt =====
-- internal/interfaces/http/response/response.go. A reply is a status with a body.
use censorhub.Prelude.{ℕ, Option, none, some}
use censorhub.Text.{Text, runes}
use censorhub.Service.Filter.{FilterResponse}
use censorhub.Service.Batch.{BatchFilterResponse}
use censorhub.Words.Manage.{WordResponse, ImportResponse}
use censorhub.Words.Listing.{WordListResponse}
use censorhub.Web.Errors.{GoError, is_biz_error, err_internal, err_invalid_request}

-- The `Data` of a response, for every operation.
pub data Payload : Type 0 where
  no_data : Payload
  filtered : FilterResponse → Payload
  batch : BatchFilterResponse → Payload
  word : WordResponse → Payload
  words : WordListResponse → Payload
  imported : ImportResponse → Payload

pub record Response : Type 0 where
  pub code : ℕ
  pub message : Text
  pub payload : Payload
  pub trace_id : Text

-- The common form, that of the probes (status, error and number of words), or another.
pub data Body : Type 0 where
  no_body : Body
  envelope : Response → Body
  health : Text → Text → Option ℕ → Body
  page : Text → Body

pub record Reply : Type 0 where
  pub status : ℕ
  pub body : Body

unfoldable pub respond : ℕ → Response → Reply
respond status r = record { status = status; body = envelope r }

unfoldable pub success : Text → Payload → Reply
unfolding respond
success trace_id data_sent =
    respond 200
      (record { code = 0; message = runes "ok"; payload = data_sent; trace_id = trace_id })

unfoldable pub error_reply : Text → GoError → Reply
unfolding respond is_biz_error err_internal
error_reply trace_id err = elim (is_biz_error err) [
  | some e ↦
      respond e.http_status
        (record { code = e.code; message = e.message; payload = no_data; trace_id = trace_id })
  | none ↦ respond 500 (record {
    code = err_internal.code;
    message = runes "internal server error";
    payload = no_data;
    trace_id = trace_id;
  })
]

unfoldable pub bad_request : Text → Text → Reply
unfolding respond err_invalid_request
bad_request trace_id message = respond 400 (record {
  code = err_invalid_request.code;
  message = message;
  payload = no_data;
  trace_id = trace_id;
})
