-- ===== src/Web/Handlers.antt =====
-- internal/interfaces/http/handler: the handlers of texts, words and probes. The decoding and the
-- checks of gin's `ShouldBindJSON` and `ShouldBindQuery` are a parameter, with the messages of their
-- errors; what the clock, the database and Redis show in a request are its `Readings`.
pub mod Statuses
use censorhub.Prelude.{
  ℕ, ◌+◌, ◌-◌, ◌*◌, ◌^◌, pos, eqℤ, Bool, ◌&&◌, not, Option, none, some, List, [], ◌∷◌,
  if◌then◌else◌, length, leb, ltb, take, false,
}
use censorhub.Text.{Text, Unicode, runes}
use censorhub.Domain.{MatchItem}
use censorhub.Engine.{engine_word_count}
use censorhub.Service.Filter.{
  FilterRequest, FilterResponse, Timing, FilterAppService, Json, detect_text, replace_text,
  highlight_text,
}
use censorhub.Service.Batch.{BatchFilterRequest, Turn, batch_detect}
use censorhub.Words.Table.{WordTable}
use censorhub.Words.Manage.{
  Db, Result, ok, failed, CreateWordRequest, UpdateWordRequest, create_word, update_word,
  delete_word, get_word, import_words, WordResponse,
}
use censorhub.Words.Export.{BatchTurn, export_to_writer}
use censorhub.Words.Listing.{WordListRequest, list_words}
use censorhub.Web.Errors.{other, service_error}
use censorhub.Web.Reply.{
  no_data, filtered, batch, word, words, imported, health, page, Reply, respond, success,
  error_reply, bad_request,
}
use censorhub.Web.Middleware.{Context, Handler, replied, panicked}

-- A request that was bound, or the message of the error.
pub data Bound (A : Type 0) : Type 0 where
  bound : A → Bound A
  unbound : Text → Bound A

-- What gin supplies, by the query or by the bytes of the body that can be read and whether the reading
-- fails after them, and the messages of strconv.
pub record Binder : Type 0 where
  pub filter_request : List ℕ → Bool → Bound FilterRequest
  pub batch_request : List ℕ → Bool → Bound BatchFilterRequest
  pub create_request : List ℕ → Bool → Bound CreateWordRequest
  pub update_request : List ℕ → Bool → Bound UpdateWordRequest
  pub list_request : Text → Bound WordListRequest
  pub import_request : List ℕ → Bool → Bound (List CreateWordRequest)
  pub number_message : Text → Text

pub record Readings : Type 0 where
  pub timing : Timing
  pub turns : List Turn
  pub cancelled : Bool
  pub db : Db
  pub now : ℕ
  pub detail : Text  -- the message of an error of the database
  pub connection : Bool  -- `h.db.DB()`
  pub database_ping : Bool
  pub redis_ping : Bool
  pub batches : List BatchTurn
  pub flushed : Bool  -- of the last flush of an export
  pub spilled : ℕ

-- The filter service and the table of words, which the word service changes.
pub record Backend : Type 0 where
  pub filter : FilterAppService
  pub table : WordTable

-- `http.MaxBytesReader`: the bytes up to the limit, and whether the body is longer, so that a reading
-- beyond them fails.
unfoldable pub bind_body : {A : Type 0} → (List ℕ → Bool → Bound A) → Context → Bound A
bind_body decode c = elim c.limit [
  | none ↦ decode c.request.body false
  | some n ↦ decode (take n c.request.body) (ltb n (length c.request.body))
]

-- `strconv.ParseUint(s, 10, 64)`, without the message.
unfoldable pub parse_digits : Text → ℕ → Option ℕ
parse_digits [] n = some n
parse_digits (r ∷ rs) n =
    let rest = parse_digits rs (n * 10 + (r - 0x30)) in
    if leb 0x30 r && leb r 0x39 && ltb (n * 10 + (r - 0x30)) (2 ^ 64) then rest else none

unfoldable pub parse_uint : Text → Option ℕ
unfolding parse_digits
parse_uint [] = none
parse_uint (r ∷ rs) = parse_digits (r ∷ rs) 0

module _ (binder : Binder) where
  -- The handlers of a text: `Filter` never returns an error, and a panic goes on.
  unfoldable pub filter_reply :
      (Timing → FilterRequest → FilterAppService → Option (FilterResponse × FilterAppService))
      → Readings
      → Handler Backend
  unfolding bind_body success bad_request
  filter_reply call now c s = elim (bind_body binder.filter_request c) [
    | unbound message ↦ replied [] (bad_request c.trace_id message) s
    | bound req ↦ elim (call now.timing req s.filter) [
      | none ↦ panicked []
      | some (resp, filter') ↦
          replied [] (success c.trace_id (filtered resp)) (record s { filter = filter' })
    ]
  ]

module _ (binder : Binder) (sort : List MatchItem → List MatchItem) (u : Unicode)
    (json : Json) where
  unfoldable pub handle_detect : Readings → Handler Backend
  unfolding filter_reply detect_text
  handle_detect = filter_reply binder (detect_text sort u json)

  unfoldable pub handle_replace : Readings → Handler Backend
  unfolding filter_reply replace_text
  handle_replace = filter_reply binder (replace_text sort u json)

  unfoldable pub handle_highlight : Readings → Handler Backend
  unfolding filter_reply highlight_text
  handle_highlight = filter_reply binder (highlight_text sort u json)

  unfoldable pub handle_batch_detect : Readings → Handler Backend
  unfolding bind_body success bad_request error_reply batch_detect
  handle_batch_detect now c s = elim (bind_body binder.batch_request c) [
    | unbound message ↦ replied [] (bad_request c.trace_id message) s
    | bound req ↦ elim (batch_detect sort u json now.turns now.cancelled req s.filter) [
      | none ↦ panicked []
      | some (result, filter') ↦
          replied []
            (elim result [
              | none ↦ error_reply c.trace_id (other now.detail)
              | some resp ↦ success c.trace_id (batch resp)
            ])
            (record s { filter = filter' })
    ]
  ]

-- A reply to the result of the word service.
unfoldable pub result_reply : {A : Type 0} → Text → Text → (A → Reply) → Result A → Reply
unfolding error_reply service_error
result_reply detail trace_id show (failed e) = error_reply trace_id (service_error detail e)
result_reply detail trace_id show (ok a) = show a

unfoldable pub created : WordResponse → Reply
unfolding respond
created w =
    respond 201 (record { code = 0; message = runes "created"; payload = word w; trace_id = [] })

-- `Get` and `Delete` with the identifier of the path.
unfoldable pub get_by_id : Readings → ℕ → Handler Backend
unfolding result_reply success get_word
get_by_id now id c s =
    replied []
      (result_reply now.detail c.trace_id (λ w. success c.trace_id (word w))
        (get_word now.db id s.table))
      s

unfoldable pub delete_by_id : Readings → ℕ → Handler Backend
unfolding result_reply success delete_word
delete_by_id now id c s =
    let (result, table') = delete_word now.db id s.table in
    replied [] (result_reply now.detail c.trace_id (λ done. success c.trace_id no_data) result)
      (record s { table = table' })

module _ (binder : Binder) where
  -- The handlers with an identifier in the path.
  unfoldable pub with_id : (ℕ → Handler Backend) → Handler Backend
  unfolding bad_request parse_uint
  with_id next c s = elim (parse_uint c.request.param_id) [
    | none ↦ replied [] (bad_request c.trace_id (binder.number_message c.request.param_id)) s
    | some id ↦ next id c s
  ]

  unfoldable pub handle_get : Readings → Handler Backend
  unfolding with_id get_by_id
  handle_get now = with_id (get_by_id now)

  unfoldable pub handle_delete : Readings → Handler Backend
  unfolding with_id delete_by_id
  handle_delete now = with_id (delete_by_id now)

module _ (binder : Binder) (same : Text → Text → Bool) (u : Unicode) where
  unfoldable pub handle_create : Readings → Handler Backend
  unfolding bind_body bad_request created result_reply create_word
  handle_create now c s = elim (bind_body binder.create_request c) [
    | unbound message ↦ replied [] (bad_request c.trace_id message) s
    | bound req ↦
        let (result, table') = create_word same u now.db now.now req s.table in
        replied [] (result_reply now.detail c.trace_id created result) (record s { table = table' })
  ]

  -- `Update` with the identifier of the path.
  unfoldable pub update_by_id : Readings → ℕ → Handler Backend
  unfolding bind_body bad_request result_reply success update_word
  update_by_id now id c s = elim (bind_body binder.update_request c) [
    | unbound message ↦ replied [] (bad_request c.trace_id message) s
    | bound req ↦
        let (result, table') = update_word same u now.db now.now id req s.table in
        replied [] (result_reply now.detail c.trace_id (λ w. success c.trace_id (word w)) result)
          (record s { table = table' })
  ]

  unfoldable pub handle_update : Readings → Handler Backend
  unfolding with_id update_by_id
  handle_update now = with_id binder (update_by_id now)

  unfoldable pub handle_import : Readings → Handler Backend
  unfolding bind_body bad_request result_reply success import_words
  handle_import now c s = elim (bind_body binder.import_request c) [
    | unbound message ↦ replied [] (bad_request c.trace_id message) s
    | bound req ↦
        let (result, table') = import_words same u now.db now.now req s.table in
        replied []
          (result_reply now.detail c.trace_id (λ r. success c.trace_id (imported r)) result)
          (record s { table = table' })
  ]

module _ (binder : Binder) (same like : Text → Text → Bool) where
  -- A database that does not answer the query is an error.
  unfoldable pub handle_list : Readings → Handler Backend
  unfolding bad_request error_reply success list_words
  handle_list now c s = elim (binder.list_request c.request.query) [
    | unbound message ↦ replied [] (bad_request c.trace_id message) s
    | bound req ↦
        let req' : WordListRequest = record req {
          page = if eqℤ req.page (pos 0) then pos 1 else req.page;
          page_size = if eqℤ req.page_size (pos 0) then pos 20 else req.page_size;
        } in
        replied []
          (if now.db.reads
            then success c.trace_id (words (list_words same like req' s.table.rows))
            else error_reply c.trace_id (other now.detail))
          s
  ]

-- The status is sent before the rows are read, and stands whatever becomes of them.
unfoldable pub handle_export : Unicode → Readings → Handler Backend
unfolding export_to_writer
handle_export u now c s =
    replied
      ((runes "Content-Type", runes "text/csv; charset=utf-8")
        ∷ (runes "Content-Disposition", runes "attachment; filename=sensitive_words.csv")
        ∷ [])
      (record {
        status = 200;
        body = page (export_to_writer u now.batches now.flushed now.spilled).0;
      })
      s

unfoldable pub liveness : Handler Backend
liveness c s = replied [] (record { status = 200; body = health (runes "alive") [] none }) s

unfoldable pub not_ready : Text → Reply
not_ready reason = record { status = 503; body = health (runes "not ready") reason none }

unfoldable pub readiness : Readings → Handler Backend
unfolding not_ready engine_word_count
readiness now c s =
    replied []
      (if not now.connection
        then not_ready (runes "database unavailable")
        else if not now.database_ping
        then not_ready (runes "database ping failed")
        else if not now.redis_ping
        then not_ready (runes "redis ping failed")
        else record {
          status = 200;
          body = health (runes "ready") [] (some (engine_word_count s.filter.engine));
        })
      s
