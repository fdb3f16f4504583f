-- ===== src/Web/Handlers/Statuses.antt =====
-- The codes and statuses of the replies of the handlers, and the table of words behind the errors.
use censorhub.Prelude.{
  ℕ, ◌≡◌, refl, Bool, true, ◌⊎◌, Option, none, some, List, ◌==◌, ltb, Bool-cases, Option-cases, inl,
  inr,
}
use censorhub.Text.{Text, Unicode}
use censorhub.Domain.{MatchItem}
use censorhub.Service.Filter.{Json, FilterRequest, FilterResponse, Timing, FilterAppService}
use censorhub.Service.Batch.{batch_detect}
use censorhub.Words.Table.{WordTable}
use censorhub.Words.Manage.{
  Result, ok, failed, ServiceError, word_already_exists, word_not_found, invalid_category,
  invalid_risk_level, invalid_request, import_failed, database_error, create_word, update_word,
  delete_word, get_word, import_words,
}
use censorhub.Words.Failures.{
  LeavesTable, create_word-LeavesTable, update_word-LeavesTable, delete_word-LeavesTable,
  import_words-LeavesTable,
}
use censorhub.Web.Errors.{service_error}
use censorhub.Web.Reply.{
  Reply, Body, no_body, envelope, health, page, error_reply, bad_request, success, word, no_data,
  imported,
}
use censorhub.Web.Middleware.{Context, Handler, Outcome, replied, panicked}
use censorhub.Web.Handlers.{
  created, get_by_id, delete_by_id, update_by_id, Binder, Bound, bound, unbound, Readings, Backend,
  bind_body, filter_reply, handle_batch_detect, handle_create, handle_get, handle_delete,
  handle_list, handle_import, result_reply, with_id, parse_uint,
}

-- The code of the common form is 0 exactly where the status is below 400.
abbrev pub IsConsistentBody : ℕ → Body → Type 0
IsConsistentBody status no_body = Unit
IsConsistentBody status (envelope r) = (r.code == 0) ≡ ltb status 400
IsConsistentBody status (health state reason count) = Unit
IsConsistentBody status (page text) = Unit

-- A consistent reply, after which the table is the old one or the status below 400.
abbrev pub IsSoundReply : WordTable → Reply → WordTable → Type 0
IsSoundReply t r t' = IsConsistentBody r.status r.body × ((t' ≡ t) ⊎ (ltb r.status 400 ≡ true))

abbrev pub Sound : {S : Type 0} → (S → WordTable) → WordTable → Outcome S → Type 0
Sound table t (replied hs r s) = IsSoundReply t r (table s)
Sound table t (panicked hs) = Unit

service_error-Sound :
    (t : WordTable) (detail trace_id : Text) (e : ServiceError)
    → IsSoundReply t (error_reply trace_id (service_error detail e)) t
unfolding error_reply service_error
service_error-Sound t detail trace_id word_already_exists = (refl, inl refl)
service_error-Sound t detail trace_id word_not_found = (refl, inl refl)
service_error-Sound t detail trace_id invalid_category = (refl, inl refl)
service_error-Sound t detail trace_id invalid_risk_level = (refl, inl refl)
service_error-Sound t detail trace_id (invalid_request e) = (refl, inl refl)
service_error-Sound t detail trace_id import_failed = (refl, inl refl)
service_error-Sound t detail trace_id database_error = (refl, inl refl)

result_reply-Sound :
    {A : Type 0} (t : WordTable) (detail trace_id : Text) (show : A → Reply)
    (p : Result A × WordTable)
    → ((a : A) → IsConsistentBody (show a).status (show a).body × (ltb (show a).status 400 ≡ true))
    → LeavesTable t p
    → IsSoundReply t (result_reply detail trace_id show p.0) p.1
unfolding result_reply
result_reply-Sound t detail trace_id show (failed e, t') shown h =
    rw h (service_error-Sound t detail trace_id e)
result_reply-Sound t detail trace_id show (ok a, t') shown h = ((shown a).0, inr (shown a).1)

read-LeavesTable : {A : Type 0} (t : WordTable) (r : Result A) → LeavesTable t (r, t)
read-LeavesTable t (failed e) = refl
read-LeavesTable t (ok a) = tt

Bound-cases {ℓ} :
    {A : Type 0} (P : Type ℓ) (b : Bound A)
    → ((message : Text) → b ≡ unbound message → P)
    → ((a : A) → b ≡ bound a → P)
    → P
Bound-cases P (unbound message) f g = f message refl
Bound-cases P (bound a) f g = g a refl

abbrev pub table_of : Backend → WordTable
table_of s = s.table

module _ (binder : Binder) (sort : List MatchItem → List MatchItem) (u : Unicode) (json : Json)
    (same like : Text → Text → Bool) where
  pub filter_reply-Sound :
      (call : Timing
        → FilterRequest
        → FilterAppService
        → Option (FilterResponse × FilterAppService))
      (now : Readings) (c : Context) (s : Backend)
      → Sound table_of s.table (filter_reply binder call now c s)
  unfolding filter_reply bad_request success
  filter_reply-Sound call now c s =
      Bound-cases (Sound table_of s.table (filter_reply binder call now c s))
        (bind_body binder.filter_request c) (λ message e. rw (filter_reply, e) (refl, inl refl))
        (λ req e. elim (Option-cases (call now.timing req s.filter)) [
          | inl p ↦ rw (filter_reply, e, p) tt
          | inr ((resp, filter'), r) ↦ rw (filter_reply, e, r) (refl, inl refl)
        ])

  pub handle_batch_detect-Sound :
      (now : Readings) (c : Context) (s : Backend)
      → Sound table_of s.table (handle_batch_detect binder sort u json now c s)
  unfolding handle_batch_detect bad_request success error_reply
  handle_batch_detect-Sound now c s =
      Bound-cases (Sound table_of s.table (handle_batch_detect binder sort u json now c s))
        (bind_body binder.batch_request c)
        (λ message e. rw (handle_batch_detect, e) (refl, inl refl))
        (λ req e.
          elim (Option-cases (batch_detect sort u json now.turns now.cancelled req s.filter)) [
            | inl p ↦ rw (handle_batch_detect, e, p) tt
            | inr ((none, filter'), r) ↦ rw (handle_batch_detect, e, r) (refl, inl refl)
            | inr ((some resp, filter'), r) ↦ rw (handle_batch_detect, e, r) (refl, inl refl)
          ])

  pub handle_create-Sound :
      (now : Readings) (c : Context) (s : Backend)
      → Sound table_of s.table (handle_create binder same u now c s)
  unfolding handle_create bad_request created
  handle_create-Sound now c s =
      Bound-cases (Sound table_of s.table (handle_create binder same u now c s))
        (bind_body binder.create_request c) (λ message e. rw (handle_create, e) (refl, inl refl))
        (λ req e.
          rw (handle_create, e)
            (result_reply-Sound s.table now.detail c.trace_id created
              (create_word same u now.db now.now req s.table) (λ w. (refl, refl))
              (create_word-LeavesTable same u now.db now.now req s.table)))

  pub handle_import-Sound :
      (now : Readings) (c : Context) (s : Backend)
      → Sound table_of s.table (handle_import binder same u now c s)
  unfolding handle_import bad_request success
  handle_import-Sound now c s =
      Bound-cases (Sound table_of s.table (handle_import binder same u now c s))
        (bind_body binder.import_request c) (λ message e. rw (handle_import, e) (refl, inl refl))
        (λ req e.
          rw (handle_import, e)
            (result_reply-Sound s.table now.detail c.trace_id (λ r. success c.trace_id (imported r))
              (import_words same u now.db now.now req s.table) (λ w. (refl, refl))
              (import_words-LeavesTable same u now.db now.now req s.table)))

  pub with_id-Sound :
      (next : ℕ → Handler Backend) (c : Context) (s : Backend)
      → ((id : ℕ) → Sound table_of s.table (next id c s))
      → Sound table_of s.table (with_id binder next c s)
  unfolding with_id bad_request
  with_id-Sound next c s h = elim (Option-cases (parse_uint c.request.param_id)) [
    | inl e ↦ rw (with_id, e) (refl, inl refl)
    | inr (id, e) ↦ rw (with_id, e) (h id)
  ]

  pub handle_get-Sound :
      (now : Readings) (c : Context) (s : Backend)
      → Sound table_of s.table (handle_get binder now c s)
  unfolding handle_get get_by_id success
  handle_get-Sound now c s = with_id-Sound (get_by_id now) c s (λ id.
      result_reply-Sound s.table now.detail c.trace_id (λ w. success c.trace_id (word w))
        (get_word now.db id s.table, s.table) (λ w. (refl, refl))
        (read-LeavesTable s.table (get_word now.db id s.table)))

  pub handle_delete-Sound :
      (now : Readings) (c : Context) (s : Backend)
      → Sound table_of s.table (handle_delete binder now c s)
  unfolding handle_delete delete_by_id success
  handle_delete-Sound now c s = with_id-Sound (delete_by_id now) c s (λ id.
      result_reply-Sound s.table now.detail c.trace_id (λ done. success c.trace_id no_data)
        (delete_word now.db id s.table) (λ w. (refl, refl))
        (delete_word-LeavesTable same u now.db id s.table))

  pub update_by_id-Sound :
      (now : Readings) (id : ℕ) (c : Context) (s : Backend)
      → Sound table_of s.table (update_by_id binder same u now id c s)
  unfolding update_by_id bad_request success
  update_by_id-Sound now id c s =
      Bound-cases (Sound table_of s.table (update_by_id binder same u now id c s))
        (bind_body binder.update_request c) (λ message e. rw (update_by_id, e) (refl, inl refl))
        (λ req e.
          rw (update_by_id, e)
            (result_reply-Sound s.table now.detail c.trace_id (λ w. success c.trace_id (word w))
              (update_word same u now.db now.now id req s.table) (λ w. (refl, refl))
              (update_word-LeavesTable same u now.db now.now id req s.table)))

  pub handle_list-Sound :
      (now : Readings) (c : Context) (s : Backend)
      → Sound table_of s.table (handle_list binder same like now c s)
  unfolding handle_list bad_request success error_reply
  handle_list-Sound now c s =
      Bound-cases (Sound table_of s.table (handle_list binder same like now c s))
        (binder.list_request c.request.query) (λ message e. rw (handle_list, e) (refl, inl refl))
        (λ req e. elim (Bool-cases now.db.reads) [
          | inl y ↦ rw (handle_list, e, y) (refl, inl refl)
          | inr n ↦ rw (handle_list, e, n) (refl, inl refl)
        ])
