-- ===== src/Service/Batch.antt =====
-- `BatchDetect` of internal/application/service/filter_app_service.go. The workers share the results,
-- the count and the service; a turn is what a worker does with one job, in the order in which the
-- turns end. `none` is a panic. How many workers there are, which is a choice of the runtime, only
-- bounds the orders.
pub mod Results
pub mod Progress
pub mod Laws
use censorhub.Prelude.{
  ℕ, zero, suc, Bool, true, false, Option, none, some, List, [], ◌∷◌, map, if◌then◌else◌, ◌>>=◌,
  length, is_empty,
}
use censorhub.Text.{Text, Unicode}
use censorhub.Domain.{MatchItem, strategy_detect}
use censorhub.Service.Filter.{
  FilterRequest, FilterResponse, Timing, FilterAppService, Json, filter_text,
}

pub record BatchFilterRequest : Type 0 where
  pub texts : List Text
  pub strategy : Text

pub record BatchFilterResponse : Type 0 where
  pub results : List (Option FilterResponse)
  pub total : ℕ
  pub hit_num : ℕ

pub record BatchJob : Type 0 where
  pub idx : ℕ
  pub text : Text

-- `ctx.Err() != nil` as the worker sees it, and the readings of the call of `Filter`.
pub record Turn : Type 0 where
  pub job : BatchJob
  pub cancelled : Bool
  pub timing : Timing

-- What the workers share.
pub record Batch : Type 0 where
  pub service : FilterAppService
  pub results : List (Option FilterResponse)
  pub hit_num : ℕ

unfoldable pub jobs_from : ℕ → List Text → List BatchJob
jobs_from k [] = []
jobs_from k (t ∷ ts) = record { idx = k; text = t } ∷ jobs_from (suc k) ts

-- `make([]*dto.FilterResponse, n)`
abbrev pub no_results : List Text → List (Option FilterResponse)
no_results texts = map (λ t. none) texts

-- `results[job.idx] = r`
unfoldable pub set_result :
    ℕ → FilterResponse → List (Option FilterResponse) → Option (List (Option FilterResponse))
set_result i r [] = none
set_result zero r (x ∷ xs) = some (some r ∷ xs)
set_result (suc i) r (x ∷ xs) = do rest ← set_result i r xs; some (x ∷ rest)

module _ (sort : List MatchItem → List MatchItem) (u : Unicode) (json : Json) where
  unfoldable pub run_turn : Text → Turn → Batch → Option Batch
  unfolding filter_text set_result
  run_turn strategy turn b = if turn.cancelled then some b else do
    (r, s) ←
        filter_text sort u json turn.timing (record { text = turn.job.text; strategy = strategy })
          b.service
    results ← set_result turn.job.idx r b.results
    some (record {
      service = s;
      results = results;
      hit_num = if r.is_hit then suc b.hit_num else b.hit_num;
    })

  unfoldable pub run_turns : Text → List Turn → Batch → Option Batch
  unfolding run_turn
  run_turns strategy [] b = some b
  run_turns strategy (turn ∷ turns) b = do
    b' ← run_turn strategy turn b
    run_turns strategy turns b'

  -- The flag is `ctx.Err() != nil` after the workers; the response is `none` where it is the error.
  unfoldable pub batch_detect :
      List Turn
      → Bool
      → BatchFilterRequest
      → FilterAppService
      → Option (Option BatchFilterResponse × FilterAppService)
  unfolding run_turns
  batch_detect turns cancelled req s =
      let strategy = if is_empty req.strategy then strategy_detect else req.strategy in
      if is_empty req.texts
      then some (some (record { results = []; total = 0; hit_num = 0 }), s)
      else do
        b ←
            run_turns strategy turns
              (record { service = s; results = no_results req.texts; hit_num = 0 })
        some (
          if cancelled
              then none
              else some
                  (record { results = b.results; total = length req.texts; hit_num = b.hit_num }),
          b.service,
        )
