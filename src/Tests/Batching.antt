-- ===== src/Tests/Batching.antt =====
-- The theorems about batches at concrete inputs: two texts whose turns end in the other order.
use mathlib.Core.List.{Perm}
use mathlib.Core.List.Perm
use censorhub.Prelude.{◌≡◌, refl, false, some, List, [], ◌∷◌, map}
use censorhub.Text.{runes}
use censorhub.Engine.Rebuild.{match_text-rebuild}
use censorhub.Service.Filter.{FilterAppService, select_strategy}
use censorhub.Service.Filter.Laws.{Answers}
use censorhub.Service.Batch.{
  BatchFilterRequest, BatchFilterResponse, BatchJob, Turn, jobs_from, batch_detect,
}
use censorhub.Service.Batch.Progress.{IsBatch}
use censorhub.Service.Batch.Laws.{batch_strategy, batch_detect-Answers}
use censorhub.Tests.Inputs.{
  ascii, keep_order, keep_order-VisitsAll, sort_by_position, sort_by_position-SortsByPosition,
}
use censorhub.Tests.Matching.{word_list, idle}
use censorhub.Tests.Serving.{json, timing, uncached}

abbrev batch : BatchFilterRequest
batch = record { texts = runes "a sin" ∷ runes "no" ∷ []; strategy = [] }

abbrev turn : BatchJob → Turn
turn j = record { job = j; cancelled = false; timing = timing }

abbrev job_0 : BatchJob
job_0 = record { idx = 0; text = runes "a sin" }

abbrev job_1 : BatchJob
job_1 = record { idx = 1; text = runes "no" }

abbrev turns : List Turn
turns = turn job_1 ∷ turn job_0 ∷ []

turns-perm : Perm (map (λ (t : Turn). t.job) turns) (jobs_from 0 batch.texts)
unfolding jobs_from
turns-perm = Perm.swap job_0 job_1 []

batch_detect-Answers_example :
    (resp : BatchFilterResponse) × (s' : FilterAppService) × (batch_detect sort_by_position ascii
        json turns false batch uncached
      ≡ some (some resp, s'))
    × IsBatch
        (Answers ascii word_list (select_strategy (batch_strategy batch.strategy)))
        batch.texts
        resp
batch_detect-Answers_example =
    batch_detect-Answers keep_order keep_order-VisitsAll sort_by_position
      sort_by_position-SortsByPosition ascii json word_list idle turns batch uncached
      (match_text-rebuild keep_order keep_order-VisitsAll ascii idle word_list).1 refl
      (refl, (refl, tt)) turns-perm
