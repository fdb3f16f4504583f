-- ===== src/Service/Batch/Laws.antt =====
-- What `BatchDetect` answers, in whatever order the workers end their turns.
use mathlib.Core.List.{Perm}
use censorhub.Prelude.{
  ℕ, ◌≡◌, ◌≢◌, refl, ◌∙◌, false, none, some, List, map, if◌then◌else◌, arith, All, is_empty,
  Option-cases, inl, inr,
}
use censorhub.Text.{Text, Unicode}
use censorhub.Domain.{MatchItem, strategy_detect}
use censorhub.Domain.Word.{SensitiveWord}
use censorhub.Engine.{FilterEngine}
use censorhub.Strategy.Sort.{SortsByPosition}
use censorhub.Service.Filter.{
  FilterRequest, FilterResponse, Timing, FilterAppService, Json, look_up, write_back, filter_text,
  select_strategy,
}
use censorhub.Service.Filter.Laws.{
  Answers, Serves, compute-Answers, look_up-engine, request_key, rebuilt-Serves,
}
use censorhub.Service.Filter.Cached.{write_back-engine, filter_text-cached}
use censorhub.Service.Batch.{BatchFilterRequest, BatchFilterResponse, Turn, jobs_from, batch_detect}
use censorhub.Service.Batch.Progress.{IsBatch, batch_detect-IsBatch}
use censorhub.Automaton.{Edge}
use censorhub.Automaton.Levels.{VisitsAll}
use censorhub.Engine.{rebuild}

uncached-misses :
    (json : Json) (t : Timing) (key : Text) (s : FilterAppService) (r : FilterResponse)
    → s.cache ≡ none
    → (look_up json t key s).0 ≢ some r
unfolding look_up
uncached-misses json t key s r e hit = let h = rw (look_up, e) at hit in ground arith

module _ (sort : List MatchItem → List MatchItem) (sorts : SortsByPosition sort) (u : Unicode)
    (json : Json) (words : List SensitiveWord) (strategy : Text) where
  -- A call of `Filter` on an engine that serves the words returns, keeps the engine, and without a
  -- cache answers truthfully.
  filter_text-returns :
      (t : Timing) (text : Text) (s : FilterAppService)
      → Serves u words s.engine
      → (r : FilterResponse) × (s' : FilterAppService) × (filter_text sort u json t
            (record { text = text; strategy = strategy })
            s
          ≡ some (r, s'))
        × (s'.engine ≡ s.engine)
        × (s.cache ≡ none → Answers u words (select_strategy strategy) text r × (s'.cache ≡ none))
  unfolding filter_text
  filter_text-returns t text s serves =
      let req : FilterRequest = record { text = text; strategy = strategy } in
      let key = request_key req s in
      let kept = look_up-engine json t key s in
      let (r, computed, answers) =
        compute-Answers sort sorts u json words s.engine serves t (select_strategy strategy) text in
      elim (Option-cases (look_up json t key s).0) [
        | inl missed ↦ (
          r,
          write_back json t key r (look_up json t key s).1,
          rw (filter_text, missed, kept, computed) refl,
          write_back-engine json t key r (look_up json t key s).1 ∙ kept,
          λ e. (answers, unfold look_up write_back in rw (look_up, e) (rw (write_back, e) e)),
        )
        | inr (cached, hit) ↦ (
          cached,
          (look_up json t key s).1,
          filter_text-cached sort u json t req s cached hit,
          kept,
          λ e. absurd (uncached-misses json t key s cached e hit),
        )
      ]

-- The strategy of a batch, by its name.
abbrev pub batch_strategy : Text → Text
batch_strategy name = if is_empty name then strategy_detect else name

-- In whatever order the workers end their turns, a batch whose context is not done is answered, on
-- an engine rebuilt from a list of words and without a cache: every text has at its place the
-- truthful answer for the active words and the strategy, and the hits are counted.
pub batch_detect-Answers :
    (order : ℕ → List Edge → List Edge)
    → VisitsAll order
    → (sort : List MatchItem → List MatchItem) → SortsByPosition sort
    → (u : Unicode) (json : Json) (words : List SensitiveWord) (before : FilterEngine)
      (turns : List Turn) (req : BatchFilterRequest) (s : FilterAppService)
    → rebuild order u before words ≡ some s.engine
    → s.cache ≡ none
    → All (λ (t : Turn). t.cancelled ≡ false) turns
    → Perm (map (λ (t : Turn). t.job) turns) (jobs_from 0 req.texts)
    → (resp : BatchFilterResponse) × (s' : FilterAppService) × (batch_detect sort u json turns false
          req s
        ≡ some (some resp, s'))
      × IsBatch (Answers u words (select_strategy (batch_strategy req.strategy))) req.texts resp
batch_detect-Answers order visits_all sort sorts u json words before turns req s rebuilt bare going
      perm =
    let strategy = batch_strategy req.strategy in
    let serves = rebuilt-Serves order visits_all u words before s.engine rebuilt in
    let (resp, s', done, batch, _) =
      batch_detect-IsBatch sort u json strategy req.texts
        (Answers u words (select_strategy strategy))
        (λ x. Serves u words x.engine × (x.cache ≡ none))
        (λ t text x inv.
          let (r, x', called, kept, truthful) =
            filter_text-returns sort sorts u json words strategy t text x inv.0 in
          let (answers, still) = truthful inv.1 in (r, x', called, (rw kept inv.0, still), answers))
        turns req.strategy s refl going perm (serves, bare) in
    (resp, s', done, batch)
