-- ===== src/Service/Filter/Laws.antt =====
-- What `Filter` answers when the cache does not know the answer, and when it does.
use mathlib.Core.List.{Memᴰ}
use mathlib.Core.Option.{some-injective}
use censorhub.Prelude.{
  ℕ, ◌+◌, ◌<◌, ◌≡◌, ◌≢◌, ◌↔◌, refl, sym, ap, ◌∙◌, true, none, some, List, [], ◌∷◌, ◌++◌, map,
  length, length-append, All, arith, pos, Option-cases, inl, inr,
}
use censorhub.Text.{Text, Unicode, normalize}
use censorhub.Domain.{MatchItem}
use censorhub.Domain.Word.{SensitiveWord}
use censorhub.Domain.Risk.{IsMaximum}
use censorhub.Automaton.{Edge}
use censorhub.Automaton.Levels.{VisitsAll}
use censorhub.Automaton.Occurrences.{item_at}
use censorhub.Engine.{FilterEngine, MatchResult, rebuild, match_text, engine_version}
use censorhub.Engine.Rebuild.{ActiveOccurs, match_text-rebuild}
use censorhub.Strategy.Sort.{SortsByPosition}
use censorhub.Strategy.Intervals.{IsPlaced}
use censorhub.Strategy.Apply.{apply_strategy-Reports, Filters}
use censorhub.Service.Key.{filter_cache_key}
use censorhub.Service.Filter.{
  FilterRequest, FilterResponse, match_to_dto, filter_result_to_dto, select_strategy, Timing,
  milliseconds, FilterAppService, Json, look_up, write_back, compute, filter_text,
}

length_pos : (w : Text) → w ≢ [] → 0 < length w
length_pos [] h = absurd (h refl)
length_pos (r ∷ rs) h = ground arith

-- A word that stands in a text has its place inside the text.
ActiveOccurs-IsPlaced :
    (u : Unicode) (words : List SensitiveWord) (text : Text) (m : MatchItem)
    → ActiveOccurs u words text m
    → IsPlaced (length text) m
unfolding item_at
ActiveOccurs-IsPlaced u words text m o =
    let w = normalize u o.word.text in
    let nonempty = length_pos w o.nonempty in
    let whole : length text ≡ length o.before + (length w + length o.after) =
      ap length o.place
      ∙ length-append o.before (w ++ o.after)
      ∙ ap (λ k. length o.before + k) (length-append w o.after) in
    let start : m.position ≡ length o.before = ap (λ (x : MatchItem). x.position) o.item in
    let stop : m.end_pos ≡ length o.before + length w = ap (λ (x : MatchItem). x.end_pos) o.item in
    (omega arith, omega arith)

of_Memᴰ-All :
    (n : ℕ) (ms : List MatchItem)
    → ((m : MatchItem) → Memᴰ m ms → IsPlaced n m)
    → All (IsPlaced n) ms
of_Memᴰ-All n [] h = tt
of_Memᴰ-All n (m ∷ ms) h = (h m (Memᴰ.head refl), of_Memᴰ-All n ms (λ x e. h x (Memᴰ.tail e)))

-- A response tells the truth about a text, for the active words of a list.
pub record Answers (u : Unicode) (words : List SensitiveWord) (strategy text : Text)
    (r : FilterResponse) : Type 0 where
  pub found : List MatchItem
  pub complete : (m : MatchItem) → Memᴰ m found ↔ ActiveOccurs u words (normalize u text) m
  pub listed : r.matches ≡ map match_to_dto found
  pub original : r.original ≡ text
  pub filtered : Filters strategy text (normalize u text) found r.filtered
  pub hit : (r.is_hit ≡ true) ↔ (0 < length found)
  pub counted : r.hit_count ≡ length found
  pub risk : IsMaximum (pos 0) found r.risk_level

-- The engine holds the automaton of the active words of a list.
unfoldable pub Serves : Unicode → List SensitiveWord → FilterEngine → Type 0
Serves u words e =
    (text : Text)
    → (r : MatchResult) × (match_text u e text ≡ some r)
      × (r.normalized_text ≡ normalize u text)
      × ((m : MatchItem) → Memᴰ m r.matches ↔ ActiveOccurs u words (normalize u text) m)

pub compute-Answers :
    (sort : List MatchItem → List MatchItem)
    → SortsByPosition sort
    → (u : Unicode) (json : Json) (words : List SensitiveWord) (e : FilterEngine) → Serves u words e
    → (t : Timing) (strategy text : Text)
    → (r : FilterResponse) × (compute sort u json t strategy text e ≡ some r)
      × Answers u words strategy text r
unfolding compute Serves filter_result_to_dto
compute-Answers sort sorts u json words e serves t strategy text =
    let (m, matched, same, complete) = serves text in
    let placed : All (IsPlaced (length m.normalized_text)) m.matches = rw (same) (
      of_Memᴰ-All (length (normalize u text)) m.matches
        (λ x h. ActiveOccurs-IsPlaced u words (normalize u text) x ((complete x).0 h))) in
    let (res, applied, reports, filters) =
      apply_strategy-Reports sort sorts strategy t.processed text m.normalized_text m.matches
        placed in
    (
      filter_result_to_dto (record res { cost_ms = milliseconds t }),
      rw (compute, matched, applied) refl,
      record {
        found = m.matches;
        complete = complete;
        listed = ap (map match_to_dto) reports.matches_kept;
        original = reports.original_kept;
        filtered = rw (same) at filters;
        hit = reports.hit;
        counted = reports.counted;
        risk = reports.risk;
      },
    )

-- The engine is one that was rebuilt from the words.
pub rebuilt-Serves :
    (order : ℕ → List Edge → List Edge)
    → VisitsAll order
    → (u : Unicode) (words : List SensitiveWord) (before e : FilterEngine)
    → rebuild order u before words ≡ some e
    → Serves u words e
unfolding Serves
rebuilt-Serves order visits_all u words before e rebuilt =
    let (e', built, _, _, serves) = match_text-rebuild order visits_all u before words in
    rw (some-injective e' e (sym built ∙ rebuilt)) at serves

pub look_up-engine :
    (json : Json) (t : Timing) (key : Text) (s : FilterAppService)
    → (look_up json t key s).1.engine ≡ s.engine
unfolding look_up
look_up-engine json t key s = elim (Option-cases s.cache) [
  | inl e ↦ rw (look_up, e) refl
  | inr (c, e) ↦ rw (look_up, e) refl
]

-- The key of a request under the engine of a service.
abbrev pub request_key : FilterRequest → FilterAppService → Text
request_key req s =
    filter_cache_key req.text (select_strategy req.strategy) (engine_version s.engine)

-- A request that the cache cannot answer, on an engine that serves a list of words.
pub filter_text-Serves :
    (sort : List MatchItem → List MatchItem)
    → SortsByPosition sort
    → (u : Unicode) (json : Json) (words : List SensitiveWord) (t : Timing) (req : FilterRequest)
      (s : FilterAppService)
    → Serves u words s.engine
    → (look_up json t (request_key req s) s).0 ≡ none
    → (r : FilterResponse) × (filter_text sort u json t req s
        ≡ some
            (r, write_back json t (request_key req s) r (look_up json t (request_key req s) s).1))
      × Answers u words (select_strategy req.strategy) req.text r
unfolding filter_text
filter_text-Serves sort sorts u json words t req s serves missed =
    let strategy = select_strategy req.strategy in
    let (r, computed, answers) =
      compute-Answers sort sorts u json words s.engine serves t strategy req.text in
    (
      r,
      rw (filter_text, missed, look_up-engine json t (request_key req s) s, computed) refl,
      answers,
    )

-- A request that the cache cannot answer, on an engine rebuilt from a list of words, is answered
-- truthfully for the normalized text and the active words, by the strategy it names or else by
-- detect; and the service then differs only by what the two cache calls did.
pub filter_text-Answers :
    (order : ℕ → List Edge → List Edge)
    → VisitsAll order
    → (sort : List MatchItem → List MatchItem) → SortsByPosition sort
    → (u : Unicode) (json : Json) (words : List SensitiveWord) (before : FilterEngine) (t : Timing)
      (req : FilterRequest) (s : FilterAppService)
    → rebuild order u before words ≡ some s.engine
    → (look_up json t (request_key req s) s).0 ≡ none
    → (r : FilterResponse) × (filter_text sort u json t req s
        ≡ some
            (r, write_back json t (request_key req s) r (look_up json t (request_key req s) s).1))
      × Answers u words (select_strategy req.strategy) req.text r
filter_text-Answers order visits_all sort sorts u json words before t req s rebuilt missed =
    let (e', built, _, _, serves) = match_text-rebuild order visits_all u before words in
    let same : e' ≡ s.engine = some-injective e' s.engine (sym built ∙ rebuilt) in
    let serves' : Serves u words s.engine = unfold Serves in rw (same) at serves in
    filter_text-Serves sort sorts u json words t req s serves' missed
