-- ===== src/Tests/Repeating.antt =====
-- Calls of `Filter` whose answers the local cache keeps, at concrete inputs, and a codec for them.
use mathlib.Core.Option.{some-injective}
use censorhub.Prelude.{
  ◌≢◌, ℕ, ◌<◌, ◌^◌, ◌≡◌, ◌⊎◌, inl, inr, refl, sym, ap, ◌∙◌, ℤ, pos, negsuc, Bool, true, false, none,
  some, List, [], ◌∷◌, All, arith, Option, Bool-cases, zero, suc, if◌then◌else◌,
}
use censorhub.Text.{Text, runes, text_eq, text_eq_sound}
use censorhub.Engine.{engine_version}
use censorhub.Engine.Rebuild.{match_text-rebuild}
use censorhub.Cache.Hash.{sum64a}
use censorhub.Cache.Local.{new_local_cache}
use censorhub.Service.Filter.{FilterResponse, FilterAppService, Json, MatchDto}
use censorhub.Service.Filter.Repeated.{Call, filter_all, AllAnswered, filter_all-Answers}
use censorhub.Service.Filter.Truthful.{IsMissed}
use censorhub.Cache.MultiLevel.{redis_nil}
use censorhub.Tests.Inputs.{
  ascii, keep_order, keep_order-VisitsAll, sort_by_position, sort_by_position-SortsByPosition,
}
use censorhub.Tests.Matching.{word_list, idle}
use censorhub.Tests.Serving.{timing, uncached, levels}

abbrev decoded : ℕ → Text → FilterResponse
decoded cost text = record {
  original = text;
  filtered = text;
  is_hit = false;
  hit_count = 0;
  matches = [];
  risk_level = pos 0;
  cost_ms = cost;
}

-- A codec that takes only the responses without a match.
unfoldable encode : FilterResponse → Option (List ℕ)
unfolding text_eq
encode r = elim r.matches [
  | m ∷ ms ↦ none
  | [] ↦ elim r.is_hit [
    | true ↦ none
    | false ↦ elim r.hit_count [
      | suc n ↦ none
      | zero ↦ elim r.risk_level [
        | negsuc k ↦ none
        | pos k ↦ elim k [
          | suc i ↦ none
          | zero ↦ if text_eq r.filtered r.original then some (r.cost_ms ∷ r.original) else none
        ]
      ]
    ]
  ]
]

unfoldable decode : List ℕ → Option FilterResponse
decode [] = none
decode (cost ∷ text) = some (decoded cost text)

abbrev codec : Json
codec = record { marshal = encode; unmarshal = decode }

decode-encode_fields :
    (original filtered : Text) (is_hit : Bool) (hit_count : ℕ) (matches : List MatchDto) (risk : ℤ)
    (cost : ℕ) (bytes : List ℕ)
    → let r : FilterResponse = record {
      original = original;
      filtered = filtered;
      is_hit = is_hit;
      hit_count = hit_count;
      matches = matches;
      risk_level = risk;
      cost_ms = cost;
    } in
      encode r ≡ some bytes → decode bytes ≡ some r
unfolding encode decode
decode-encode_fields o f hit n (m ∷ ms) risk cost bytes h = ground arith
decode-encode_fields o f true n [] risk cost bytes h = ground arith
decode-encode_fields o f false (suc n) [] risk cost bytes h = ground arith
decode-encode_fields o f false zero [] (negsuc k) cost bytes h = ground arith
decode-encode_fields o f false zero [] (pos (suc k)) cost bytes h = ground arith
decode-encode_fields o f false zero [] (pos zero) cost bytes h = elim (Bool-cases (text_eq f o)) [
  | inl e ↦
      let same : cost ∷ o ≡ bytes = some-injective (cost ∷ o) bytes (rw (e) at h) in
      rw (sym same) (rw (text_eq_sound f o e) refl)
  | inr e ↦ let gone = rw (e) at h in ground arith
]

decode-encode :
    (r : FilterResponse) (bytes : List ℕ) → encode r ≡ some bytes → decode bytes ≡ some r
decode-encode r bytes h =
    decode-encode_fields r.original r.filtered r.is_hit r.hit_count r.matches r.risk_level r.cost_ms
      bytes h

abbrev IsAsked : Text → Type 0
IsAsked text = (text ≡ runes "a sin") ⊎ (text ≡ runes "no")

hashes-differ : sum64a (runes "a sin") ≢ sum64a (runes "no")
unfolding sum64a
hashes-differ e = ground arith

IsAsked-distinct : (a b : Text) → IsAsked a → IsAsked b → sum64a a ≡ sum64a b → a ≡ b
IsAsked-distinct a b (inl x) (inl y) h = x ∙ sym y
IsAsked-distinct a b (inl x) (inr y) h =
    absurd (hashes-differ (sym (ap sum64a x) ∙ h ∙ ap sum64a y))
IsAsked-distinct a b (inr x) (inl y) h =
    absurd (hashes-differ (sym (ap sum64a y) ∙ sym h ∙ ap sum64a x))
IsAsked-distinct a b (inr x) (inr y) h = x ∙ sym y

abbrev call : Text → Call
call text = record { timing = timing; request = record { text = text; strategy = [] } }

abbrev calls : List Call
calls = call (runes "no") ∷ call (runes "a sin") ∷ call (runes "no") ∷ []

calls-IsAsked : All (λ (c : Call). IsMissed c.timing × IsAsked c.request.text) calls
calls-IsAsked = (
  ((redis_nil, refl), inr refl),
  (((redis_nil, refl), inl refl), (((redis_nil, refl), inr refl), tt)),
)

abbrev remembering : FilterAppService
remembering = record uncached { cache = some levels }

remembering-small : engine_version remembering.engine < 2 ^ 64
remembering-small =
    let counted = (match_text-rebuild keep_order keep_order-VisitsAll ascii idle word_list).2 in
    omega (arith, counted)

levels-empty : levels.local.shards ≡ (λ i. [])
unfolding new_local_cache
levels-empty = refl

filter_all-Answers_example :
    (rs : List FilterResponse) × (s' : FilterAppService) × (filter_all sort_by_position ascii codec
        calls remembering
      ≡ some (rs, s'))
    × AllAnswered ascii word_list calls rs
filter_all-Answers_example =
    filter_all-Answers codec ascii word_list IsAsked decode-encode IsAsked-distinct keep_order
      keep_order-VisitsAll sort_by_position sort_by_position-SortsByPosition idle calls remembering
      levels (match_text-rebuild keep_order keep_order-VisitsAll ascii idle word_list).1
      remembering-small refl levels-empty calls-IsAsked
