-- ===== src/Service/Filter/Truthful.antt =====
-- `Filter` with a local cache, while Redis has no entry: the cached answers are truthful too.
use mathlib.Core.Option.{some-injective}
use censorhub.Prelude.{
  ℕ, ◌<◌, ◌^◌, ◌≡◌, refl, sym, ap, ◌∙◌, ◌⊎◌, inl, inr, true, none, some, List, [], ◌∷◌, arith,
  Option, Option-cases, Bool-cases, ltb,
}
use censorhub.Text.{Text, Unicode, text_eq, text_eq_sound}
use censorhub.Domain.{MatchItem, strategy_is_valid}
use censorhub.Domain.Word.{SensitiveWord}
use censorhub.Engine.{engine_version}
use censorhub.Strategy.Sort.{SortsByPosition}
use censorhub.Cache.Hash.{sum64a}
use censorhub.Cache.Local.{CacheItem, LocalCache, get, get_item, set, is_refused}
use censorhub.Cache.Local.Reads.{find, find-set, item_at}
use censorhub.Cache.Breaker.{allow}
use censorhub.Cache.MultiLevel.{
  redis_nil, is_not_found, MultiLevelCache, replied, refused, CacheError, get_multi, answer_get,
  set_multi, tell_redis,
}
use censorhub.Service.Key.{filter_cache_key}
use censorhub.Service.Key.Laws.{filter_cache_key-inj}
use censorhub.Service.Filter.{
  FilterRequest, FilterResponse, Timing, milliseconds, FilterAppService, Json, look_up, write_back,
  filter_text, select_strategy,
}
use censorhub.Service.Filter.Laws.{Answers, Serves, compute-Answers, look_up-engine, request_key}
use censorhub.Service.Filter.Cached.{write_back-engine, filter_text-cached, filter_text-computed}

get_item-value :
    (later : ℕ) (item : CacheItem) (bytes : List ℕ)
    → get_item later (some item) ≡ some bytes
    → item.value ≡ bytes
unfolding get_item
get_item-value later item bytes h = elim (Bool-cases (ltb item.expired_at later)) [
  | inl y ↦ let gone = rw (y) at h in ground arith
  | inr n ↦ some-injective item.value bytes (rw (n) at h)
]

-- What is read after a write is what was written, or what was there.
get-after_set :
    (now later : ℕ) (k key : Text) (value bytes : List ℕ) (c : LocalCache)
    → get later k (set now key value c) ≡ some bytes
    → ((k ≡ key) × (value ≡ bytes)) ⊎ (get later k c ≡ some bytes)
unfolding get find
get-after_set now later k key value bytes c h = elim (Bool-cases (is_refused key c)) [
  | inl y ↦ inr (sym (ap (λ x. get later k x) (set-refused now key value c y)) ∙ h)
  | inr n ↦
      let found = ap (get_item later) (find-set now k key value c n) in
      elim (Bool-cases (text_eq k key)) [
        | inl e ↦ inl (
          text_eq_sound k key e,
          get_item-value later (item_at now value c) bytes (sym (rw (e) at found) ∙ h),
        )
        | inr m ↦ inr (sym (rw (m) at found) ∙ h)
      ]
]
  where
    set-refused :
        (now : ℕ) (key : Text) (value : List ℕ) (c : LocalCache)
        → is_refused key c ≡ true
        → set now key value c ≡ c
    set-refused now key value c y = unfold set in rw (set, y) refl

Answers-cost :
    {u : Unicode} {words : List SensitiveWord} {strategy text : Text} {r : FilterResponse}
    → Answers u words strategy text r
    → (cost : ℕ) → Answers u words strategy text (record r { cost_ms = cost })
Answers-cost a cost = record {
  found = a.found;
  complete = a.complete;
  listed = a.listed;
  original = a.original;
  filtered = a.filtered;
  hit = a.hit;
  counted = a.counted;
  risk = a.risk;
}

select_strategy-valid : (name : Text) → strategy_is_valid (select_strategy name) ≡ true
unfolding select_strategy
select_strategy-valid [] = refl
select_strategy-valid (r ∷ rs) = elim (Bool-cases (strategy_is_valid (r ∷ rs))) [
  | inl y ↦ rw (y) y
  | inr n ↦ rw (n) refl
]

-- Redis has no entry when the call asks for it.
abbrev pub IsMissed : Timing → Type 0
IsMissed t = (err : CacheError) × (t.get_reply ≡ refused err)

-- A read that Redis refuses changes only the breaker.
get_multi-missed :
    (looked asked answered : ℕ) (key : Text) (err : CacheError) (c : MultiLevelCache)
    → ((get_multi looked asked answered key (refused err) c).1.local ≡ c.local)
      × (((value : List ℕ) × (get looked key c.local ≡ some value)
            × ((get_multi looked asked answered key (refused err) c).0 ≡ replied value))
          ⊎ ((e : CacheError) × ((get_multi looked asked answered key (refused err) c).0
                ≡ refused e)))
unfolding get_multi answer_get
get_multi-missed looked asked answered key err c = elim (Option-cases (get looked key c.local)) [
  | inr (value, e) ↦ rw (get_multi, e) (refl, inl (value, refl, refl))
  | inl e ↦ elim (Bool-cases (allow asked c.breaker).0) [
    | inr shut ↦ rw (get_multi, e, shut) (refl, inr (redis_nil, refl))
    | inl granted ↦ elim (Bool-cases (is_not_found err)) [
      | inl y ↦ rw (get_multi, e, granted, y) (refl, inr (err, refl))
      | inr n ↦ rw (get_multi, e, granted, n) (refl, inr (err, refl))
    ]
  ]
]

module _ (json : Json) (u : Unicode) (words : List SensitiveWord) (asked : Text → Type 0)
    (version : ℕ) where
  -- What the local cache has for a text that may be asked is decoded to a truthful answer.
  unfoldable pub HoldsTruth : Option MultiLevelCache → Type 0
  HoldsTruth none = Unit
  HoldsTruth (some c) =
      (now : ℕ) (text strategy : Text) (bytes : List ℕ) (r : FilterResponse)
      → asked text
      → strategy_is_valid strategy ≡ true
      → get now (filter_cache_key text strategy version) c.local ≡ some bytes
      → json.unmarshal bytes ≡ some r
      → Answers u words strategy text r

  HoldsTruth-set :
      (now : ℕ) (text strategy : Text) (bytes : List ℕ) (r : FilterResponse)
      (c c' : MultiLevelCache)
      → ((a b : Text) → asked a → asked b → sum64a a ≡ sum64a b → a ≡ b)
      → version < 2 ^ 64
      → asked text
      → strategy_is_valid strategy ≡ true
      → json.unmarshal bytes ≡ some r
      → Answers u words strategy text r
      → c'.local ≡ set now (filter_cache_key text strategy version) bytes c.local
      → HoldsTruth (some c)
      → HoldsTruth (some c')
  unfolding HoldsTruth
  HoldsTruth-set now text strategy bytes r c c' distinct small here known decoded answers e before
        later text' strategy' bytes' r' here' known' hit decoded' =
      let key = filter_cache_key text strategy version in
      let key' = filter_cache_key text' strategy' version in
      elim (get-after_set now later key' key bytes bytes' c.local
        (sym (ap (get later key') e) ∙ hit)) [
          | inr old ↦ before later text' strategy' bytes' r' here' known' old decoded'
          | inl (same, written) ↦
              let (s, _, h) =
                filter_cache_key-inj text' text strategy' strategy version version known' known
                  small small same in
              let t = distinct text' text here' here h in
              let d : r ≡ r' =
                some-injective r r' (sym decoded ∙ ap json.unmarshal written ∙ decoded') in
              rw (s, t, sym d) answers
        ]

  -- The engine serves the words under the version, and the local cache has only truthful answers.
  pub record IsTruthful (s : FilterAppService) : Type 0 where
    pub serves : Serves u words s.engine
    pub versioned : engine_version s.engine ≡ version
    pub holds : HoldsTruth s.cache

  HoldsTruth-look_up :
      (t : Timing) (text strategy : Text) (s : FilterAppService)
      → IsMissed t
      → asked text
      → strategy_is_valid strategy ≡ true
      → HoldsTruth s.cache
      → let looked = look_up json t (filter_cache_key text strategy version) s in
        HoldsTruth looked.1.cache
        × ((looked.0 ≡ none)
            ⊎ ((r : FilterResponse) × (looked.0 ≡ some r) × Answers u words strategy text r))
  unfolding look_up HoldsTruth
  HoldsTruth-look_up t text strategy s (err, missed) here known holds =
      let key = filter_cache_key text strategy version in
      elim (Option-cases s.cache) [
        | inl e ↦ rw (look_up, e) (holds, inl refl)
        | inr (c, e) ↦
            let before : HoldsTruth (some c) = rw (e) at holds in
            let (kept, found) = get_multi-missed t.looked t.asked t.answered key err c in
            let after : HoldsTruth
                (some (get_multi t.looked t.asked t.answered key (refused err) c).1) =
              λ now text' strategy' bytes r h v hit.
                before now text' strategy' bytes r h v
                  (sym (ap (get now (filter_cache_key text' strategy' version)) kept) ∙ hit) in
            elim found [
              | inr (e', gone) ↦ rw (look_up, e, missed) (after, inl (rw (gone) refl))
              | inl (value, hit, reply) ↦ elim (Option-cases (json.unmarshal value)) [
                | inl n ↦ rw (look_up, e, missed) (after, inl (rw (reply, n) refl))
                | inr (r, d) ↦
                    rw (look_up, e, missed)
                      (
                        after,
                        inr (
                          record r { cost_ms = milliseconds t },
                          rw (reply, d) refl,
                          Answers-cost (before t.looked text strategy value r here known hit d)
                              (milliseconds t),
                        ),
                      )
              ]
            ]
      ]

  module _
      (decodes : (r : FilterResponse) (bytes : List ℕ)
        → json.marshal r ≡ some bytes
        → json.unmarshal bytes ≡ some r)
      (distinct : (a b : Text) → asked a → asked b → sum64a a ≡ sum64a b → a ≡ b)
      (small : version < 2 ^ 64) where
    HoldsTruth-write_back :
        (t : Timing) (text strategy : Text) (r : FilterResponse) (s : FilterAppService)
        → asked text
        → strategy_is_valid strategy ≡ true
        → Answers u words strategy text r
        → HoldsTruth s.cache
        → HoldsTruth (write_back json t (filter_cache_key text strategy version) r s).cache
    unfolding write_back
    HoldsTruth-write_back t text strategy r s here known answers holds =
        let key = filter_cache_key text strategy version in
        elim (Option-cases s.cache) [
          | inl e ↦ rw (write_back, e) holds
          | inr (c, e) ↦ elim (Option-cases (json.marshal r)) [
            | inl n ↦ rw (write_back, e, n) holds
            | inr (bytes, m) ↦
                rw (write_back, e, m)
                  (HoldsTruth-set t.written text strategy bytes r c
                    (set_multi t.written t.told t.confirmed key bytes t.set_reply c) distinct small
                    here known (decodes r bytes m) answers (unfold set_multi tell_redis in refl)
                    (rw (e) at holds))
          ]
        ]

    -- A call is answered truthfully, from the cache or not, and the service stays as it is.
    pub filter_text-IsTruthful :
        (sort : List MatchItem → List MatchItem)
        → SortsByPosition sort
        → (t : Timing) (req : FilterRequest) (s : FilterAppService) → IsMissed t
        → asked req.text
        → IsTruthful s
        → (r : FilterResponse) × (s' : FilterAppService) × (filter_text sort u json t req s
            ≡ some (r, s'))
          × Answers u words (select_strategy req.strategy) req.text r
          × IsTruthful s'
    filter_text-IsTruthful sort sorts t req s missed here o =
        let strategy = select_strategy req.strategy in
        let known = select_strategy-valid req.strategy in
        let key = filter_cache_key req.text strategy version in
        let same_key : request_key req s ≡ key =
          ap (filter_cache_key req.text strategy) o.versioned in
        let s1 = (look_up json t key s).1 in
        let kept = look_up-engine json t key s in
        let (held, found) = HoldsTruth-look_up t req.text strategy s missed here known o.holds in
        elim found [
          | inr (r, hit, answers) ↦ (
            r,
            s1,
            filter_text-cached sort u json t req s r
                  (ap (λ k. (look_up json t k s).0) same_key ∙ hit)
                ∙ ap (λ k. some (r, (look_up json t k s).1)) same_key,
            answers,
            record { serves = rw (kept) o.serves; versioned = rw (kept) o.versioned; holds = held },
          )
          | inl missing ↦
              let (r, computed, answers) =
                compute-Answers sort sorts u json words s.engine o.serves t strategy req.text in
              let s2 = write_back json t key r s1 in
              let kept2 = write_back-engine json t key r s1 ∙ kept in
              (
                r,
                s2,
                filter_text-computed sort u json t req s r
                      (ap (λ k. (look_up json t k s).0) same_key ∙ missing) computed
                    ∙ ap (λ k. some (r, write_back json t k r (look_up json t k s).1)) same_key,
                answers,
                record {
                  serves = rw (kept2) o.serves;
                  versioned = rw (kept2) o.versioned;
                  holds = HoldsTruth-write_back t req.text strategy r s1 here known answers held;
                },
              )
        ]
