-- ===== src/Service/Filter/Cached.antt =====
-- What `Filter` answers from the cache.
use censorhub.Prelude.{
  ℕ, ◌+◌, ◌≤◌, ◌≡◌, refl, ap, ◌∙◌, false, none, some, List, Option-cases, inl, inr,
}
use censorhub.Text.{Text, Unicode}
use censorhub.Domain.{MatchItem}
use censorhub.Cache.Local.{is_refused}
use censorhub.Cache.MultiLevel.{MultiLevelCache}
use censorhub.Cache.MultiLevel.Laws.{get_multi-set_multi}
use censorhub.Service.Filter.{
  FilterRequest, FilterResponse, Timing, milliseconds, FilterAppService, Json, look_up, write_back,
  compute, filter_text, select_strategy,
}
use censorhub.Service.Filter.Laws.{look_up-engine, request_key}

pub write_back-engine :
    (json : Json) (t : Timing) (key : Text) (r : FilterResponse) (s : FilterAppService)
    → (write_back json t key r s).engine ≡ s.engine
unfolding write_back
write_back-engine json t key r s = elim (Option-cases s.cache) [
  | inl e ↦ rw (write_back, e) refl
  | inr (c, e) ↦ elim (Option-cases (json.marshal r)) [
    | inl n ↦ rw (write_back, e, n) refl
    | inr (bytes, m) ↦ rw (write_back, e, m) refl
  ]
]

-- What was written back is found again.
look_up-write_back :
    (json : Json) (t t' : Timing) (key : Text) (r : FilterResponse) (bytes : List ℕ)
    (s : FilterAppService) (c : MultiLevelCache)
    → s.cache ≡ some c
    → json.marshal r ≡ some bytes
    → json.unmarshal bytes ≡ some r
    → is_refused key c.local ≡ false
    → t'.looked ≤ t.written + c.local.ttl
    → look_up json t' key (write_back json t key r s)
      ≡ (some (record r { cost_ms = milliseconds t' }), write_back json t key r s)
unfolding look_up write_back
look_up-write_back json t t' key r bytes s c e m d admitted early =
    rw
      (
        look_up,
        write_back,
        e,
        m,
        get_multi-set_multi t.written t.told t.confirmed key bytes t.set_reply t'.looked t'.asked
            t'.answered t'.get_reply c admitted early,
        d,
      )
      (rw (write_back-engine json t key r s) refl)

-- A cached answer ends the call.
pub filter_text-cached :
    (sort : List MatchItem → List MatchItem) (u : Unicode) (json : Json) (t : Timing)
    (req : FilterRequest) (s : FilterAppService) (r : FilterResponse)
    → (look_up json t (request_key req s) s).0 ≡ some r
    → filter_text sort u json t req s ≡ some (r, (look_up json t (request_key req s) s).1)
unfolding filter_text
filter_text-cached sort u json t req s r h = rw (filter_text, h) refl

pub filter_text-computed :
    (sort : List MatchItem → List MatchItem) (u : Unicode) (json : Json) (t : Timing)
    (req : FilterRequest) (s : FilterAppService) (r : FilterResponse)
    → (look_up json t (request_key req s) s).0 ≡ none
    → compute sort u json t (select_strategy req.strategy) req.text s.engine ≡ some r
    → filter_text sort u json t req s
      ≡ some (r, write_back json t (request_key req s) r (look_up json t (request_key req s) s).1)
unfolding filter_text
filter_text-computed sort u json t req s r missed computed =
    rw (filter_text, missed, look_up-engine json t (request_key req s) s, computed) refl

-- A request that the cache could not answer, and whose answer survives the encoding and finds room
-- in the local cache, is answered a second time within the time to live with the same response but
-- for its cost, whatever Redis replies then, and nothing changes.
pub filter_text-again :
    (sort : List MatchItem → List MatchItem) (u : Unicode) (json : Json) (t t' : Timing)
    (req : FilterRequest) (s : FilterAppService) (r : FilterResponse) (bytes : List ℕ)
    (c : MultiLevelCache)
    → (look_up json t (request_key req s) s).0 ≡ none
    → (look_up json t (request_key req s) s).1.cache ≡ some c
    → compute sort u json t (select_strategy req.strategy) req.text s.engine ≡ some r
    → json.marshal r ≡ some bytes
    → json.unmarshal bytes ≡ some r
    → is_refused (request_key req s) c.local ≡ false
    → t'.looked ≤ t.written + c.local.ttl
    → (s' : FilterAppService) × (filter_text sort u json t req s ≡ some (r, s'))
      × (filter_text sort u json t' req s' ≡ some (record r { cost_ms = milliseconds t' }, s'))
filter_text-again sort u json t t' req s r bytes c missed kept computed m d admitted early =
    let key = request_key req s in
    let s1 = (look_up json t key s).1 in
    let s2 = write_back json t key r s1 in
    let same : s2.engine ≡ s.engine =
      write_back-engine json t key r s1 ∙ look_up-engine json t key s in
    let found = look_up-write_back json t t' key r bytes s1 c kept m d admitted early in
    let same_key : request_key req s2 ≡ key =
      ap (λ e. request_key req (record s { engine = e })) same in
    let again : FilterResponse = record r { cost_ms = milliseconds t' } in
    let found' : look_up json t' (request_key req s2) s2 ≡ (some again, s2) =
      ap (λ k. look_up json t' k s2) same_key ∙ found in
    (
      s2,
      filter_text-computed sort u json t req s r missed computed,
      filter_text-cached sort u json t' req s2 again (ap (λ p. p.0) found')
          ∙ ap (λ p. some (again, p.1)) found',
    )
