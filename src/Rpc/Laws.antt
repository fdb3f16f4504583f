-- ===== src/Rpc/Laws.antt =====
-- What a gRPC call answers.
use censorhub.Prelude.{
  ◌%◌, ◌^◌, ◌<◌, ◌≡◌, refl, ℤ, pos, negsuc, pos_part, true, false, ◌||◌, some, List, [], ◌∷◌, map,
  All, arith, is_empty, ltb, inl, inr, Bool-cases,
}
use censorhub.Text.{Text, Unicode}
use censorhub.Domain.{MatchItem}
use censorhub.Service.Filter.{FilterResponse, MatchDto, FilterAppService, Json, detect_text}
use censorhub.Web.Limiter.{Buckets}
use censorhub.Rpc.{
  int32, ProtoMatch, ProtoResponse, to_proto_match, to_proto_response, Call, rpc_detect, one,
  has_key, serve_text, serve_request, auth_interceptor, rate_limit_interceptor,
  recovery_interceptor, serve_rpc,
}

-- A number that an int32 holds.
abbrev pub FitsInt32 : ℤ → Type 0
FitsInt32 (pos n) = n < 2 ^ 31
FitsInt32 (negsuc n) = n < 2 ^ 31

int32_id : (n : ℤ) → FitsInt32 n → int32 n ≡ n
unfolding int32
int32_id (pos n) h =
    let small : n % 2 ^ 32 ≡ n = omega arith in
    let below : ltb n (2 ^ 31) ≡ true = ground arith in rw (small, below) refl
int32_id (negsuc n) h =
    let small : n % 2 ^ 32 ≡ n = omega arith in
    let below : ltb n (2 ^ 31) ≡ true = ground arith in rw (small, below) refl

-- The response that a client reads.
unfoldable pub of_proto_match : ProtoMatch → MatchDto
of_proto_match m = record {
  word = m.word;
  position = pos_part m.position;
  end_pos = pos_part m.end_position;
  category = m.category;
  level = m.level;
}

unfoldable pub of_proto_response : ProtoResponse → FilterResponse
unfolding of_proto_match
of_proto_response r = record {
  original = r.original;
  filtered = r.filtered;
  is_hit = r.is_hit;
  hit_count = pos_part r.hit_count;
  matches = map of_proto_match r.matches;
  risk_level = r.risk_level;
  cost_ms = r.cost_ms;
}

abbrev pub MatchFits : MatchDto → Type 0
MatchFits m = (m.position < 2 ^ 31) × (m.end_pos < 2 ^ 31) × FitsInt32 m.level

-- The numbers of a response lie within an int32.
pub record Fits (r : FilterResponse) : Type 0 where
  pub count : r.hit_count < 2 ^ 31
  pub risk : FitsInt32 r.risk_level
  pub matches : All MatchFits r.matches

of_proto_match-to_proto_match : (m : MatchDto) → MatchFits m → of_proto_match (to_proto_match m) ≡ m
unfolding of_proto_match to_proto_match
of_proto_match-to_proto_match m (p, e, l) =
    rw (int32_id (pos m.position) p, int32_id (pos m.end_pos) e, int32_id m.level l) refl

matches-same :
    (ms : List MatchDto) → All MatchFits ms → map of_proto_match (map to_proto_match ms) ≡ ms
matches-same [] h = refl
matches-same (m ∷ ms) (first, rest) =
    λ i. of_proto_match-to_proto_match m first i ∷ matches-same ms rest i

of_proto_response-to_proto_response :
    (r : FilterResponse) → Fits r → of_proto_response (to_proto_response (some r)) ≡ r
unfolding of_proto_response to_proto_response
of_proto_response-to_proto_response r fits =
    rw
      (
        int32_id (pos r.hit_count) fits.count,
        int32_id r.risk_level fits.risk,
        matches-same r.matches fits.matches,
      )
      refl

module _ (sort : List MatchItem → List MatchItem) (u : Unicode) (json : Json) {L : Type 0}
    (buckets : Buckets L) (api_keys : List Text) where
  -- A call of Detect with a text that is not empty, with a configured key where there are any, and let
  -- through by the bucket, is answered with the response of the filter service, from which a client
  -- reads every field as it was if the numbers fit in 32 bits.
  pub serve_rpc-detect_text :
      (c : Call) (text : Text) (s s' : FilterAppService) (limiter : L) (r : FilterResponse)
      → c.request ≡ rpc_detect text
      → is_empty text ≡ false
      → (is_empty api_keys || has_key api_keys c.metadata) ≡ true
      → (buckets.allow c.asked limiter).0 ≡ true
      → detect_text sort u json c.timing (record { text = text; strategy = [] }) s ≡ some (r, s')
      → Fits r
      → (p : ProtoResponse) × (serve_rpc sort u json buckets api_keys c (s, limiter)
          ≡ record { reply = inl (one p); state = some (s', (buckets.allow c.asked limiter).1) })
        × (of_proto_response p ≡ r)
  unfolding serve_rpc recovery_interceptor rate_limit_interceptor auth_interceptor serve_request
      serve_text
  serve_rpc-detect_text c text s s' limiter r asked full known allowed called fits = (
    to_proto_response (some r),
    elim (Bool-cases (is_empty api_keys)) [
      | inl bare ↦
          rw
            (
              serve_rpc, recovery_interceptor, rate_limit_interceptor, allowed, auth_interceptor,
              bare, asked, full, called,
            )
            refl
      | inr keyed ↦
          let fits_key : has_key api_keys c.metadata ≡ true = rw (keyed) at known in
          rw
            (
              serve_rpc, recovery_interceptor, rate_limit_interceptor, allowed, auth_interceptor,
              keyed, fits_key, asked, full, called,
            )
            refl
    ],
    of_proto_response-to_proto_response r fits,
  )
