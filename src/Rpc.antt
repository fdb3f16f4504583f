-- ===== src/Rpc.antt =====
-- internal/interfaces/grpc: the server of texts and the chain of interceptors of cmd/server/main.go.
-- The logging only observes, and is left out.
pub mod Laws
use censorhub.Prelude.{
  ℕ, ◌⊎◌, inl, inr, ◌+◌, ◌-◌, ◌*◌, ◌/◌, ◌%◌, ◌^◌, ℤ, pos, negsuc, Bool, true, false, Option, none,
  some, List, [], ◌∷◌, map, if◌then◌else◌, is_empty, ltb,
}
use censorhub.Text.{Text, Unicode, runes}
use censorhub.Domain.{MatchItem}
use censorhub.Service.Filter.{
  FilterRequest, FilterResponse, MatchDto, Timing, FilterAppService, Json, detect_text,
  replace_text,
}
use censorhub.Service.Batch.{BatchFilterRequest, BatchFilterResponse, Turn, batch_detect}
use censorhub.Web.Limiter.{Buckets}
use censorhub.Web.Middleware.{contains_text}

-- The conversion of an int to an int32.
unfoldable pub int32 : ℤ → ℤ
int32 (pos n) = let m = n % 2 ^ 32 in if ltb m (2 ^ 31) then pos m else negsuc (2 ^ 32 - 1 - m)
int32 (negsuc n) = let m = n % 2 ^ 32 in if ltb m (2 ^ 31) then negsuc m else pos (2 ^ 32 - 1 - m)

pub record ProtoMatch : Type 0 where
  pub word : Text
  pub position : ℤ
  pub end_position : ℤ
  pub category : Text
  pub level : ℤ

pub record ProtoResponse : Type 0 where
  pub original : Text
  pub filtered : Text
  pub is_hit : Bool
  pub hit_count : ℤ
  pub matches : List ProtoMatch
  pub risk_level : ℤ
  pub cost_ms : ℕ

pub record ProtoBatch : Type 0 where
  pub results : List ProtoResponse
  pub total : ℤ
  pub hit_num : ℤ

-- `&censorv1.FilterResponse{}`
abbrev pub empty_response : ProtoResponse
empty_response = record {
  original = [];
  filtered = [];
  is_hit = false;
  hit_count = pos 0;
  matches = [];
  risk_level = pos 0;
  cost_ms = 0;
}

unfoldable pub to_proto_match : MatchDto → ProtoMatch
unfolding int32
to_proto_match m = record {
  word = m.word;
  position = int32 (pos m.position);
  end_position = int32 (pos m.end_pos);
  category = m.category;
  level = int32 m.level;
}

unfoldable pub to_proto_response : Option FilterResponse → ProtoResponse
unfolding to_proto_match int32
to_proto_response none = empty_response
to_proto_response (some r) = record {
  original = r.original;
  filtered = r.filtered;
  is_hit = r.is_hit;
  hit_count = int32 (pos r.hit_count);
  matches = map to_proto_match r.matches;
  risk_level = int32 r.risk_level;
  cost_ms = r.cost_ms;
}

pub data Code : Type 0 where
  invalid_argument internal unauthenticated resource_exhausted : Code

-- A message or a status with the state after it, or a panic.
pub data Answer (S A : Type 0) : Type 0 where
  answered : A → S → Answer S A
  status : Code → S → Answer S A
  panicked : Answer S A

pub data Message : Type 0 where
  one : ProtoResponse → Message
  many : ProtoBatch → Message

-- What the proto requests carry.
pub data RpcRequest : Type 0 where
  rpc_detect : Text → RpcRequest
  rpc_replace : Text → RpcRequest
  rpc_batch : List Text → RpcRequest

-- A call: its request, the values of x-api-key where there are metadata, and what is read in it.
pub record Call : Type 0 where
  pub request : RpcRequest
  pub metadata : Option (List Text)
  pub asked : ℕ
  pub timing : Timing
  pub turns : List Turn
  pub cancelled : Bool

-- The message or the status of a call.
pub record RpcServed (S : Type 0) : Type 0 where
  pub reply : Message ⊎ Code
  pub state : Option S

abbrev pub UnaryHandler : Type 0 → Type 0
UnaryHandler S = Call → S → Answer S Message

module _ (sort : List MatchItem → List MatchItem) (u : Unicode) (json : Json) where
  -- `Detect` and `Replace`: `Filter` never returns an error.
  unfoldable pub serve_text :
      (Timing → FilterRequest → FilterAppService → Option (FilterResponse × FilterAppService))
      → Timing
      → Text
      → FilterAppService
      → Answer FilterAppService Message
  unfolding to_proto_response
  serve_text call t text s =
      if is_empty text
      then status invalid_argument s
      else elim (call t (record { text = text; strategy = [] }) s) [
        | none ↦ panicked
        | some (r, s') ↦ answered (one (to_proto_response (some r))) s'
      ]

  unfoldable pub serve_batch :
      Timing → List Turn → Bool → List Text → FilterAppService → Answer FilterAppService Message
  unfolding to_proto_response batch_detect
  serve_batch t turns cancelled texts s =
      if is_empty texts
      then status invalid_argument s
      else elim (batch_detect sort u json turns cancelled (record { texts = texts; strategy = [] })
          s) [
            | none ↦ panicked
            | some (none, s') ↦ status internal s'
            | some (some b, s') ↦
                answered
                  (many (record {
                    results = map to_proto_response b.results;
                    total = int32 (pos b.total);
                    hit_num = int32 (pos b.hit_num);
                  }))
                  s'
          ]

  unfoldable pub serve_request : UnaryHandler FilterAppService
  unfolding serve_text serve_batch detect_text replace_text
  serve_request c s = elim c.request [
    | rpc_detect text ↦ serve_text (detect_text sort u json) c.timing text s
    | rpc_replace text ↦ serve_text (replace_text sort u json) c.timing text s
    | rpc_batch texts ↦ serve_batch c.timing c.turns c.cancelled texts s
  ]

-- The first value of the key counts.
unfoldable pub has_key : List Text → Option (List Text) → Bool
unfolding contains_text
has_key api_keys none = false
has_key api_keys (some []) = false
has_key api_keys (some (key ∷ keys)) = contains_text key api_keys

module _ {S : Type 0} where
  unfoldable pub auth_interceptor : List Text → UnaryHandler S → UnaryHandler S
  unfolding has_key
  auth_interceptor api_keys next c s =
      if is_empty api_keys
      then next c s
      else if has_key api_keys c.metadata
      then next c s
      else status unauthenticated s

  -- A panic is the status `codes.Internal`; what it leaves of the state is not followed.
  unfoldable pub recovery_interceptor : UnaryHandler S → Call → S → RpcServed S
  recovery_interceptor next c s = elim (next c s) [
    | answered m s' ↦ record { reply = inl m; state = some s' }
    | status code s' ↦ record { reply = inr code; state = some s' }
    | panicked ↦ record { reply = inr internal; state = none }
  ]

-- One bucket for all calls.
module _ {S L : Type 0} (buckets : Buckets L) where
  unfoldable pub rate_limit_interceptor : UnaryHandler S → UnaryHandler (S × L)
  rate_limit_interceptor next c (s, limiter) =
      let (allowed, limiter') = buckets.allow c.asked limiter in
      if allowed
      then elim (next c s) [
        | answered m s' ↦ answered m (s', limiter')
        | status code s' ↦ status code (s', limiter')
        | panicked ↦ panicked
      ]
      else status resource_exhausted (s, limiter')

-- The chain of `grpc.ChainUnaryInterceptor` in front of the server.
module _ (sort : List MatchItem → List MatchItem) (u : Unicode) (json : Json) {L : Type 0}
    (buckets : Buckets L) (api_keys : List Text) where
  unfoldable pub serve_rpc : Call → FilterAppService × L → RpcServed (FilterAppService × L)
  unfolding recovery_interceptor rate_limit_interceptor auth_interceptor serve_request
  serve_rpc =
      recovery_interceptor
        (rate_limit_interceptor buckets (auth_interceptor api_keys (serve_request sort u json)))
