-- ===== src/Tests/Calling.antt =====
-- The gRPC server at a concrete call.
use censorhub.Prelude.{
  ◌≡◌, refl, pos, true, false, ◌||◌, none, some, List, [], ◌∷◌, inl, arith, is_empty,
}
use censorhub.Text.{Text, runes}
use censorhub.Automaton.{search_normalized}
use censorhub.Domain.{max_risk_level}
use censorhub.Engine.{match_text}
use censorhub.Strategy.Apply.{apply_strategy}
use censorhub.Service.Filter.{FilterAppService, select_strategy, detect_text}
use censorhub.Rpc.{Call, rpc_detect, ProtoResponse, one, has_key, int32, serve_rpc}
use censorhub.Rpc.Laws.{Fits, of_proto_response, serve_rpc-detect_text}
use censorhub.Tests.Inputs.{ascii, sort_by_position}
use censorhub.Tests.Matching.{idle}
use censorhub.Tests.Serving.{json, timing, clean}
use censorhub.Tests.Requesting.{counting}

-- The least int32 and a wrap.
int32_test : int32 (pos 4294967295) ≡ int32 (pos 8589934591)
unfolding int32
int32_test = refl

abbrev quiet : FilterAppService
quiet = record { engine = idle; cache = none }

abbrev call : Call
call = record {
  request = rpc_detect (runes "a sin");
  metadata = some (runes "k" ∷ []);
  asked = 5;
  timing = timing;
  turns = [];
  cancelled = false;
}

abbrev keys : List Text
keys = runes "k" ∷ []

call-known : (is_empty keys || has_key keys call.metadata) ≡ true
unfolding has_key
call-known = refl

call-answered :
    detect_text sort_by_position ascii json timing
      (record { text = runes "a sin"; strategy = [] })
      quiet
    ≡ some (clean, quiet)
unfolding detect_text select_strategy match_text search_normalized apply_strategy max_risk_level
call-answered = refl

clean-Fits : Fits clean
clean-Fits = record { count = omega arith; risk = omega arith; matches = tt }

serve_rpc-detect_text_example :
    (p : ProtoResponse) × (serve_rpc sort_by_position ascii json counting keys call (quiet, 3)
      ≡ record { reply = inl (one p); state = some (quiet, (counting.allow call.asked 3).1) })
    × (of_proto_response p ≡ clean)
serve_rpc-detect_text_example =
    serve_rpc-detect_text sort_by_position ascii json counting keys call (runes "a sin") quiet quiet
      3 clean refl refl call-known refl call-answered clean-Fits
