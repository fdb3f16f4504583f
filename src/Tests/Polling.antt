-- ===== src/Tests/Polling.antt =====
-- The theorems about the poll of fingerprints at concrete inputs.
use censorhub.Prelude.{
  if◌then◌else◌, ◌+◌, ◌%◌, ◌^◌, ◌≡◌, refl, true, false, Option, none, some, List, [], ◌∷◌, ◌++◌,
  arith,
}
use censorhub.Text.{text_eq}
use censorhub.Domain.Word.{SensitiveWord}
use censorhub.Engine.{FilterEngine, engine_version}
use censorhub.Engine.Rebuild.{match_text-rebuild}
use censorhub.Words.Requests.{imports}
use censorhub.Words.Poll.Loop.{
  unread, loaded, PollTurn, Instance, poll_loop, LifeCall, starts, closes, new_lifecycle, run_calls,
}
use censorhub.Words.Poll.Loop.Laws.{Rising, ended, risen, table_after, poll_loop-IsFresh}
use censorhub.Words.Poll.Loop.Rounds.{IsFresh}
use censorhub.Words.Poll.Loop.Closing.{some_start, some_close, run_calls-loops}
use censorhub.Words.Poll.Passing.{reconcile_once-deleted}
use censorhub.Tests.Managing.{
  up, casino, shown, one_word, no_words-IsWellFormed, casino-created, casino-deleted, no_words,
  requests,
}
use censorhub.Service.Filter.Laws.{Serves}
use censorhub.Cache.MultiLevel.{replied}
use censorhub.Words.Table.{find_all_active}
use censorhub.Words.Poll.{
  WordFingerprint, active_fingerprint, same_fingerprint, PollState, Sweep, reconcile_once,
  init_engine,
}
use censorhub.Words.Poll.Laws.{Forgets, failures, reconcile_once-Serves, init_engine-stale}
use censorhub.Tests.Inputs.{ascii, keep_order, keep_order-VisitsAll}
use censorhub.Tests.Serving.{levels}
use censorhub.Tests.Matching.{word_list, idle}

abbrev sweep : Sweep
sweep = record { asked = 1; answered = 2; reply = replied tt }

abbrev nothing_read : WordFingerprint
nothing_read = record { count = 0; max_id = 0; max_updated = 0 }

abbrev one_read : WordFingerprint
one_read = record { count = 1; max_id = 1; max_updated = 5 }

abbrev polling : PollState
polling = record { engine = idle; last = nothing_read; cache = some levels }

one_read-differs : same_fingerprint one_read polling.last ≡ false
unfolding same_fingerprint
one_read-differs = refl

reconcile_once-Serves_example :
    (s' : PollState) × (reconcile_once keep_order ascii
        (some one_read)
        (failures 1 ++ some word_list ∷ [])
        sweep
        polling
      ≡ some s')
    × Serves ascii word_list s'.engine
    × (engine_version s'.engine ≡ (engine_version polling.engine + 1) % 2 ^ 64)
    × (s'.last ≡ one_read)
    × Forgets polling.cache s'.cache
reconcile_once-Serves_example =
    reconcile_once-Serves keep_order keep_order-VisitsAll ascii 1 word_list [] one_read sweep
      polling (omega arith) one_read-differs

init_engine-stale_example :
    (s' : PollState) × (init_engine keep_order ascii
        (some (find_all_active []))
        (some (active_fingerprint word_list))
        polling
      ≡ some (s', true))
    × Serves ascii (find_all_active []) s'.engine
    × ((replies : List (Option (List SensitiveWord))) (w : Sweep)
        → reconcile_once keep_order ascii (some (active_fingerprint word_list)) replies w s'
          ≡ some s')
init_engine-stale_example =
    init_engine-stale keep_order keep_order-VisitsAll ascii [] word_list polling

abbrev emptied : FilterEngine
emptied = (match_text-rebuild keep_order keep_order-VisitsAll ascii idle []).0

emptied-Serves : Serves ascii (find_all_active no_words.rows) emptied
unfolding Serves find_all_active
emptied-Serves = (match_text-rebuild keep_order keep_order-VisitsAll ascii idle []).4

abbrev settled : PollState
settled = record { engine = emptied; last = nothing_read; cache = none }

settled-known : settled.last ≡ active_fingerprint no_words.rows
unfolding active_fingerprint
settled-known = refl

abbrev good_turn : PollTurn
good_turn = record {
  requests = (up, 9, imports (casino ∷ [])) ∷ [];
  outcome = loaded 2;
  sweep = sweep;
}

abbrev bad_turns : List PollTurn
bad_turns =
    record { requests = requests; outcome = unread; sweep = sweep }
    ∷ record { requests = []; outcome = loaded 5; sweep = sweep }
    ∷ []

turns-Rising : Rising 0 (bad_turns ++ good_turn ∷ [])
turns-Rising =
    risen 8 (omega arith) (omega arith, (omega arith, (omega arith, (omega arith, tt))))
      (omega arith, (omega arith, (omega arith, (omega arith, tt))))
      (risen 8 (omega arith) tt tt
        (risen 9 (omega arith) (omega arith, tt) (omega arith, tt) ended))

abbrev emptied_instance : Instance
emptied_instance = record { table = no_words; poll = settled }

poll_loop-IsFresh_example :
    (w' : Instance) × (poll_loop keep_order ascii text_eq
        (bad_turns ++ good_turn ∷ [])
        emptied_instance
      ≡ some w')
    × (w'.table ≡ table_after ascii text_eq (bad_turns ++ good_turn ∷ []) no_words)
    × IsFresh ascii w'
poll_loop-IsFresh_example =
    poll_loop-IsFresh keep_order keep_order-VisitsAll ascii text_eq bad_turns good_turn 2 0
      emptied_instance refl (omega arith) turns-Rising tt settled-known emptied-Serves

abbrev calls : List LifeCall
calls = starts ∷ closes ∷ []

run_calls-loops_example :
    ((run_calls calls new_lifecycle).loops ≡ (if some_start calls then 1 else 0))
    × ((run_calls (starts ∷ calls) new_lifecycle).cancelled ≡ some_close calls)
    × ((run_calls (closes ∷ calls) new_lifecycle).cancelled ≡ false)
run_calls-loops_example = run_calls-loops calls

abbrev behind : PollState
behind = record { engine = idle; last = one_read; cache = none }

behind-differs : same_fingerprint (active_fingerprint no_words.rows) behind.last ≡ false
unfolding same_fingerprint active_fingerprint
behind-differs = refl

reconcile_once-deleted_example :
    (row : SensitiveWord) × (s' : PollState) × (find_all_active one_word.rows
      ≡ row ∷ find_all_active [])
    × (reconcile_once keep_order ascii
          (some (active_fingerprint no_words.rows))
          (some (find_all_active one_word.rows) ∷ [])
          sweep
          behind
        ≡ some s')
    × Serves ascii (row ∷ find_all_active []) s'.engine
    × ((replies : List (Option (List SensitiveWord))) (w' : Sweep)
        → reconcile_once keep_order ascii (some (active_fingerprint [])) replies w' s' ≡ some s')
reconcile_once-deleted_example =
    reconcile_once-deleted keep_order keep_order-VisitsAll ascii text_eq up up 5 casino shown
      no_words one_word (record one_word { rows = [] }) behind sweep [] no_words-IsWellFormed
      casino-created casino-deleted behind-differs
