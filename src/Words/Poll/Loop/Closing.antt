-- ===== src/Words/Poll/Loop/Closing.antt =====
-- Start and Close of the word service in any order: how many loops there are, and which of them end.
use censorhub.Prelude.{ℕ, suc, ◌≡◌, refl, Bool, true, false, List, [], ◌∷◌, if◌then◌else◌}
use censorhub.Words.Poll.Loop.{
  Lifecycle, LifeCall, starts, closes, start_service, close_service, new_lifecycle, run_calls,
}

unfoldable pub some_start : List LifeCall → Bool
some_start [] = false
some_start (starts ∷ calls) = true
some_start (closes ∷ calls) = some_start calls

unfoldable pub some_close : List LifeCall → Bool
some_close [] = false
some_close (starts ∷ calls) = some_close calls
some_close (closes ∷ calls) = true

abbrev life : Bool → Bool → ℕ → Bool → Lifecycle
life has once n cancelled = record {
  has_cancel = has;
  closed_once = once;
  loops = n;
  cancelled = cancelled;
}

started-loops :
    (calls : List LifeCall) (once : Bool) (n : ℕ) (cancelled : Bool)
    → (run_calls calls (life true once n cancelled)).loops ≡ n
unfolding run_calls start_service close_service
started-loops [] once n cancelled = refl
started-loops (starts ∷ calls) once n cancelled = started-loops calls once n cancelled
started-loops (closes ∷ calls) false n cancelled = started-loops calls true n true
started-loops (closes ∷ calls) true n cancelled = started-loops calls true n cancelled

begun-loops :
    (calls : List LifeCall) (once : Bool) (n : ℕ) (cancelled : Bool)
    → (run_calls calls (life false once n cancelled)).loops
      ≡ (if some_start calls then suc n else n)
unfolding run_calls start_service close_service some_start
begun-loops [] once n cancelled = refl
begun-loops (starts ∷ calls) once n cancelled = started-loops calls once (suc n) cancelled
begun-loops (closes ∷ calls) false n cancelled = begun-loops calls true n false
begun-loops (closes ∷ calls) true n cancelled = begun-loops calls true n cancelled

closed-cancelled :
    (calls : List LifeCall) (has : Bool) (n : ℕ) (cancelled : Bool)
    → (run_calls calls (life has true n cancelled)).cancelled ≡ cancelled
unfolding run_calls start_service close_service
closed-cancelled [] has n cancelled = refl
closed-cancelled (starts ∷ calls) false n cancelled = closed-cancelled calls true (suc n) cancelled
closed-cancelled (starts ∷ calls) true n cancelled = closed-cancelled calls true n cancelled
closed-cancelled (closes ∷ calls) has n cancelled = closed-cancelled calls has n cancelled

started-cancelled :
    (calls : List LifeCall) (n : ℕ)
    → (run_calls calls (life true false n false)).cancelled ≡ some_close calls
unfolding run_calls start_service close_service some_close
started-cancelled [] n = refl
started-cancelled (starts ∷ calls) n = started-cancelled calls n
started-cancelled (closes ∷ calls) n = closed-cancelled calls true n true

-- Whatever the calls of Start and Close on a new service, one loop begins if Start is among them, and
-- none otherwise. Where the first call is Start, its loop is told to end exactly if Close follows; where
-- the first call is Close, no loop is ever told to end, however often Start and Close follow.
pub run_calls-loops :
    (calls : List LifeCall)
    → ((run_calls calls new_lifecycle).loops ≡ (if some_start calls then 1 else 0))
      × ((run_calls (starts ∷ calls) new_lifecycle).cancelled ≡ some_close calls)
      × ((run_calls (closes ∷ calls) new_lifecycle).cancelled ≡ false)
unfolding run_calls start_service close_service
run_calls-loops calls = (
  begun-loops calls false 0 false,
  started-cancelled calls 1,
  closed-cancelled calls false 0 false,
)
