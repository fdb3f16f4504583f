-- ===== src/Strategy/Replace.antt =====
-- internal/infrastructure/algorithm/strategy_replace.go. `none` is an index out of range.
pub mod Laws
use censorhub.Prelude.{
  ℕ, zero, suc, ◌-◌, ◌==◌, Bool, true, false, Option, none, some, List, [], ◌∷◌, ltb, if◌then◌else◌,
  ◌>>=◌, length, is_empty, map,
}
use censorhub.Text.{Text}
use censorhub.Domain.{MatchItem}

-- A write to a slot that is there.
unfoldable pub set_true : List Bool → ℕ → List Bool
set_true [] i = []
set_true (b ∷ bs) zero = true ∷ bs
set_true (b ∷ bs) (suc i) = b ∷ set_true bs i

-- `for i := m.Position; i < m.EndPos && i < len(masked); i++`, on the rounds left.
unfoldable pub mark_from : ℕ → ℕ → List Bool → List Bool
unfolding set_true
mark_from zero i masked = masked
mark_from (suc k) i masked =
    let rest = mark_from k (suc i) (set_true masked i) in
    if ltb i (length masked) then rest else masked

unfoldable pub mark_all : List MatchItem → List Bool → List Bool
unfolding mark_from
mark_all [] masked = masked
mark_all (m ∷ ms) masked = mark_all ms (mark_from (m.end_pos - m.position) m.position masked)

-- The loop that writes the runes, masked where the flag is set.
unfoldable pub write_masked : ℕ → Text → List Bool → Option Text
write_masked mask [] masked = some []
write_masked mask (r ∷ rs) [] = none
write_masked mask (r ∷ rs) (b ∷ masked) = do
  rest ← write_masked mask rs masked
  some ((if b then mask else r) ∷ rest)

unfoldable pub all_false : Text → List Bool
all_false [] = []
all_false (r ∷ rs) = false ∷ all_false rs

module _ (sort : List MatchItem → List MatchItem) where
  unfoldable pub replace_matches : Text → Text → List MatchItem → ℕ → Option Text
  unfolding mark_all write_masked all_false
  replace_matches original normalized matches mask =
      let sorted = sort matches in
      let masked = mark_all sorted (all_false normalized) in
      if is_empty matches
      then some original
      else if length original == length normalized
      then write_masked mask original masked
      else write_masked mask normalized masked
