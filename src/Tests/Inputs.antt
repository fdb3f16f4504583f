-- ===== src/Tests/Inputs.antt =====
-- Concrete stand-ins for what the program takes from outside, and the inputs of the tests.
use mathlib.Core.List.{Perm}
use mathlib.Core.List.Perm
use censorhub.Prelude.{
  ℕ, ◌+◌, ◌≤◌, inl, inr, pos, List, [], ◌∷◌, leb, ◌==◌, ◌&&◌, if◌then◌else◌, arith, Bool-cases,
}
use censorhub.Text.{Unicode, runes}
use censorhub.Domain.{MatchItem, category_ad, category_abuse}
use censorhub.Automaton.{WordEntry, Edge}
use censorhub.Automaton.Levels.{VisitsAll}
use censorhub.Strategy.Sort.{Above, SortsByPosition}

-- Texts in ASCII: their NFKC form is the text itself.
abbrev pub ascii : Unicode
ascii = record {
  nfkc = λ t. t;
  to_lower = λ r. if leb 0x41 r && leb r 0x5A then r + 0x20 else r;
  is_space = λ r. r == 0x20;
}

-- The children in the order in which they are kept.
abbrev pub keep_order : ℕ → List Edge → List Edge
keep_order a es = es

pub keep_order-VisitsAll : VisitsAll keep_order
keep_order-VisitsAll = record { visits = λ a es. Perm.refl es }

-- An insertion sort by position.
abbrev pub insert_by_position : MatchItem → List MatchItem → List MatchItem
insert_by_position m [] = m ∷ []
insert_by_position m (n ∷ ms) =
    let rest = insert_by_position m ms in if leb m.position n.position then m ∷ n ∷ ms else n ∷ rest

abbrev pub sort_by_position : List MatchItem → List MatchItem
sort_by_position [] = []
sort_by_position (m ∷ ms) = insert_by_position m (sort_by_position ms)

insert-perm : (m : MatchItem) (ms : List MatchItem) → Perm (insert_by_position m ms) (m ∷ ms)
insert-perm m [] = Perm.refl (m ∷ [])
insert-perm m (n ∷ ms) = elim (Bool-cases (leb m.position n.position)) [
  | inl y ↦ rw y (Perm.refl (m ∷ n ∷ ms))
  | inr k ↦ rw k (Perm.trans (Perm.cons n (insert-perm m ms)) (Perm.swap m n ms))
]

sort-perm : (ms : List MatchItem) → Perm (sort_by_position ms) ms
sort-perm [] = Perm.refl []
sort-perm (m ∷ ms) = Perm.trans (insert-perm m (sort_by_position ms)) (Perm.cons m (sort-perm ms))

insert-Above :
    (p : ℕ) (m : MatchItem) (ms : List MatchItem)
    → p ≤ m.position
    → Above p ms
    → Above p (insert_by_position m ms)
insert-Above p m [] low above = (low, tt)
insert-Above p m (n ∷ ms) low (up, above) = elim (Bool-cases (leb m.position n.position)) [
  | inl y ↦ rw y (low, (ground arith, above))
  | inr k ↦ rw k (up, insert-Above n.position m ms (ground arith) above)
]

sort-Above : (ms : List MatchItem) → Above 0 (sort_by_position ms)
sort-Above [] = tt
sort-Above (m ∷ ms) = insert-Above 0 m (sort_by_position ms) (omega arith) (sort-Above ms)

pub sort_by_position-SortsByPosition : SortsByPosition sort_by_position
sort_by_position-SortsByPosition = record { permutes = sort-perm; sorted = sort-Above }

-- Words that overlap: one is a suffix of another, and one a prefix of the rest of a third.
abbrev pub entries : List WordEntry
entries =
    record { text = runes "Casino"; category = category_ad; level = pos 2 }
    ∷ record { text = runes "sin"; category = category_abuse; level = pos 1 }
    ∷ record { text = runes "no"; category = category_abuse; level = pos 3 }
    ∷ []
