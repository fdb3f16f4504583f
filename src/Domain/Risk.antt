-- ===== src/Domain/Risk.antt =====
-- internal/domain/valueobject/filter_result.go: what the maximum of the risk levels promises.
use mathlib.Core.List.{Memᴰ}
use censorhub.Prelude.{
  ℤ, pos, ◌≤ℤ◌, ltbℤ, ltbℤ-false, ltbℤ-true, ◌≡◌, ◌⊎◌, inl, inr, refl, List, [], ◌∷◌, All, arith,
  Bool-cases,
}
use censorhub.Domain.{MatchItem, max_from, max_risk_level}

≤ℤ_trans : (a b c : ℤ) → a ≤ℤ b → b ≤ℤ c → a ≤ℤ c
≤ℤ_trans a b c h k = omega arith

-- `m` bounds the levels of the matches, and is the start value or one of them.
pub record IsMaximum (start : ℤ) (ms : List MatchItem) (m : ℤ) : Type 0 where
  pub above_start : start ≤ℤ m
  pub upper : All (λ (x : MatchItem). x.level ≤ℤ m) ms
  pub attained : (m ≡ start) ⊎ ((x : MatchItem) × Memᴰ x ms × (m ≡ x.level))

max_from-IsMaximum : (start : ℤ) (ms : List MatchItem) → IsMaximum start ms (max_from start ms)
unfolding max_from
max_from-IsMaximum start [] = record { above_start = omega arith; upper = tt; attained = inl refl }
max_from-IsMaximum start (m ∷ ms) = elim (Bool-cases (ltbℤ start m.level)) [
  | inl y ↦
      let rest = max_from-IsMaximum m.level ms in
      rw y (record {
        above_start = ≤ℤ_trans start m.level _ (ltbℤ-true start m.level y) rest.above_start;
        upper = (rest.above_start, rest.upper);
        attained = elim rest.attained [
          | inl e ↦ inr (m, Memᴰ.head refl, e)
          | inr (x, mem, e) ↦ inr (x, Memᴰ.tail mem, e)
        ];
      })
  | inr n ↦
      let rest = max_from-IsMaximum start ms in
      rw n (record {
        above_start = rest.above_start;
        upper =
            (≤ℤ_trans m.level start _ (ltbℤ-false start m.level n) rest.above_start, rest.upper);
        attained = elim rest.attained [
          | inl e ↦ inl e
          | inr (x, mem, e) ↦ inr (x, Memᴰ.tail mem, e)
        ];
      })
]

pub max_risk_level-IsMaximum : (ms : List MatchItem) → IsMaximum (pos 0) ms (max_risk_level ms)
unfolding max_risk_level
max_risk_level-IsMaximum ms = max_from-IsMaximum (pos 0) ms
