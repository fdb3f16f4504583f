-- ===== src/Prelude/Maps.antt =====
-- A store addressed by numbers: a function, and the write of one cell.
use Prim.Native.Nat.{ℕ}
use mathlib.Core.Path.{◌≡◌}
use mathlib.Core.Logic.{◌≢◌}
use native.Mathlib.Omega.{arith}
use censorhub.Prelude.Tests.{◌==◌, if◌then◌else◌}

module _ {ℓ} {A : Type ℓ} where
  abbrev pub update : (ℕ → A) → ℕ → A → ℕ → A
  update f a v b = if b == a then v else f b

  pub update_self : (f : ℕ → A) (a : ℕ) (v : A) → update f a v a ≡ v
  update_self f a v = ground arith

  pub update_ne : (f : ℕ → A) (a : ℕ) (v : A) (b : ℕ) → b ≢ a → update f a v b ≡ f b
  update_ne f a v b h = ground arith
