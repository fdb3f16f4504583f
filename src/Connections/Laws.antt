-- ===== src/Connections/Laws.antt =====
-- What the log shows of a DSN, and the pool of MySQL.
use mathlib.Core.List.{append_assoc}
use censorhub.Prelude.{
  ℕ, suc, zero, ◌-◌, ◌≤◌, ◌≡◌, refl, ap, ◌∙◌, List, [], ◌∷◌, ◌++◌, length, length-append, take, ltb,
  arith, Bool-cases, inl, inr,
}
use censorhub.Text.{Text, runes}
use censorhub.Connections.{mask_dsn}

take-append {ℓ} :
    {A : Type ℓ} (n : ℕ) (a b : List A)
    → length a ≤ n
    → take n (a ++ b) ≡ a ++ take (n - length a) b
take-append n [] b h = let e : n - 0 ≡ n = omega arith in rw e refl
take-append zero (x ∷ a) b h = absurd (omega arith)
take-append (suc n) (x ∷ a) b h =
    let e : suc n - suc (length a) ≡ n - length a = omega arith in
    rw e (ap (λ t. x ∷ t) (take-append n a b (omega arith)))

length-take {ℓ} : {A : Type ℓ} (n : ℕ) (xs : List A) → length (take n xs) ≤ n
length-take zero xs = omega arith
length-take (suc n) [] = omega arith
length-take (suc n) (x ∷ xs) = omega (arith, length-take n xs)

-- A DSN starts with a user and a password.
abbrev pub credentials : Text → Text → Text
credentials user password = user ++ 58 ∷ password

-- The line of the log begins with the user and the password of a DSN, where these and the colon have
-- at most 20 bytes; it is never longer than 23.
pub mask_dsn-credentials :
    (user password rest : Text)
    → length (credentials user password) ≤ 20
    → ((shown : Text) × (mask_dsn (credentials user password ++ rest)
          ≡ credentials user password ++ shown))
      × (length (mask_dsn (credentials user password ++ rest)) ≤ 23)
unfolding mask_dsn
mask_dsn-credentials user password rest short =
    let known = credentials user password in
    let dsn = known ++ rest in
    elim (Bool-cases (ltb 20 (length dsn))) [
      | inr n ↦ ((rest, rw (mask_dsn, n) refl), rw (mask_dsn, n) (ground arith))
      | inl y ↦
          let sizes = length-append (take 20 dsn) (runes "...") in
          let few = length-take 20 dsn in
          (
            (
              take (20 - length known) rest ++ runes "...",
              rw (mask_dsn, y)
                  (ap (λ t. t ++ runes "...") (take-append 20 known rest short)
                    ∙ append_assoc known (take (20 - length known) rest) (runes "...")),
            ),
            rw (mask_dsn, y) (rw (sizes) (omega arith)),
          )
    ]
