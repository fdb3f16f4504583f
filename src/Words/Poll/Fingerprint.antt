-- ===== src/Words/Poll/Fingerprint.antt =====
-- The fingerprint of the active words against the writes of the word service: a write whose time is
-- later than those in the table cannot hide behind the fingerprint of the table.
use censorhub.Prelude.{
  ℕ, ◌≤◌, ◌<◌, ◌≡◌, refl, ap, ◌==◌, pos, eqℤ, true, List, [], ◌∷◌, length, All, arith, Bool-cases,
  inl, inr,
}
use censorhub.Domain.Word.{SensitiveWord}
use censorhub.Words.Table.{delete_row, find_all_active, put_row}
use censorhub.Words.Poll.{max_of, active_fingerprint, same_fingerprint}

-- The second list is what later writes made of the first: rows were lost, kept, or written after the
-- time `at`.
pub data Aged (at : ℕ) : List SensitiveWord → List SensitiveWord → Type 0 where
  start : Aged at [] []
  fresh :
      {xs ys : List SensitiveWord} (w : SensitiveWord)
      → at < w.updated_at
      → Aged at xs ys
      → Aged at xs (w ∷ ys)
  kept :
      {xs ys : List SensitiveWord} (w : SensitiveWord) → Aged at xs ys → Aged at (w ∷ xs) (w ∷ ys)
  lost : {xs ys : List SensitiveWord} (w : SensitiveWord) → Aged at xs ys → Aged at (w ∷ xs) ys

module _ (at : ℕ) where
  pub Aged-refl : (xs : List SensitiveWord) → Aged at xs xs
  Aged-refl [] = Aged.start
  Aged-refl (w ∷ xs) = Aged.kept w (Aged-refl xs)

  pub delete_row-Aged :
      (id : ℕ) {xs ys : List SensitiveWord} → Aged at xs ys → Aged at xs (delete_row id ys)
  unfolding delete_row
  delete_row-Aged id Aged.start = Aged.start
  delete_row-Aged id (Aged.fresh w late h) = elim (Bool-cases (w.id == id)) [
    | inl y ↦ rw y (delete_row-Aged id h)
    | inr n ↦ rw n (Aged.fresh w late (delete_row-Aged id h))
  ]
  delete_row-Aged id (Aged.kept w h) = elim (Bool-cases (w.id == id)) [
    | inl y ↦ rw y (Aged.lost w (delete_row-Aged id h))
    | inr n ↦ rw n (Aged.kept w (delete_row-Aged id h))
  ]
  delete_row-Aged id (Aged.lost w h) = Aged.lost w (delete_row-Aged id h)

  pub put_row-Aged :
      (word : SensitiveWord) {xs ys : List SensitiveWord}
      → at < word.updated_at
      → Aged at xs ys
      → Aged at xs (put_row word ys)
  unfolding put_row
  put_row-Aged word late Aged.start = Aged.start
  put_row-Aged word late (Aged.fresh w l h) = elim (Bool-cases (w.id == word.id)) [
    | inl y ↦ rw y (Aged.fresh word late h)
    | inr n ↦ rw n (Aged.fresh w l (put_row-Aged word late h))
  ]
  put_row-Aged word late (Aged.kept w h) = elim (Bool-cases (w.id == word.id)) [
    | inl y ↦ rw y (Aged.fresh word late (Aged.lost w h))
    | inr n ↦ rw n (Aged.kept w (put_row-Aged word late h))
  ]
  put_row-Aged word late (Aged.lost w h) = Aged.lost w (put_row-Aged word late h)

  -- Where no later write is active, the active rows are some of the old ones, and all of them if
  -- there are as many.
  Aged-active :
      {xs ys : List SensitiveWord}
      → Aged at xs ys
      → All (λ (w : SensitiveWord). w.updated_at ≤ at) (find_all_active ys)
      → (length (find_all_active ys) ≤ length (find_all_active xs))
        × (length (find_all_active ys) ≡ length (find_all_active xs)
            → find_all_active ys ≡ find_all_active xs)
  unfolding find_all_active
  Aged-active Aged.start old = (omega arith, λ e. refl)
  Aged-active (Aged.fresh w late h) old = elim (Bool-cases (eqℤ w.status (pos 1))) [
    | inl y ↦ let (early, rest) = rw (y) at old in absurd (omega arith)
    | inr n ↦ rw n (Aged-active h (rw (n) at old))
  ]
  Aged-active (Aged.kept w h) old = elim (Bool-cases (eqℤ w.status (pos 1))) [
    | inl y ↦
        let (early, rest) = rw (y) at old in
        let (few, same) = Aged-active h rest in
        rw y (omega arith, λ e. ap (λ ws. w ∷ ws) (same (omega arith)))
    | inr n ↦ rw n (Aged-active h (rw (n) at old))
  ]
  Aged-active (Aged.lost w h) old = elim (Bool-cases (eqℤ w.status (pos 1))) [
    | inl y ↦ let (few, same) = Aged-active h old in rw y (omega arith, λ e. absurd (omega arith))
    | inr n ↦ rw n (Aged-active h old)
  ]

All-mono :
    (P Q : SensitiveWord → Type 0) (ws : List SensitiveWord)
    → ((w : SensitiveWord) → P w → Q w)
    → All P ws
    → All Q ws
All-mono P Q [] f h = tt
All-mono P Q (w ∷ ws) f (first, rest) = (f w first, All-mono P Q ws f rest)

max_of-upper : (f : SensitiveWord → ℕ) (ws : List SensitiveWord) → All (λ w. f w ≤ max_of f ws) ws
unfolding max_of
max_of-upper f [] = tt
max_of-upper f (w ∷ ws) = (
  ground arith,
  All-mono (λ v. f v ≤ max_of f ws) (λ v. f v ≤ max_of f (w ∷ ws)) ws
      (λ v h. unfold max_of in ground arith) (max_of-upper f ws),
)

max_of-least :
    (f : SensitiveWord → ℕ) (n : ℕ) (ws : List SensitiveWord)
    → All (λ w. f w ≤ n) ws
    → max_of f ws ≤ n
unfolding max_of
max_of-least f n [] h = omega arith
max_of-least f n (w ∷ ws) (first, rest) = let least = max_of-least f n ws rest in ground arith

find_all_active-All :
    (P : SensitiveWord → Type 0) (ws : List SensitiveWord) → All P ws → All P (find_all_active ws)
unfolding find_all_active
find_all_active-All P [] h = tt
find_all_active-All P (w ∷ ws) (first, rest) = elim (Bool-cases (eqℤ w.status (pos 1))) [
  | inl y ↦ rw y (first, find_all_active-All P ws rest)
  | inr n ↦ rw n (find_all_active-All P ws rest)
]

-- Rows of the same fingerprint, where one list was made of the other by later writes, have the same
-- active words.
pub same_fingerprint-active :
    (at : ℕ) (xs ys : List SensitiveWord)
    → Aged at xs ys
    → All (λ (w : SensitiveWord). w.updated_at ≤ at) xs
    → same_fingerprint (active_fingerprint ys) (active_fingerprint xs) ≡ true
    → find_all_active ys ≡ find_all_active xs
unfolding same_fingerprint active_fingerprint
same_fingerprint-active at xs ys aged old e =
    let stamp : SensitiveWord → ℕ = λ w. w.updated_at in
    let counts : length (find_all_active ys) ≡ length (find_all_active xs) = ground arith in
    let stamps : max_of stamp (find_all_active ys) ≡ max_of stamp (find_all_active xs) =
      ground arith in
    let least =
      max_of-least stamp at (find_all_active xs)
        (find_all_active-All (λ w. w.updated_at ≤ at) xs old) in
    let late =
      All-mono (λ w. w.updated_at ≤ max_of stamp (find_all_active ys)) (λ w. w.updated_at ≤ at)
        (find_all_active ys) (λ w h. omega arith) (max_of-upper stamp (find_all_active ys)) in
    (Aged-active at aged late).1 counts
