-- ===== src/Cache/Table.antt =====
-- A Go map from strings: its entries, each key once.
use censorhub.Prelude.{
  suc, ◌≤◌, ◌≡◌, refl, sym, ap, Bool, true, Option, none, some, List, [], ◌∷◌, if◌then◌else◌,
  length, arith, Bool-cases, inl, inr,
}
use censorhub.Text.{Text, text_eq, text_eq_sound}

unfoldable pub lookup {ℓ} : {A : Type ℓ} → Text → List (Text × A) → Option A
lookup key [] = none
lookup key ((k, x) ∷ t) = if text_eq key k then some x else lookup key t

-- `t[key] = x`
unfoldable pub store {ℓ} : {A : Type ℓ} → Text → A → List (Text × A) → List (Text × A)
store key x [] = (key, x) ∷ []
store key x ((k, y) ∷ t) =
    let rest = store key x t in if text_eq key k then (k, x) ∷ t else (k, y) ∷ rest

-- `delete(t, k)` for every key `k` that the test selects.
unfoldable pub erase {ℓ} : {A : Type ℓ} → (Text → Bool) → List (Text × A) → List (Text × A)
erase test [] = []
erase test ((k, y) ∷ t) = let rest = erase test t in if test k then rest else (k, y) ∷ rest

text_eq_trans : (a b c : Text) → text_eq a b ≡ true → text_eq a c ≡ text_eq b c
text_eq_trans a b c e = ap (λ x. text_eq x c) (text_eq_sound a b e)

pub lookup-store {ℓ} :
    {A : Type ℓ} (k key : Text) (x : A) (t : List (Text × A))
    → lookup k (store key x t) ≡ (if text_eq k key then some x else lookup k t)
unfolding lookup store
lookup-store k key x [] = refl
lookup-store k key x ((j, y) ∷ t) = elim (Bool-cases (text_eq key j)) [
  | inl e ↦
      let eq : text_eq k key ≡ text_eq k j = ap (text_eq k) (text_eq_sound key j e) in
      elim (Bool-cases (text_eq k j)) [ inl b ↦ rw (e, eq, b) refl | inr b ↦ rw (e, eq, b) refl ]
  | inr n ↦ elim (Bool-cases (text_eq k key)) [
    | inl a ↦ rw (n, text_eq_trans k key j a, n, lookup-store k key x t, a) refl
    | inr a ↦ rw (n, lookup-store k key x t, a) refl
  ]
]

-- Whatever a `delete` does to the equal keys, it does to the key.
pub lookup-erase {ℓ} :
    {A : Type ℓ} (k : Text) (test : Text → Bool) (t : List (Text × A))
    → lookup k (erase test t) ≡ (if test k then none else lookup k t)
unfolding lookup erase
lookup-erase k test [] = elim (Bool-cases (test k)) [ inl e ↦ rw (e) refl | inr n ↦ rw (n) refl ]
lookup-erase k test ((j, y) ∷ t) = elim (Bool-cases (text_eq k j)) [
  | inl e ↦
      let eq : test j ≡ test k = ap test (sym (text_eq_sound k j e)) in
      elim (Bool-cases (test k)) [
        | inl b ↦ rw (eq, b, lookup-erase k test t, b) refl
        | inr b ↦ rw (eq, b, e) refl
      ]
  | inr n ↦ elim (Bool-cases (test j)) [
    | inl b ↦ rw (b, lookup-erase k test t, n) refl
    | inr b ↦ rw (b, n, lookup-erase k test t) refl
  ]
]

pub length-store_new {ℓ} :
    {A : Type ℓ} (key : Text) (x : A) (t : List (Text × A))
    → lookup key t ≡ none
    → length (store key x t) ≡ suc (length t)
unfolding lookup store
length-store_new key x [] h = refl
length-store_new key x ((j, y) ∷ t) h = elim (Bool-cases (text_eq key j)) [
  | inl e ↦ ground arith
  | inr n ↦ ground (arith, length-store_new key x t)
]

pub length-store_old {ℓ} :
    {A : Type ℓ} (key : Text) (x y : A) (t : List (Text × A))
    → lookup key t ≡ some y
    → length (store key x t) ≡ length t
unfolding lookup store
length-store_old key x y [] h = cc
length-store_old key x y ((j, z) ∷ t) h = elim (Bool-cases (text_eq key j)) [
  | inl e ↦ ground arith
  | inr n ↦ ground (arith, length-store_old key x y t)
]

pub length-erase {ℓ} :
    {A : Type ℓ} (test : Text → Bool) (t : List (Text × A)) → length (erase test t) ≤ length t
unfolding erase
length-erase test [] = ground arith
length-erase test ((j, y) ∷ t) = elim (Bool-cases (test j)) [
  | inl e ↦ ground (arith, length-erase test t)
  | inr n ↦ ground (arith, length-erase test t)
]
