-- ===== src/Service/Key/Laws.antt =====
-- `filterCacheKey` forgets nothing but the text behind its hash.
use mathlib.Core.List.{cons-eq-cons}
use Prim.Native.Nat.{bit_xor}
use censorhub.Prelude.{
  drop, ℕ, zero, suc, ◌+◌, ◌-◌, ◌*◌, ◌/◌, ◌%◌, ◌^◌, ◌<◌, ◌≡◌, ◌≢◌, refl, sym, ap, Bool, not, ◌&&◌,
  ◌==◌, ◌∙◌, true, List, [], ◌∷◌, ◌++◌, ltb, if◌then◌else◌, All, arith, Bool-cases, inl, inr,
}
use censorhub.Text.{Text, text_eq, text_eq_sound}
use censorhub.Domain.{strategy_detect, strategy_replace, strategy_highlight, strategy_is_valid}
use censorhub.Cache.Hash.{fnv1a, utf8, sum64a}
use censorhub.Service.Key.{digit36, format_digits, format_uint36, filter_cache_key}

-- The value of a digit, and of a number behind the digits read before.
unfoldable pub value36 : ℕ → ℕ
value36 c = if ltb c 58 then c - 48 else c - 87

unfoldable pub read36 : ℕ → Text → ℕ
unfolding value36
read36 a [] = a
read36 a (c ∷ cs) = read36 (a * 36 + value36 c) cs

value36-digit36 : (d : ℕ) → d < 36 → value36 (digit36 d) ≡ d
unfolding value36 digit36
value36-digit36 d h = ground arith

read36-format_digits :
    (k n : ℕ) (acc : Text) → n < 36 ^ k → read36 0 (format_digits k n acc) ≡ read36 n acc
unfolding read36 format_digits
read36-format_digits zero n acc h =
    let none_left : n ≡ 0 = ground arith in ap (λ a. read36 a acc) (sym none_left)
read36-format_digits (suc k) n acc h = elim (Bool-cases (ltb n 36)) [
  | inl y ↦
      let same : value36 (digit36 n) ≡ n = value36-digit36 n (ground arith) in
      let whole : 0 * 36 + value36 (digit36 n) ≡ n = omega arith in
      rw (y) (ap (λ a. read36 a acc) whole)
  | inr m ↦
      let small : n / 36 < 36 ^ k = omega arith in
      let digit : value36 (digit36 (n % 36)) ≡ n % 36 = value36-digit36 (n % 36) (omega arith) in
      let whole : n / 36 * 36 + value36 (digit36 (n % 36)) ≡ n = omega arith in
      rw (m) (
        read36-format_digits k (n / 36) (digit36 (n % 36) ∷ acc) small
        ∙ ap (λ a. read36 a acc) whole)
]

-- No colon.
abbrev pub Plain : Text → Type 0
Plain t = All (λ c. c ≢ 58) t

digit36-plain : (d : ℕ) → d < 36 → digit36 d ≢ 58
unfolding digit36
digit36-plain d h = ground arith

format_digits-Plain : (k n : ℕ) (acc : Text) → Plain acc → Plain (format_digits k n acc)
unfolding format_digits
format_digits-Plain zero n acc h = h
format_digits-Plain (suc k) n acc h = elim (Bool-cases (ltb n 36)) [
  | inl y ↦ rw (y) (digit36-plain n (ground arith), h)
  | inr m ↦ rw (m) (
      format_digits-Plain k (n / 36) (digit36 (n % 36) ∷ acc)
        (digit36-plain (n % 36) (omega arith), h))
]

-- What stands before the first colon, and behind it.
split_colon : (a b c d : Text) → Plain a → Plain b → a ++ 58 ∷ c ≡ b ++ 58 ∷ d → (a ≡ b) × (c ≡ d)
split_colon [] [] c d p q e = (refl, (cons-eq-cons.0 e).1)
split_colon [] (y ∷ b) c d p (n, q) e = absurd (n (sym (cons-eq-cons.0 e).0))
split_colon (x ∷ a) [] c d (n, p) q e = absurd (n (cons-eq-cons.0 e).0)
split_colon (x ∷ a) (y ∷ b) c d (_, p) (_, q) e =
    let (same, rest) = cons-eq-cons.0 e in
    let (front, back) = split_colon a b c d p q rest in (rw (same, front) refl, back)

no_colon : Text → Bool
no_colon [] = true
no_colon (c ∷ cs) = not (c == 58) && no_colon cs

no_colon-Plain : (t : Text) → no_colon t ≡ true → Plain t
unfolding no_colon
no_colon-Plain [] h = tt
no_colon-Plain (c ∷ cs) h = ((λ e. ground arith), no_colon-Plain cs (ground arith))

names-Plain : Plain strategy_detect × Plain strategy_replace × Plain strategy_highlight
unfolding no_colon
names-Plain = (
  no_colon-Plain strategy_detect refl,
  no_colon-Plain strategy_replace refl,
  no_colon-Plain strategy_highlight refl,
)

strategy-Plain : (s : Text) → strategy_is_valid s ≡ true → Plain s
unfolding strategy_is_valid
strategy-Plain s h = elim (Bool-cases (text_eq s strategy_detect)) [
  | inl e ↦ rw (text_eq_sound s strategy_detect e) names-Plain.0
  | inr n ↦ elim (Bool-cases (text_eq s strategy_replace)) [
    | inl e ↦ rw (text_eq_sound s strategy_replace e) names-Plain.1
    | inr m ↦ elim (Bool-cases (text_eq s strategy_highlight)) [
      | inl e ↦ rw (text_eq_sound s strategy_highlight e) names-Plain.2
      | inr k ↦ absurd (ground arith)
    ]
  ]
]

format_uint36-inj :
    (a b : ℕ) → a < 36 ^ 13 → b < 36 ^ 13 → format_uint36 a ≡ format_uint36 b → a ≡ b
unfolding format_uint36 read36
format_uint36-inj a b small small' e =
    sym (read36-format_digits 13 a [] small) ∙ ap (read36 0) e ∙ read36-format_digits 13 b [] small'

digits-Plain : (n : ℕ) → Plain (format_uint36 n)
unfolding format_uint36
digits-Plain n = format_digits-Plain 13 n [] tt

fnv1a-bound : (prime h : ℕ) (bs : List ℕ) → h < 2 ^ 64 → fnv1a 64 prime h bs < 2 ^ 64
unfolding fnv1a
fnv1a-bound prime h [] small = small
fnv1a-bound prime h (b ∷ bs) small =
    fnv1a-bound prime (bit_xor h b * prime % 2 ^ 64) bs (omega arith)

sum64a-bound : (t : Text) → sum64a t < 36 ^ 13
unfolding sum64a
sum64a-bound t =
    let small = fnv1a-bound 1099511628211 14695981039346656037 (utf8 t) (omega arith) in omega arith

-- Two requests of valid strategies under versions below 2^64 share a key only if the strategies,
-- the versions and the hashes of the texts are the same.
pub filter_cache_key-inj :
    (text text' strategy strategy' : Text) (version version' : ℕ)
    → strategy_is_valid strategy ≡ true
    → strategy_is_valid strategy' ≡ true
    → version < 2 ^ 64
    → version' < 2 ^ 64
    → filter_cache_key text strategy version ≡ filter_cache_key text' strategy' version'
    → (strategy ≡ strategy') × (version ≡ version') × (sum64a text ≡ sum64a text')
unfolding filter_cache_key
filter_cache_key-inj text text' strategy strategy' version version' known known' small small' e =
    let digits = format_uint36 version in
    let digits' = format_uint36 version' in
    let hash = format_uint36 (sum64a text) in
    let hash' = format_uint36 (sum64a text') in
    let rest : strategy ++ 58 ∷ 118 ∷ (digits ++ 58 ∷ hash)
        ≡ strategy' ++ 58 ∷ 118 ∷ (digits' ++ 58 ∷ hash') =
      ap (drop 7) e in
    let (same_strategy, behind) =
      split_colon strategy strategy' (118 ∷ (digits ++ 58 ∷ hash)) (118 ∷ (digits' ++ 58 ∷ hash'))
        (strategy-Plain strategy known) (strategy-Plain strategy' known') rest in
    let (same_digits, same_hash) =
      split_colon digits digits' hash hash' (digits-Plain version) (digits-Plain version')
        (cons-eq-cons.0 behind).1 in
    (
      same_strategy,
      format_uint36-inj version version' (omega arith) (omega arith) same_digits,
      format_uint36-inj (sum64a text) (sum64a text') (sum64a-bound text) (sum64a-bound text')
          same_hash,
    )
