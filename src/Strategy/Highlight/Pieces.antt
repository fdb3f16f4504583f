-- ===== src/Strategy/Highlight/Pieces.antt =====
-- The highlighted text as pieces: stretches of the text outside and inside the marks.
use mathlib.Core.List.{append-nil}
use native.Mathlib.Nat.{zero-add, suc-add, add-zero}
use mathlib.Core.Path.{ap₂}
use censorhub.Prelude.{
  ℕ, zero, suc, ◌+◌, ◌-◌, ◌≤◌, ◌<◌, ◌≡◌, inl, inr, refl, sym, ap, ◌∙◌, Bool, true, false, none,
  some, List, [], ◌∷◌, ◌++◌, map, length, get_elem?, take, drop, take-append-drop, arith,
  Option-cases,
}
use censorhub.Text.{Text, runes}
use censorhub.Strategy.Intervals.{Interval, Runs, in_interval, covers}
use censorhub.Strategy.Highlight.{escape, write_range, highlight_from}

pub data Piece : Type 0 where
  plain : Text → Piece
  marked : Text → Piece

unfoldable pub escape_all : Text → Text
unfolding escape
escape_all [] = []
escape_all (r ∷ t) = escape r ++ escape_all t

-- How a piece is written.
unfoldable pub render : List Piece → Text
unfolding escape_all
render [] = []
render (plain t ∷ ps) = escape_all t ++ render ps
render (marked t ∷ ps) = runes "<mark>" ++ (escape_all t ++ (runes "</mark>" ++ render ps))

-- The text that the pieces cut up.
unfoldable pub contents : List Piece → Text
contents [] = []
contents (plain t ∷ ps) = t ++ contents ps
contents (marked t ∷ ps) = t ++ contents ps

-- For each rune of the text whether it stands inside a mark.
unfoldable pub flags : List Piece → List Bool
flags [] = []
flags (plain t ∷ ps) = map (λ r. false) t ++ flags ps
flags (marked t ∷ ps) = map (λ r. true) t ++ flags ps

-- The values of a test at the places of a text, from a place on.
unfoldable pub tests_from : (ℕ → Bool) → ℕ → Text → List Bool
tests_from c i [] = []
tests_from c i (r ∷ t) = c i ∷ tests_from c (suc i) t

unfoldable pub pieces : Text → ℕ → List Interval → List Piece
pieces t idx [] = plain (drop idx t) ∷ []
pieces t idx (iv ∷ ivs) =
    plain (take (iv.start - idx) (drop idx t))
    ∷ marked (take (iv.stop - iv.start) (drop iv.start t))
    ∷ pieces t iv.stop ivs

drop-none : (t : Text) (i : ℕ) → get_elem? t i ≡ none → drop i t ≡ []
drop-none [] zero e = refl
drop-none [] (suc i) e = refl
drop-none (r ∷ t) zero e = cc
drop-none (r ∷ t) (suc i) e = drop-none t i e

drop-some : (t : Text) (i r : ℕ) → get_elem? t i ≡ some r → drop i t ≡ r ∷ drop (suc i) t
drop-some [] i r e = cc
drop-some (q ∷ t) zero r e = ground arith
drop-some (q ∷ t) (suc i) r e = drop-some t i r e

take_nil : (n : ℕ) → take {A = ℕ} n [] ≡ []
take_nil zero = refl
take_nil (suc n) = refl

take_all : (n : ℕ) (t : Text) → length t ≤ n → take n t ≡ t
take_all n [] le = take_nil n
take_all zero (r ∷ t) le = absurd (omega arith)
take_all (suc n) (r ∷ t) le = ap (◌∷◌ r) (take_all n t (omega arith))

pub length-drop : (n : ℕ) (t : Text) → length (drop n t) ≡ length t - n
length-drop zero t = omega arith
length-drop (suc n) [] = omega arith
length-drop (suc n) (r ∷ t) = omega (arith, length-drop n t)

pub length-take : (n : ℕ) (t : Text) → n ≤ length t → length (take n t) ≡ n
length-take zero t le = refl
length-take (suc n) [] le = absurd (omega arith)
length-take (suc n) (r ∷ t) le = ap suc (length-take n t (omega arith))

drop_nil : (n : ℕ) → drop {A = ℕ} n [] ≡ []
drop_nil zero = refl
drop_nil (suc n) = refl

pub take-append-drop_add : (k i : ℕ) (t : Text) → take k (drop i t) ++ drop (i + k) t ≡ drop i t
take-append-drop_add k zero t = rw zero-add (take-append-drop k t)
take-append-drop_add k (suc i) [] = rw (take_nil k) (drop_nil (suc i + k))
take-append-drop_add k (suc i) (r ∷ t) = rw suc-add (take-append-drop_add k i t)

write_range-take : (t : Text) (k i : ℕ) → write_range t k i ≡ escape_all (take k (drop i t))
unfolding write_range escape_all
write_range-take t zero i = refl
write_range-take t (suc k) i = elim (Option-cases (get_elem? t i)) [
  | inl e ↦ rw (e, write_range) (rw (drop-none t i e))
  | inr (r, e) ↦
      rw (e, write_range)
        (rw (drop-some t i r e) (ap (λ (x : Text). escape r ++ x) (write_range-take t k (suc i))))
]

pub highlight_from-render :
    (t : Text) (idx : ℕ) (ivs : List Interval)
    → highlight_from t idx ivs ≡ render (pieces t idx ivs)
unfolding highlight_from render pieces
highlight_from-render t idx [] =
    write_range-take t (length t - idx) idx
    ∙ ap escape_all (take_all (length t - idx) (drop idx t) (omega (arith, length-drop idx t)))
    ∙ sym (append-nil (escape_all (drop idx t)))
highlight_from-render t idx (iv ∷ ivs) = rw (
  write_range-take t (iv.start - idx) idx,
  write_range-take t (iv.stop - iv.start) iv.start,
  highlight_from-render t iv.stop ivs,
)

-- The places before a run of intervals are not covered.
pub covers_before :
    (len from : ℕ) (ivs : List Interval) (i : ℕ)
    → Runs len from ivs
    → i < from
    → covers ivs i ≡ false
unfolding covers in_interval
covers_before len from [] i runs lt = refl
covers_before len from (iv ∷ ivs) i (low, pos, high, runs) lt =
    ground (arith, covers_before len (suc iv.stop) ivs i runs (omega arith))

pub tests_from-append :
    (c : ℕ → Bool) (i : ℕ) (s t : Text)
    → tests_from c i (s ++ t) ≡ tests_from c i s ++ tests_from c (i + length s) t
unfolding tests_from
tests_from-append c i [] t = rw add-zero
tests_from-append c i (r ∷ s) t =
    let shift : suc i + length s ≡ i + suc (length s) = omega arith in
    ap (◌∷◌ (c i)) (
      tests_from-append c (suc i) s t
      ∙ ap (λ (k : ℕ). tests_from c (suc i) s ++ tests_from c k t) shift)

pub tests_from_const :
    (c : ℕ → Bool) (b : Bool) (i : ℕ) (t : Text)
    → ((j : ℕ) → i ≤ j → j < i + length t → c j ≡ b)
    → tests_from c i t ≡ map (λ r. b) t
unfolding tests_from
tests_from_const c b i [] h = refl
tests_from_const c b i (r ∷ t) h =
    ap₂ (λ (x : Bool) (xs : List Bool). x ∷ xs) (h i (omega arith) (omega arith))
      (tests_from_const c b (suc i) t (λ j low high. h j (omega arith) (omega arith)))

pub tests_from_cong :
    (c d : ℕ → Bool) (i : ℕ) (t : Text)
    → ((j : ℕ) → i ≤ j → c j ≡ d j)
    → tests_from c i t ≡ tests_from d i t
unfolding tests_from
tests_from_cong c d i [] h = refl
tests_from_cong c d i (r ∷ t) h =
    ap₂ (λ (x : Bool) (xs : List Bool). x ∷ xs) (h i (omega arith))
      (tests_from_cong c d (suc i) t (λ j low. h j (omega arith)))
