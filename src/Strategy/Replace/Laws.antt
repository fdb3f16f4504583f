-- ===== src/Strategy/Replace/Laws.antt =====
-- The replaced text, rune by rune.
use mathlib.Core.Option
use censorhub.Prelude.{
  ℕ, zero, suc, ◌+◌, ◌-◌, ◌<◌, ◌≡◌, ◌==◌, inl, inr, refl, sym, ap, ◌∙◌, Bool, true, false, ◌&&◌,
  ◌||◌, Option, none, some, List, [], ◌∷◌, ltb, leb, if◌then◌else◌, length, is_empty, get_elem?,
  arith, Bool-cases,
}
use censorhub.Text.{Text}
use censorhub.Domain.{MatchItem}
use censorhub.Strategy.Sort.{SortsByPosition, covered, covered-sort}
use censorhub.Strategy.Replace.{
  set_true, mark_from, mark_all, write_masked, all_false, replace_matches,
}

-- The flag of a place, false beyond the end.
abbrev flag : List Bool → ℕ → Bool
flag [] i = false
flag (b ∷ bs) zero = b
flag (b ∷ bs) (suc i) = flag bs i

length-set_true : (bs : List Bool) (i : ℕ) → length (set_true bs i) ≡ length bs
unfolding set_true
length-set_true [] i = refl
length-set_true (b ∷ bs) zero = refl
length-set_true (b ∷ bs) (suc i) = ap suc (length-set_true bs i)

flag-set_true :
    (bs : List Bool) (i j : ℕ) → i < length bs → flag (set_true bs i) j ≡ ((i == j) || flag bs j)
unfolding set_true
flag-set_true [] i j lt = absurd (omega arith)
flag-set_true (b ∷ bs) zero zero lt = refl
flag-set_true (b ∷ bs) zero (suc j) lt = ground arith
flag-set_true (b ∷ bs) (suc i) zero lt = ground arith
flag-set_true (b ∷ bs) (suc i) (suc j) lt = ground (arith, flag-set_true bs i j (omega arith))

length-mark_from : (k i : ℕ) (bs : List Bool) → length (mark_from k i bs) ≡ length bs
unfolding mark_from
length-mark_from zero i bs = refl
length-mark_from (suc k) i bs =
    ground (arith, length-mark_from k (suc i) (set_true bs i), length-set_true bs i)

-- The marks of one match: the places of its range that are there.
flag-mark_from :
    (k i : ℕ) (bs : List Bool) (j : ℕ)
    → j < length bs
    → flag (mark_from k i bs) j ≡ ((leb i j && ltb j (i + k)) || flag bs j)
unfolding mark_from
flag-mark_from zero i bs j lt = ground arith
flag-mark_from (suc k) i bs j lt =
    ground (
      arith,
      flag-mark_from k (suc i) (set_true bs i) j,
      flag-set_true bs i j,
      length-set_true bs i,
    )

length-mark_all : (ms : List MatchItem) (bs : List Bool) → length (mark_all ms bs) ≡ length bs
unfolding mark_all
length-mark_all [] bs = refl
length-mark_all (m ∷ ms) bs =
    length-mark_all ms (mark_from (m.end_pos - m.position) m.position bs)
    ∙ length-mark_from (m.end_pos - m.position) m.position bs

flag-mark_all :
    (ms : List MatchItem) (bs : List Bool) (j : ℕ)
    → j < length bs
    → flag (mark_all ms bs) j ≡ (covered ms j || flag bs j)
unfolding mark_all covered
flag-mark_all [] bs j lt = refl
flag-mark_all (m ∷ ms) bs j lt = ground (
  arith,
  flag-mark_all ms (mark_from (m.end_pos - m.position) m.position bs) j,
  flag-mark_from (m.end_pos - m.position) m.position bs j,
  length-mark_from (m.end_pos - m.position) m.position bs,
)

length-all_false : (t : Text) → length (all_false t) ≡ length t
unfolding all_false
length-all_false [] = refl
length-all_false (r ∷ t) = ap suc (length-all_false t)

flag-all_false : (t : Text) (j : ℕ) → flag (all_false t) j ≡ false
unfolding all_false
flag-all_false [] j = refl
flag-all_false (r ∷ t) zero = refl
flag-all_false (r ∷ t) (suc j) = flag-all_false t j

-- The text `out` is `t` with the runes at the covered places replaced by the mask.
pub record IsMasked (mask : ℕ) (cover : ℕ → Bool) (t out : Text) : Type 0 where
  pub same_length : length out ≡ length t
  pub runes :
      (i : ℕ) → get_elem? out i ≡ Option.map (λ r. if cover i then mask else r) (get_elem? t i)

write_masked_lem :
    (mask : ℕ) (t : Text) (bs : List Bool)
    → length bs ≡ length t
    → (out : Text) × (write_masked mask t bs ≡ some out) × IsMasked mask (flag bs) t out
unfolding write_masked
write_masked_lem mask [] bs len = ([], refl, record { same_length = refl; runes = λ i. refl })
write_masked_lem mask (r ∷ t) [] len = absurd (omega arith)
write_masked_lem mask (r ∷ t) (b ∷ bs) len =
    let (out, wrote, m) = write_masked_lem mask t bs (omega arith) in
    (
      (if b then mask else r) ∷ out,
      rw wrote,
      record {
        same_length = ap suc m.same_length;
        runes = elim [ zero ↦ refl | suc i ↦ m.runes i ];
      },
    )

map_below :
    (mask : ℕ) (b b' : Bool) (t : Text) (i : ℕ)
    → (i < length t → b ≡ b')
    → Option.map (λ r. if b then mask else r) (get_elem? t i)
      ≡ Option.map (λ r. if b' then mask else r) (get_elem? t i)
map_below mask b b' [] i h = refl
map_below mask b b' (r ∷ t) zero h =
    ap (λ (x : Bool). some (if x then mask else r)) (h (omega arith))
map_below mask b b' (r ∷ t) (suc i) h = map_below mask b b' t i (λ lt. h (omega arith))

IsMasked-cover :
    (mask : ℕ) (c d : ℕ → Bool) (t out : Text)
    → ((i : ℕ) → i < length t → c i ≡ d i)
    → IsMasked mask c t out
    → IsMasked mask d t out
IsMasked-cover mask c d t out same m = record {
  same_length = m.same_length;
  runes = λ i. m.runes i ∙ map_below mask (c i) (d i) t i (same i);
}

map_id : (mask : ℕ) (o : Option ℕ) → o ≡ Option.map (λ r. if false then mask else r) o
map_id mask none = refl
map_id mask (some r) = refl

covered_empty : (ms : List MatchItem) (i : ℕ) → is_empty ms ≡ true → covered ms i ≡ false
unfolding covered
covered_empty [] i e = refl
covered_empty (m ∷ ms) i e = cc

-- The runes that the replacement walks: the original ones, unless the normalized text has another
-- length and something matched.
unfoldable pub target : Text → Text → List MatchItem → Text
target original normalized matches =
    if is_empty matches
    then original
    else if length original == length normalized
    then original
    else normalized

module _ (sort : List MatchItem → List MatchItem) (sorts : SortsByPosition sort) (normalized : Text)
    (matches : List MatchItem) (mask : ℕ) where
  marks : List Bool
  marks = mark_all (sort matches) (all_false normalized)

  length-marks : length marks ≡ length normalized
  unfolding marks
  length-marks = length-mark_all (sort matches) (all_false normalized) ∙ length-all_false normalized

  flag-marks : (i : ℕ) → i < length normalized → flag marks i ≡ covered matches i
  unfolding marks
  flag-marks i lt = ground (
    arith,
    flag-mark_all (sort matches) (all_false normalized) i,
    flag-all_false normalized i,
    length-all_false normalized,
    covered-sort sort sorts matches i,
  )

  write_marks :
      (t : Text)
      → length t ≡ length normalized
      → (out : Text) × (write_masked mask t marks ≡ some out)
        × IsMasked mask (covered matches) t out
  write_marks t len =
      let (out, wrote, m) = write_masked_lem mask t marks (length-marks ∙ sym len) in
      (
        out,
        wrote,
        IsMasked-cover mask (flag marks) (covered matches) t out
            (λ i lt. flag-marks i (omega arith)) m,
      )

  -- For any sort by position, the replacement indexes nothing out of range. It keeps the length of
  -- the text that it walks: the original text, or the normalized one if something matched and the
  -- two differ in length. Each rune of that text stands at its place in the result, but the mask
  -- stands where a match covers the place, overlapping or not.
  pub replace_matches-IsMasked :
      (original : Text)
      → (out : Text) × (replace_matches sort original normalized matches mask ≡ some out)
        × IsMasked mask (covered matches) (target original normalized matches) out
  unfolding replace_matches target marks
  replace_matches-IsMasked original = elim (Bool-cases (is_empty matches)) [
    | inl y ↦ rw y (
      original,
      refl,
      record {
        same_length = refl;
        runes = λ i. rw (covered_empty matches i y) (map_id mask (get_elem? original i));
      },
    )
    | inr n ↦ elim (Bool-cases (length original == length normalized)) [
      | inl same ↦ rw (n, same) (write_marks original (ground arith))
      | inr other ↦ rw (n, other) (write_marks normalized refl)
    ]
  ]
