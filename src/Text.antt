-- ===== src/Text.antt =====
-- internal/infrastructure/algorithm/text_normalizer.go. A text is the list of its runes.
use Prim.Native.Char.{code}
use Prim.Native.String.{String}
use censorhub.Prelude.{
  ℕ, ◌-◌, ◌≡◌, refl, arith, Bool, true, false, ◌&&◌, ◌||◌, List, [], ◌∷◌, leb, ◌==◌, if◌then◌else◌,
}

abbrev pub Text : Type 0
Text = List ℕ

-- The runes of a constant of the source.
abbrev pub runes : String → Text
runes String.[] = []
runes (String.◌∷◌ c s) = code c ∷ runes s

-- Two texts are the same.
unfoldable pub text_eq : Text → Text → Bool
text_eq [] [] = true
text_eq [] (b ∷ bs) = false
text_eq (a ∷ rest) [] = false
text_eq (a ∷ rest) (b ∷ bs) = a == b && text_eq rest bs

pub text_eq_refl : (a : Text) → text_eq a a ≡ true
unfolding text_eq
text_eq_refl [] = refl
text_eq_refl (a ∷ rest) = ground (arith, text_eq_refl rest)

pub text_eq_sound : (a b : Text) → text_eq a b ≡ true → a ≡ b
unfolding text_eq
text_eq_sound [] [] h = refl
text_eq_sound [] (b ∷ bs) h = cc
text_eq_sound (a ∷ rest) [] h = cc
text_eq_sound (a ∷ rest) (b ∷ bs) h = ground (arith, text_eq_sound rest bs)

-- What golang.org/x/text and the tables of package unicode supply.
pub record Unicode : Type 0 where
  pub nfkc : Text → Text
  pub to_lower : ℕ → ℕ
  pub is_space : ℕ → Bool

is_zero_width : ℕ → Bool
is_zero_width r =
    r == 0x200B
    || r == 0x200C
    || r == 0x200D
    || r == 0xFEFF
    || r == 0x00AD
    || r == 0x200E
    || r == 0x200F
    || r == 0x2060
    || r == 0x2061
    || r == 0x2062
    || r == 0x2063
    || r == 0x2064

full_width_to_half_width : ℕ → ℕ
full_width_to_half_width r =
    if leb 0xFF01 r && leb r 0xFF5E then r - 0xFEE0 else if r == 0x3000 then 0x20 else r

-- The loop of `Normalize` over the runes of the NFKC form.
normalize_runes : (ℕ → ℕ) → Text → Text
normalize_runes to_lower [] = []
normalize_runes to_lower (r ∷ rs) =
    let rest = normalize_runes to_lower rs in
    if is_zero_width r then rest else to_lower (full_width_to_half_width r) ∷ rest

unfoldable pub normalize : Unicode → Text → Text
unfolding normalize_runes is_zero_width full_width_to_half_width
normalize u text = normalize_runes u.to_lower (u.nfkc text)

-- `strings.TrimSpace`: the white space at both ends is dropped.
trim_left : (ℕ → Bool) → Text → Text
trim_left space [] = []
trim_left space (r ∷ rs) = let rest = trim_left space rs in if space r then rest else r ∷ rs

trim_right : (ℕ → Bool) → Text → Text
trim_right space [] = []
trim_right space (r ∷ rs) =
    let rest = trim_right space rs in
    elim rest [ [] ↦ if space r then [] else r ∷ [] | x ∷ xs ↦ r ∷ x ∷ xs ]

unfoldable pub normalize_for_index : Unicode → Text → Text
unfolding trim_left trim_right
normalize_for_index u text = normalize u (trim_right u.is_space (trim_left u.is_space text))
