-- ===== src/Automaton/Occurrences.antt =====
-- What the scan finds: the places of the words in the text, all of them and nothing else.
use mathlib.Core.List.{Memᴰ}
use mathlib.Core.List.Memᴰ
use censorhub.Prelude.{
  ℕ, ◌+◌, ◌≡◌, ◌≢◌, inl, inr, refl, ap, ◌∙◌, true, not, ◌&&◌, List, [], ◌∷◌, ◌++◌, length, is_empty,
  Bool-cases,
}
use censorhub.Text.{Text, Unicode, normalize, text_eq, text_eq_refl, text_eq_sound}
use censorhub.Domain.{MatchItem}
use censorhub.Automaton.{WordMeta, WordEntry}
use censorhub.Automaton.Suffix.{ending}
use censorhub.Automaton.Insert.{own, meta_of, stores}

-- The match of a word that stands in a text behind `start` runes.
unfoldable pub item_at : Unicode → WordEntry → ℕ → MatchItem
item_at u e start = record {
  word = e.text;
  position = start;
  end_pos = start + length (normalize u e.text);
  category = e.category;
  level = e.level;
}

-- A word of the list stands in the text, and `m` says where.
pub record Occurs (u : Unicode) (es : List WordEntry) (text : Text) (m : MatchItem) : Type 0 where
  pub entry : WordEntry
  pub listed : Memᴰ entry es
  pub before : Text
  pub after : Text
  pub nonempty : normalize u entry.text ≢ []
  pub place : text ≡ before ++ (normalize u entry.text ++ after)
  pub item : m ≡ item_at u entry (length before)

-- The words stored for a text.
pub record Stores (u : Unicode) (es : List WordEntry) (s : Text) (m : WordMeta) : Type 0 where
  pub entry : WordEntry
  pub listed : Memᴰ entry es
  pub nonempty : normalize u entry.text ≢ []
  pub text : normalize u entry.text ≡ s
  pub meta : m ≡ meta_of u entry

kept_true : (w s : Text) → (not (is_empty w) && text_eq w s) ≡ true → (w ≢ []) × (w ≡ s)
kept_true [] s h = cc
kept_true (x ∷ w) s h = (λ e. cc, text_eq_sound (x ∷ w) s h)

kept_intro : (w : Text) → w ≢ [] → (not (is_empty w) && text_eq w w) ≡ true
kept_intro [] ne = absurd (ne refl)
kept_intro (x ∷ w) ne = text_eq_refl (x ∷ w)

pub own_sound :
    (u : Unicode) (es : List WordEntry) (s : Text) (m : WordMeta)
    → Memᴰ m (own u es s)
    → Stores u es s m
unfolding own stores
own_sound u [] s m h = absurd (Memᴰ.not-nil h)
own_sound u (e ∷ es) s m h = elim (Bool-cases (stores u e s)) [
  | inl y ↦ elim (Memᴰ.cases_cons (rw y at h)) [
    | inl here ↦
        let (ne, same) = kept_true (normalize u e.text) s y in
        record { entry = e; listed = Memᴰ.head refl; nonempty = ne; text = same; meta = here }
    | inr later ↦ skip (own_sound u es s m later)
  ]
  | inr n ↦ skip (own_sound u es s m (rw n at h))
]
  where
    skip : Stores u es s m → Stores u (e ∷ es) s m
    skip r = record {
      entry = r.entry;
      listed = Memᴰ.tail r.listed;
      nonempty = r.nonempty;
      text = r.text;
      meta = r.meta;
    }

pub own-complete :
    (u : Unicode) (es : List WordEntry) (e : WordEntry)
    → Memᴰ e es
    → normalize u e.text ≢ []
    → Memᴰ (meta_of u e) (own u es (normalize u e.text))
unfolding own stores
own-complete u [] e m ne = absurd (Memᴰ.not-nil m)
own-complete u (x ∷ es) e (Memᴰ.head p) ne =
    let ne' : normalize u x.text ≢ [] =
      λ q. ne (ap (λ (w : WordEntry). normalize u w.text) p ∙ q) in
    rw p (rw (kept_intro (normalize u x.text) ne') (Memᴰ.head refl))
own-complete u (x ∷ es) e (Memᴰ.tail m) ne = elim (Bool-cases (stores u x (normalize u e.text))) [
  | inl y ↦ rw y (Memᴰ.tail (own-complete u es e m ne))
  | inr n ↦ rw n (own-complete u es e m ne)
]

module _ (stored : Text → List WordMeta) (m : WordMeta) where
  pub ending_sound :
      (s : Text) → Memᴰ m (ending stored s) → (a b : Text) × (s ≡ a ++ b) × Memᴰ m (stored b)
  unfolding ending
  ending_sound [] h = absurd (Memᴰ.not-nil h)
  ending_sound (x ∷ s) h = elim (Memᴰ.append_cases (stored (x ∷ s)) h) [
    | inl here ↦ ([], x ∷ s, refl, here)
    | inr later ↦ let (a, b, split, mem) = ending_sound s later in (x ∷ a, b, ap (◌∷◌ x) split, mem)
  ]

  pub ending-complete : (a b : Text) → b ≢ [] → Memᴰ m (stored b) → Memᴰ m (ending stored (a ++ b))
  unfolding ending
  ending-complete [] [] ne h = absurd (ne refl)
  ending-complete [] (x ∷ b) ne h = Memᴰ.append_left (ending stored b) h
  ending-complete (x ∷ a) b ne h =
      Memᴰ.append_right (stored (x ∷ (a ++ b))) (ending-complete a b ne h)
