-- ===== src/Automaton/Places.antt =====
-- The scan over the runes of a text, and the theorem that its matches are the places of the words.
use mathlib.Core.List.{Memᴰ, append_assoc}
use mathlib.Core.List.Memᴰ
use native.Mathlib.Nat.{add-zero}
use censorhub.Prelude.{
  ℕ, suc, ◌+◌, ◌≡◌, ◌≢◌, ◌↔◌, inl, inr, refl, sym, ap, ◌∙◌, List, [], ◌∷◌, ◌++◌, map, length, arith,
  length-append,
}
use censorhub.Text.{Text, Unicode, normalize}
use censorhub.Domain.{MatchItem}
use censorhub.Automaton.{WordMeta, WordEntry, match_at}
use censorhub.Automaton.Suffix.{ending}
use censorhub.Automaton.Depth.{split_last}
use censorhub.Automaton.Insert.{own, meta_of}
use censorhub.Automaton.Search.{scan, occurrences}
use censorhub.Automaton.Occurrences.{
  Occurs, item_at, own_sound, own-complete, ending_sound, ending-complete,
}

-- A match of the scan ends at one of the runes.
record Ends (stored : Text → List WordMeta) (i : ℕ) (seen rs : Text) (m : MatchItem) : Type 0 where
  before : Text
  rune : ℕ
  after : Text
  meta : WordMeta
  split : rs ≡ before ++ rune ∷ after
  listed : Memᴰ meta (ending stored (seen ++ (before ++ rune ∷ [])))
  item : m ≡ match_at (i + length before) meta

module _ (stored : Text → List WordMeta) where
  scan_sound :
      (i : ℕ) (seen rs : Text) (m : MatchItem)
      → Memᴰ m (scan stored i seen rs)
      → Ends stored i seen rs m
  unfolding scan
  scan_sound i seen [] m h = absurd (Memᴰ.not-nil h)
  scan_sound i seen (r ∷ rs) m h =
      elim (Memᴰ.append_cases (map (match_at i) (ending stored (seen ++ r ∷ []))) h) [
        | inl here ↦
            let (x, mem, same) = Memᴰ.of_map (match_at i) (ending stored (seen ++ r ∷ [])) here in
            record {
              before = [];
              rune = r;
              after = rs;
              meta = x;
              split = refl;
              listed = mem;
              item = sym same ∙ ap (λ (k : ℕ). match_at k x) (omega arith);
            }
        | inr later ↦
            let e = scan_sound (suc i) (seen ++ r ∷ []) rs m later in
            record {
              before = r ∷ e.before;
              rune = e.rune;
              after = e.after;
              meta = e.meta;
              split = ap (◌∷◌ r) e.split;
              listed = rw (append_assoc seen (r ∷ []) (e.before ++ e.rune ∷ [])) at e.listed;
              item = e.item ∙ ap (λ (k : ℕ). match_at k e.meta) (omega arith);
            }
      ]

  scan-complete :
      (i : ℕ) (seen before after : Text) (r : ℕ) (x : WordMeta)
      → Memᴰ x (ending stored (seen ++ (before ++ r ∷ [])))
      → Memᴰ (match_at (i + length before) x) (scan stored i seen (before ++ r ∷ after))
  unfolding scan
  scan-complete i seen [] after r x h =
      rw add-zero
        (Memᴰ.append_left (scan stored (suc i) (seen ++ r ∷ []) after) (Memᴰ.map (match_at i) h))
  scan-complete i seen (y ∷ before) after r x h =
      let shift : i + suc (length before) ≡ suc i + length before = omega arith in
      rw shift (
        Memᴰ.append_right (map (match_at i) (ending stored (seen ++ y ∷ []))) (
          scan-complete (suc i) (seen ++ y ∷ []) before after r x
            (rw (← append_assoc seen (y ∷ []) (before ++ r ∷ [])) at h)))

match_at-item_at :
    (u : Unicode) (e : WordEntry) (i start : ℕ)
    → i + 1 ≡ start + length (normalize u e.text)
    → match_at i (meta_of u e) ≡ item_at u e start
unfolding match_at meta_of item_at
match_at-item_at u e i start h = ground arith

regroup :
    (text before after a b w : Text) (r : ℕ)
    → text ≡ before ++ r ∷ after
    → before ++ r ∷ [] ≡ a ++ b
    → w ≡ b
    → text ≡ a ++ (w ++ after)
regroup text before after a b w r whole split same =
    whole
    ∙ sym (append_assoc before (r ∷ []) after)
    ∙ ap (λ (x : Text). x ++ after) split
    ∙ append_assoc a b after
    ∙ ap (λ (x : Text). a ++ (x ++ after)) (sym same)

last_rune : (w : Text) → w ≢ [] → (p : Text) × (r : ℕ) × (w ≡ p ++ r ∷ [])
last_rune [] ne = absurd (ne refl)
last_rune (x ∷ w) ne = let (p, r, split, _) = split_last (length w) (x ∷ w) refl in (p, r, split)

module _ (u : Unicode) (es : List WordEntry) (text : Text) (m : MatchItem) where
  occurrences_sound : Memᴰ m (occurrences u es text) → Occurs u es text m
  unfolding occurrences
  occurrences_sound h =
      let e = scan_sound (own u es) 0 [] text m h in
      let (a, b, split, mem) = ending_sound (own u es) e.meta (e.before ++ e.rune ∷ []) e.listed in
      let s = own_sound u es b e.meta mem in
      let len : length e.before + 1 ≡ length a + length b =
        omega (arith, ap length split, length-append e.before (e.rune ∷ []), length-append a b) in
      record {
        entry = s.entry;
        listed = s.listed;
        before = a;
        after = e.after;
        nonempty = s.nonempty;
        place =
            regroup text e.before e.after a b (normalize u s.entry.text) e.rune e.split split
              s.text;
        item =
            e.item
            ∙ ap (match_at (0 + length e.before)) s.meta
            ∙ match_at-item_at u s.entry (0 + length e.before) (length a)
                (omega (arith, ap length s.text));
      }

  occurrences-complete : Occurs u es text m → Memᴰ m (occurrences u es text)
  unfolding occurrences
  occurrences-complete o =
      let w = normalize u o.entry.text in
      let (p, r, split) = last_rune w o.nonempty in
      let whole : (o.before ++ p) ++ r ∷ [] ≡ o.before ++ w =
        append_assoc o.before p (r ∷ []) ∙ ap (λ (x : Text). o.before ++ x) (sym split) in
      let found : Memᴰ (meta_of u o.entry) (ending (own u es) (o.before ++ w)) =
        ending-complete (own u es) (meta_of u o.entry) o.before w o.nonempty
          (own-complete u es o.entry o.listed o.nonempty) in
      let cut : text ≡ (o.before ++ p) ++ r ∷ o.after =
        o.place
        ∙ sym (append_assoc o.before w o.after)
        ∙ ap (λ (x : Text). x ++ o.after) (sym whole)
        ∙ append_assoc (o.before ++ p) (r ∷ []) o.after in
      let item : m ≡ match_at (0 + length (o.before ++ p)) (meta_of u o.entry) =
        o.item
        ∙ sym (
            match_at-item_at u o.entry (0 + length (o.before ++ p)) (length o.before) (
              omega
                (arith, ap length split, length-append o.before p, length-append p (r ∷ [])))) in
      rw (item, cut)
        (scan-complete (own u es) 0 [] (o.before ++ p) o.after r (meta_of u o.entry)
          (rw whole found))

  -- An item is among the matches of the scan exactly when a word of the list, with a normalized
  -- text that is not empty, stands in the text at its position, and it carries the word's text,
  -- end, category and level.
  pub mem-occurrences : Memᴰ m (occurrences u es text) ↔ Occurs u es text m
  mem-occurrences = (occurrences_sound, occurrences-complete)
