-- ===== src/Engine/Rebuild.antt =====
-- What a rebuilt engine matches.
use mathlib.Core.List.{Memᴰ}
use mathlib.Core.List.Memᴰ
use censorhub.Prelude.{
  ℕ, ◌+◌, ◌%◌, ◌^◌, ◌≡◌, ◌≢◌, ◌↔◌, inl, inr, refl, sym, ap, ◌∙◌, true, some, List, [], ◌∷◌, ◌++◌,
  length, Bool-cases,
}
use censorhub.Text.{Text, Unicode, normalize}
use censorhub.Domain.{MatchItem}
use censorhub.Domain.Word.{SensitiveWord, is_active}
use censorhub.Automaton.{WordEntry, Edge}
use censorhub.Automaton.Levels.{VisitsAll}
use censorhub.Automaton.Correct.{new_aho_corasick_lem}
use censorhub.Automaton.Insert.{count_words}
use censorhub.Automaton.Search.{occurrences}
use censorhub.Automaton.Occurrences.{Occurs, item_at}
use censorhub.Automaton.Places.{mem-occurrences}
use censorhub.Engine.{
  FilterEngine, MatchResult, active_entries, rebuild, match_text, engine_word_count, engine_version,
}

-- An active word of the list stands in the text, and `m` says where.
pub record ActiveOccurs (u : Unicode) (ws : List SensitiveWord) (text : Text) (m : MatchItem)
    : Type 0 where
  pub word : SensitiveWord
  pub listed : Memᴰ word ws
  pub active : is_active word ≡ true
  pub before : Text
  pub after : Text
  pub nonempty : normalize u word.text ≢ []
  pub place : text ≡ before ++ (normalize u word.text ++ after)
  pub item : m ≡ record {
    word = word.text;
    position = length before;
    end_pos = length before + length (normalize u word.text);
    category = word.category;
    level = word.level;
  }

abbrev entry_of : SensitiveWord → WordEntry
entry_of w = record { text = w.text; category = w.category; level = w.level }

entries_sound :
    (ws : List SensitiveWord) (e : WordEntry)
    → Memᴰ e (active_entries ws)
    → (w : SensitiveWord) × Memᴰ w ws × (is_active w ≡ true) × (e ≡ entry_of w)
unfolding active_entries
entries_sound [] e m = absurd (Memᴰ.not-nil m)
entries_sound (w ∷ ws) e m = elim (Bool-cases (is_active w)) [
  | inl y ↦ elim (Memᴰ.cases_cons (rw y at m)) [
    | inl here ↦ (w, Memᴰ.head refl, y, here)
    | inr later ↦ let (v, mem, a, q) = entries_sound ws e later in (v, Memᴰ.tail mem, a, q)
  ]
  | inr n ↦ let (v, mem, a, q) = entries_sound ws e (rw n at m) in (v, Memᴰ.tail mem, a, q)
]

entries-complete :
    (ws : List SensitiveWord) (w : SensitiveWord)
    → Memᴰ w ws
    → is_active w ≡ true
    → Memᴰ (entry_of w) (active_entries ws)
unfolding active_entries
entries-complete [] w m a = absurd (Memᴰ.not-nil m)
entries-complete (v ∷ ws) w (Memᴰ.head p) a =
    rw (ap is_active (sym p) ∙ a) (Memᴰ.head (ap entry_of p))
entries-complete (v ∷ ws) w (Memᴰ.tail m) a = elim (Bool-cases (is_active v)) [
  | inl y ↦ rw y (Memᴰ.tail (entries-complete ws w m a))
  | inr n ↦ rw n (entries-complete ws w m a)
]

Occurs-ActiveOccurs :
    (u : Unicode) (ws : List SensitiveWord) (text : Text) (m : MatchItem)
    → Occurs u (active_entries ws) text m ↔ ActiveOccurs u ws text m
unfolding item_at
Occurs-ActiveOccurs u ws text m = (
  λ o.
      let (w, mem, a, q) = entries_sound ws o.entry o.listed in
      record {
        word = w;
        listed = mem;
        active = a;
        before = o.before;
        after = o.after;
        nonempty = λ e. o.nonempty (ap (λ (x : WordEntry). normalize u x.text) q ∙ e);
        place = o.place ∙ ap (λ (x : WordEntry). o.before ++ (normalize u x.text ++ o.after)) q;
        item = o.item ∙ ap (λ (x : WordEntry). item_at u x (length o.before)) q;
      },
  λ o. record {
    entry = entry_of o.word;
    listed = entries-complete ws o.word o.listed o.active;
    before = o.before;
    after = o.after;
    nonempty = o.nonempty;
    place = o.place;
    item = o.item;
  },
)

-- Whatever the engine held, a rebuild from a list of words succeeds and adds one to the version,
-- modulo 2^64. From then on `Match` returns, for every text, its normalized form and a list of
-- matches: an item is in it exactly when an active word of the list, whose normalized text is not
-- empty, stands in the normalized text at the item's place with the item's fields. The word count
-- is the number of active words with a normalized text that is not empty.
pub match_text-rebuild :
    (order : ℕ → List Edge → List Edge)
    → VisitsAll order
    → (u : Unicode) (e : FilterEngine) (words : List SensitiveWord)
    → (e' : FilterEngine) × (rebuild order u e words ≡ some e')
      × (engine_version e' ≡ (engine_version e + 1) % 2 ^ 64)
      × (engine_word_count e' ≡ count_words u (active_entries words))
      × ((text : Text)
          → (r : MatchResult) × (match_text u e' text ≡ some r)
            × (r.normalized_text ≡ normalize u text)
            × ((m : MatchItem) → Memᴰ m r.matches ↔ ActiveOccurs u words (normalize u text) m))
unfolding rebuild match_text engine_version engine_word_count
match_text-rebuild order visits_all u e words =
    let (ac, built, counted, found) =
      new_aho_corasick_lem order visits_all u (active_entries words) in
    (
      record { current = ac; version = (e.version + 1) % 2 ^ 64 },
      rw built,
      refl,
      counted,
      λ text.
          let t = normalize u text in
          let to = mem-occurrences u (active_entries words) t in
          let act = Occurs-ActiveOccurs u words t in
          (
            record { matches = occurrences u (active_entries words) t; normalized_text = t },
            rw (found t),
            refl,
            λ m. (λ h. (act m).0 ((to m).0 h), λ h. (to m).1 ((act m).1 h)),
          ),
    )
