-- ===== src/Tests/Matching.antt =====
-- The automaton and the engine.
use mathlib.Core.List.{Memᴰ}
use censorhub.Prelude.{
  ℕ, ◌+◌, ◌%◌, ◌^◌, ◌≡◌, ◌↔◌, refl, some, pos, List, [], ◌∷◌, Option, ◌>>=◌, map,
}
use censorhub.Text.{Text, runes, normalize}
use censorhub.Domain.{MatchItem, category_ad, category_abuse, status_active, status_inactive}
use censorhub.Domain.Word.{SensitiveWord}
use censorhub.Automaton.{AhoCorasick, new_aho_corasick, search, search_normalized}
use censorhub.Automaton.Insert.{count_words}
use censorhub.Automaton.Search.{occurrences}
use censorhub.Automaton.Occurrences.{Occurs}
use censorhub.Automaton.Correct.{new_aho_corasick_lem}
use censorhub.Automaton.Finds.{search-Occurs}
use censorhub.Engine.{
  FilterEngine, MatchResult, active_entries, rebuild, match_text, engine_version, engine_word_count,
}
use censorhub.Engine.Rebuild.{ActiveOccurs, match_text-rebuild}
use censorhub.Tests.Inputs.{ascii, keep_order, keep_order-VisitsAll, entries}

-- The positions and ends of the matches.
abbrev places : List MatchItem → List (ℕ × ℕ)
places = map (λ (m : MatchItem). (m.position, m.end_pos))

found_in : Text → Option (List (ℕ × ℕ))
unfolding new_aho_corasick search
found_in text = do
  ac ← new_aho_corasick keep_order ascii entries
  ms ← search ascii ac text
  some (places ms)

casino_found : found_in (runes "A CASINO sin") ≡ some ((4, 7) ∷ (2, 8) ∷ (6, 8) ∷ (9, 12) ∷ [])
unfolding found_in normalize
casino_found = refl

search-Occurs_example :
    (ac : AhoCorasick) × (new_aho_corasick keep_order ascii entries ≡ some ac)
    × ((text : Text)
        → (ms : List MatchItem) × (search ascii ac text ≡ some ms)
          × ((m : MatchItem) → Memᴰ m ms ↔ Occurs ascii entries (normalize ascii text) m))
search-Occurs_example = search-Occurs keep_order keep_order-VisitsAll ascii entries

new_aho_corasick_example :
    (ac : AhoCorasick) × (new_aho_corasick keep_order ascii entries ≡ some ac)
    × (ac.word_count ≡ count_words ascii entries)
    × ((text : Text) → search_normalized ac text ≡ some (occurrences ascii entries text))
new_aho_corasick_example = new_aho_corasick_lem keep_order keep_order-VisitsAll ascii entries

abbrev pub word_list : List SensitiveWord
word_list =
    record {
      id = 1;
      text = runes "sin";
      category = category_abuse;
      level = pos 1;
      status = status_active;
      tag = [];
      created_at = 5;
      updated_at = 5;
    }
    ∷ record {
      id = 2;
      text = runes "casino";
      category = category_ad;
      level = pos 2;
      status = status_inactive;
      tag = [];
      created_at = 6;
      updated_at = 9;
    }
    ∷ []

abbrev pub idle : FilterEngine
idle = record {
  current = record {
    heap = record { next = 1; children = λ a. []; fail = λ a. Option.none; output = λ a. [] };
    word_count = 0;
  };
  version = 0;
}

match_text-rebuild_example :
    (e' : FilterEngine) × (rebuild keep_order ascii idle word_list ≡ some e')
    × (engine_version e' ≡ (engine_version idle + 1) % 2 ^ 64)
    × (engine_word_count e' ≡ count_words ascii (active_entries word_list))
    × ((text : Text)
        → (r : MatchResult) × (match_text ascii e' text ≡ some r)
          × (r.normalized_text ≡ normalize ascii text)
          × ((m : MatchItem)
              → Memᴰ m r.matches ↔ ActiveOccurs ascii word_list (normalize ascii text) m))
match_text-rebuild_example = match_text-rebuild keep_order keep_order-VisitsAll ascii idle word_list
