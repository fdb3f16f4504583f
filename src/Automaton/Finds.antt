-- ===== src/Automaton/Finds.antt =====
-- The search of a built automaton, against the places of the words in the normalized text.
use mathlib.Core.List.{Memᴰ}
use censorhub.Prelude.{ℕ, ◌≡◌, ◌↔◌, some, List}
use censorhub.Text.{Text, Unicode, normalize}
use censorhub.Domain.{MatchItem}
use censorhub.Automaton.{WordEntry, Edge, AhoCorasick, new_aho_corasick, search}
use censorhub.Automaton.Levels.{VisitsAll}
use censorhub.Automaton.Correct.{new_aho_corasick_lem}
use censorhub.Automaton.Search.{occurrences}
use censorhub.Automaton.Occurrences.{Occurs}
use censorhub.Automaton.Places.{mem-occurrences}

-- For every order in which the runtime visits the children of the nodes, the automaton of a list
-- of words is built, and the search of any text with it returns a list of matches. An item is in
-- that list exactly when a word of the list, whose normalized text is not empty, stands in the
-- normalized text at the item's position, and the item has the word's text, category and level
-- and the end of that place.
pub search-Occurs :
    (order : ℕ → List Edge → List Edge)
    → VisitsAll order
    → (u : Unicode) (words : List WordEntry)
    → (ac : AhoCorasick) × (new_aho_corasick order u words ≡ some ac)
      × ((text : Text)
          → (ms : List MatchItem) × (search u ac text ≡ some ms)
            × ((m : MatchItem) → Memᴰ m ms ↔ Occurs u words (normalize u text) m))
unfolding search
search-Occurs order visits_all u words =
    let (ac, built, _, found) = new_aho_corasick_lem order visits_all u words in
    (
      ac,
      built,
      λ text. (
        occurrences u words (normalize u text),
        found (normalize u text),
        mem-occurrences u words (normalize u text),
      ),
    )
