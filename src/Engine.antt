-- ===== src/Engine.antt =====
-- internal/infrastructure/algorithm/filter_engine.go: the engine that holds the current automaton.
-- The atomic fields are read and written in the order of the source; one call at a time here, the
-- interleavings of calls are in Service.Race. `none` is a panic.
pub mod Rebuild
use censorhub.Prelude.{ℕ, ◌+◌, ◌%◌, ◌^◌, Option, some, List, [], ◌∷◌, not, if◌then◌else◌, ◌>>=◌}
use censorhub.Text.{Text, Unicode, normalize}
use censorhub.Domain.{MatchItem}
use censorhub.Domain.Word.{SensitiveWord, is_active}
use censorhub.Automaton.{WordEntry, Edge, AhoCorasick, new_aho_corasick, search_normalized}

pub record MatchResult : Type 0 where
  pub matches : List MatchItem
  pub normalized_text : Text

pub record FilterEngine : Type 0 where
  pub current : AhoCorasick
  pub version : ℕ  -- uint64

-- The loop of `Rebuild`: the active words as entries of the automaton.
unfoldable pub active_entries : List SensitiveWord → List WordEntry
active_entries [] = []
active_entries (w ∷ ws) =
    let rest = active_entries ws in
    if not (is_active w)
    then rest
    else record { text = w.text; category = w.category; level = w.level } ∷ rest

module _ (order : ℕ → List Edge → List Edge) (u : Unicode) where
  unfoldable pub new_filter_engine : Option FilterEngine
  new_filter_engine = do
    ac ← new_aho_corasick order u []
    some (record { current = ac; version = 0 })

  unfoldable pub rebuild : FilterEngine → List SensitiveWord → Option FilterEngine
  unfolding active_entries
  rebuild e words = do
    new_ac ← new_aho_corasick order u (active_entries words)
    let stored = record e { current = new_ac }
    some (record stored { version = (stored.version + 1) % 2 ^ 64 })

-- `Match`: one load of the automaton serves the whole search.
unfoldable pub match_text : Unicode → FilterEngine → Text → Option MatchResult
match_text u e text =
    let ac = e.current in
    let normalized = normalize u text in
    do
      ms ← search_normalized ac normalized
      some (record { matches = ms; normalized_text = normalized })

unfoldable pub engine_word_count : FilterEngine → ℕ
engine_word_count e = e.current.word_count

unfoldable pub engine_version : FilterEngine → ℕ
engine_version e = e.version
