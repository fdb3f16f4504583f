-- ===== src/Service/Race.antt =====
-- `Filter` of internal/application/service/filter_app_service.go against `Rebuild` of
-- internal/infrastructure/algorithm/filter_engine.go, step by step: the version and the automaton of
-- the engine are two atomics. The steps are those of the calls for one text and one strategy, whose
-- key then names the version. The automata are numbered in the order in which they are stored; the
-- version does not reach 2^64. The cache holds what the calls of this process wrote and, by way of
-- Redis, what others did: other processes, or this one before a restart.
pub mod Labels
use censorhub.Prelude.{ℕ, suc, ◌≡◌, List, [], ◌∷◌, ◌++◌}

-- A call of `Filter` after it read the version, and after it also searched with an automaton.
pub data Flight : Type 0 where
  keyed : ℕ → Flight
  matched : ℕ → ℕ → Flight

-- Where an answer comes from: an automaton of this process by its number, or another process.
pub data Source : Type 0 where
  own : ℕ → Source
  other : Source

pub record Shared : Type 0 where
  pub stored : ℕ  -- the number of the current automaton
  pub version : ℕ
  pub pending : ℕ  -- calls of `Rebuild` between the two atomics
  pub flights : List Flight
  pub entries : List (ℕ × Source)  -- the cache: a version in the key, the source of the answer
  pub answers : List (ℕ × Source)  -- the version that a call read, the source of its answer

pub data Step : Shared → Shared → Type 0 where
  -- `e.current.Store(newAC)`: the mutex keeps the calls of `Rebuild` apart.
  stores : (s : Shared) → s.pending ≡ 0 → Step s (record s { stored = suc s.stored; pending = 1 })
  -- `e.version.Add(1)`
  counts :
      (s : Shared) (n : ℕ)
      → s.pending ≡ suc n
      → Step s (record s { version = suc s.version; pending = n })
  -- `engineVersion := s.engine.Version()`
  reads : (s : Shared) → Step s (record s { flights = keyed s.version ∷ s.flights })
  -- The cache has the key: the call answers with the entry.
  hits :
      (s : Shared) (fs gs : List Flight) (es ds : List (ℕ × Source)) (v : ℕ) (g : Source)
      → s.flights ≡ fs ++ keyed v ∷ gs
      → s.entries ≡ es ++ (v, g) ∷ ds
      → Step s (record s { flights = fs ++ gs; answers = (v, g) ∷ s.answers })
  -- `s.engine.Match(req.Text)`
  matches :
      (s : Shared) (fs gs : List Flight) (v : ℕ)
      → s.flights ≡ fs ++ keyed v ∷ gs
      → Step s (record s { flights = fs ++ matched v s.stored ∷ gs })
  -- `s.cache.Set(ctx, cacheKey, data)`, and the answer
  ends :
      (s : Shared) (fs gs : List Flight) (v g : ℕ)
      → s.flights ≡ fs ++ matched v g ∷ gs
      → Step s (record s {
        flights = fs ++ gs;
        entries = (v, own g) ∷ s.entries;
        answers = (v, own g) ∷ s.answers;
      })
  -- Another process writes an entry to Redis, with the version of its own engine.
  arrives : (s : Shared) (v : ℕ) → Step s (record s { entries = (v, other) ∷ s.entries })
  -- The cache loses an entry.
  loses :
      (s : Shared) (es ds : List (ℕ × Source)) (e : ℕ × Source)
      → s.entries ≡ es ++ e ∷ ds
      → Step s (record s { entries = es ++ ds })

pub data Steps : Shared → Shared → Type 0 where
  done : (s : Shared) → Steps s s
  then : {s t r : Shared} → Step s t → Steps t r → Steps s r

abbrev pub at_start : Shared
at_start = record { stored = 0; version = 0; pending = 0; flights = []; entries = []; answers = [] }
