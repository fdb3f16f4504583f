-- ===== src/Lib.antt =====
-- The verification library of censorhub, a service that finds sensitive words in texts.
--
-- Parts of the program and their files. A request's text is normalized, searched by an
-- Aho-Corasick automaton which the filter engine holds and rebuilds from the active words, and the
-- matches are reported, replaced or highlighted by a strategy. The filter service answers from a
-- cache first: a local cache in the process, then Redis behind a circuit breaker, under a key that
-- names the version of the engine.
--
-- Text         internal/infrastructure/algorithm/text_normalizer.go: Normalize, NormalizeForIndex.
-- Domain       internal/domain: the value objects, SensitiveWord with Validate, MaxRiskLevel.
-- Automaton    internal/infrastructure/algorithm/ac_automaton.go: insert, buildFailPointers, Search,
--              SearchNormalized. The nodes lie on a heap of addresses in the order of allocation.
--              Trie, Insert, Suffix, Levels, Link, Child, Depth, Queue, Root and Build are the
--              invariants of the construction, Search, Correct, Occurrences, Places and Finds those of
--              the search.
-- Engine       internal/infrastructure/algorithm/filter_engine.go: Match, Rebuild, WordCount, Version.
-- Strategy     internal/infrastructure/algorithm/strategy_detect.go, strategy_replace.go and
--              strategy_highlight.go: the Apply methods with replaceMatches, mergeIntervals and
--              highlightMatches; Apply also stands for the map of strategies of cmd/server/main.go.
-- Cache        internal/infrastructure/cache: Breaker is circuit_breaker.go, Local with Table and Hash
--              is local_cache.go, MultiLevel is multi_level_cache.go, Redis is redis_cache.go.
-- Service      internal/application/service/filter_app_service.go: Filter with Key for filterCacheKey
--              and the conversions of internal/application; Filter.Repeated has calls of it one after the
--              other; Race is Filter against Rebuild, step by step;
--              Batch is BatchDetect, its workers as turns.
-- Words        the word service: Table is internal/infrastructure/persistence/mysql/word_repo.go as
--              functions of a table, Manage is internal/application/service/word_app_service.go with
--              Create, Update, Delete, Get and Import, Poll the same file with reconcileOnce and InitEngine,
--              Listing List, Export ExportToWriter with FindInBatches, and Poll.Loop pollLoop between
--              requests, with Start and Close. Keeps, Requests, Outcomes, Updates, Failures,
--              Export.Reading and Export.Prefixes are proofs, as are Poll.Fingerprint, Poll.Writes,
--              Poll.Current and Poll.Passing.
-- Web          Errors is pkg/errors/errors.go, Reply internal/interfaces/http/response, Limiter and
--              Middleware internal/interfaces/middleware, Handlers internal/interfaces/http/handler and
--              Router internal/interfaces/http/router.go, with Observe for logger.go and metrics.go of the
--              middlewares. A handler is a function of a request and of the state of the server, a
--              middleware one of the next handler.
-- Rpc          internal/interfaces/grpc: server.go and interceptor.go.
-- Config       internal/infrastructure/config/config.go; Paths and Load are its parts.
-- Connections  pkg/logger/logger.go, internal/infrastructure/database and internal/infrastructure/trace.
-- Startup      cmd/server/main.go: the services and the settings that the start builds; Process is the
--              whole of main, with the errors, the deferred functions and the shutdown.
-- Prelude      helpers of all parts. Tests holds runs and the theorems at concrete inputs.
--
-- State is passed explicitly; a panic, an index out of range or a nil that is dereferenced is
-- `none`. Strings are the lists of their runes, of valid UTF-8. An `int` that may be negative is an
-- unbounded ℤ; one that only counts or indexes is a ℕ, and its subtractions stay at 0 or above: a
-- match, for one, ends no earlier than the length of its word. The version and the offset of a
-- page wrap at 2^64, the FNV hashes at 2^32 and 2^64.
--
-- Fuel. The loop over the queue of buildFailPointers has as much fuel as the queue ever holds nodes,
-- the climb along fail pointers and the fall back of the search as many as there are nodes, since a
-- fail pointer leads to a node of smaller depth. A number below 2^64 has at most 13 digits to base 36.
--
-- Parameters, for code outside the repository or choices of the runtime: NFKC, ToLower and the white
-- space test of Unicode; the order of `range` over a map, which visits every child of a node once;
-- sort.Slice, which permutes and sorts by position and need not be stable; the JSON codec; the
-- replies of Redis with the pages of its scans, and the entries of other processes in it; the batches
-- that gorm finds, and what a writer takes of a text before it fails; the decoding, the routing and
-- the redirects of gin; the token bucket; viper; the collation of the words' texts and categories and
-- its LIKE; the readings of the clock and the random waits.
--
-- Not modelled: the time that Close waits for the loop of the poll; the number of the workers of
-- BatchDetect, which only bounds the orders of the turns; what a panic leaves behind; a write
-- that fails within a rune; the events of
-- internal/domain/event, which nothing uses; the durations and sizes of the metrics, the counters of
-- the services, the spans of tracing and the log lines but those of the requests and of the DSN, which
-- only observe; the generated protocol code; the measuring tools under test/perf.
pub mod Prelude
pub mod Text
pub mod Domain
pub mod Automaton
pub mod Engine
pub mod Strategy
pub mod Cache
pub mod Service
pub mod Words
pub mod Web
pub mod Config
pub mod Rpc
pub mod Connections
pub mod Startup
mod Tests
