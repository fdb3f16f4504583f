-- ===== src/Strategy.antt =====
-- internal/infrastructure/algorithm/strategy_*.go: what each strategy makes of the matches.
pub mod Sort
pub mod Replace
pub mod Intervals
pub mod Highlight
pub mod Apply
