-- ===== src/Tests.antt =====
-- Runs of the model at concrete inputs, and the theorems at inputs that meet their hypotheses.
mod Inputs
mod Matching
mod Rewriting
mod Caching
mod Serving
mod Repeating
mod Managing
mod Polling
mod Batching
mod Requesting
mod Starting
mod Calling
mod Clearing
mod Exporting
mod Observing
mod Running
