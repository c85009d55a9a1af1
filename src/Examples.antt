-- ===== src/Examples.antt =====
-- The theorems at concrete inputs.
mod Queues
mod Summaries
mod Bundles
mod Decoding
mod Ordering
mod Ledgers
mod Failures
mod Runners
