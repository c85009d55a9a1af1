-- ===== src/Queue/Latency.antt =====
-- The latency summaries of crates/symbiotic-queue/src/lib.rs: `LatencyStats`, `nearest_rank` and
-- `QueueTelemetryAccumulator`. The ordered map of the accumulator is a list in the order of its keys.
use symbiotic_foundation.Base.{
  ℕ, ◌+◌, ◌-◌, ◌*◌, ◌/◌, ◌%◌, ◌^◌, max, String, Bool, Option, none, some, List, [], ◌∷◌, ◌++◌, leb,
  length, get_elem?, ◌==◌, string_eq, str_lt, if◌then◌else◌,
}
use symbiotic_foundation.Base.Outcome.{Outcome, done, panicked, expect, ◌>>=◌}
pub mod Ranks

pub record LatencyStats : Type 0 where
  pub count : ℕ
  pub p50_ms : ℕ
  pub p95_ms : ℕ
  pub max_ms : ℕ

abbrev pub no_latency : LatencyStats
no_latency = record { count = 0; p50_ms = 0; p95_ms = 0; max_ms = 0 }

-- `sort_unstable` on numbers, by insertion.
unfoldable pub place : ℕ → List ℕ → List ℕ
place a [] = a ∷ []
place a (b ∷ bs) = if leb a b then a ∷ b ∷ bs else b ∷ place a bs

unfoldable pub sort : List ℕ → List ℕ
sort [] = []
sort (a ∷ rest) = place a (sort rest)

-- `(percentile * len).div_ceil(100).max(1)` in `u64`.
unfoldable pub rank : ℕ → ℕ → ℕ
rank len percentile = max ((percentile * len % 2 ^ 64 + 99) / 100) 1

unfoldable pub nearest_rank : List ℕ → ℕ → Outcome ℕ
nearest_rank sorted percentile = expect (get_elem? sorted (rank (length sorted) percentile - 1))

abbrev pub last : List ℕ → Option ℕ
last [] = none
last (a ∷ []) = some a
last (a ∷ b ∷ bs) = last (b ∷ bs)

unfoldable pub stats_of : List ℕ → Outcome LatencyStats
stats_of sorted = do
  p50 ← nearest_rank sorted 50
  p95 ← nearest_rank sorted 95
  longest ← expect (last sorted)
  done (record { count = length sorted; p50_ms = p50; p95_ms = p95; max_ms = longest })

unfoldable pub from_samples : List ℕ → Outcome LatencyStats
from_samples [] = done no_latency
from_samples (s ∷ samples) = stats_of (sort (s ∷ samples))

pub record QueueTelemetrySamples : Type 0 where
  pub queue_wait_ms : List ℕ
  pub throttle_wait_ms : List ℕ
  pub provider_ms : List ℕ

abbrev pub no_samples : QueueTelemetrySamples
no_samples = record { queue_wait_ms = []; throttle_wait_ms = []; provider_ms = [] }

pub record QueueTelemetrySummary : Type 0 where
  pub queue_id : String
  pub queue_wait : LatencyStats
  pub throttle_wait : LatencyStats
  pub provider : LatencyStats

abbrev pub Accumulator : Type 0
Accumulator = List (String × QueueTelemetrySamples)

-- `self.queues.entry(queue_id).or_default()`, changed by `f`; a new key goes to its place.
unfoldable pub samples :
    Accumulator → String → (QueueTelemetrySamples → QueueTelemetrySamples) → Accumulator
samples [] q f = (q, f no_samples) ∷ []
samples ((r, s) ∷ queues) q f =
    if r == q
    then (r, f s) ∷ queues
    else if str_lt q r
    then (q, f no_samples) ∷ (r, s) ∷ queues
    else (r, s) ∷ samples queues q f

unfoldable pub observe_queue_wait : Accumulator → String → ℕ → Accumulator
observe_queue_wait queues q ms =
    samples queues q (λ s. record s { queue_wait_ms = s.queue_wait_ms ++ ms ∷ [] })

unfoldable pub observe_throttle_wait : Accumulator → String → ℕ → Accumulator
observe_throttle_wait queues q ms =
    samples queues q (λ s. record s { throttle_wait_ms = s.throttle_wait_ms ++ ms ∷ [] })

unfoldable pub observe_provider : Accumulator → String → ℕ → Accumulator
observe_provider queues q ms =
    samples queues q (λ s. record s { provider_ms = s.provider_ms ++ ms ∷ [] })

unfoldable pub summaries : Accumulator → Outcome (List QueueTelemetrySummary)
summaries [] = done []
summaries ((q, s) ∷ queues) = do
  queue_wait ← from_samples s.queue_wait_ms
  throttle_wait ← from_samples s.throttle_wait_ms
  provider ← from_samples s.provider_ms
  rest ← summaries queues
  done (
      record {
        queue_id = q;
        queue_wait = queue_wait;
        throttle_wait = throttle_wait;
        provider = provider;
      }
      ∷ rest)
