-- ===== src/Examples/Summaries.antt =====
-- The theorems about codes and latencies.
use symbiotic_foundation.Base.{some, [], ◌∷◌, ◌≡◌, arith}
use symbiotic_foundation.Base.Outcome.{done}
use symbiotic_foundation.Core.Diagnostics.{
  lease_expired, diagnostic_code, diagnostic_parse, queue, class_code, class_parse,
}
use symbiotic_foundation.Core.RoundTrip.{codes_parse_back}
use symbiotic_foundation.Queue.Latency.{LatencyStats, from_samples}
use symbiotic_foundation.Queue.Latency.Ranks.{Summarises, from_samples-Summarises}

codes_parse_back_example :
    (diagnostic_parse (diagnostic_code lease_expired) ≡ some lease_expired)
    × (class_parse (class_code queue) ≡ some queue)
codes_parse_back_example = codes_parse_back lease_expired queue

from_samples-Summarises_example :
    (r : LatencyStats) × (from_samples (40 ∷ 10 ∷ 30 ∷ []) ≡ done r)
    × Summarises (40 ∷ 10 ∷ 30 ∷ []) r
from_samples-Summarises_example = from_samples-Summarises 40 (10 ∷ 30 ∷ []) (omega arith)
