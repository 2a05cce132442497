-- ===== src/FlowControl/Examples.antt =====
-- The token bucket's theorems at two events in ten seconds.
use glady_s.Prelude.{ℕ, ◌+◌, ◌*◌, ◌≤◌, ◌≡◌, refl, List, [], ◌∷◌, min, arith}
use glady_s.Prelude.Ints.{pos}
use glady_s.FlowControl.RateLimit.{RateLimitStrategy, rate_limit, ticks_per_second}
use glady_s.FlowControl.Rate.{publish_all, burst, publish_all-rate_limit, publish_all-burst}

abbrev bucket : RateLimitStrategy
bucket = record {
  max_events = 2;
  window_seconds = 10;
  tokens = pos 20_000_000_000;
  last_refill = 5_000_000_000;
}

abbrev times : List ℕ
times = 5_000_000_000 ∷ 6_000_000_000 ∷ 6_000_000_000 ∷ 15_000_000_000 ∷ []

publish_all-rate_limit_example :
    (publish_all (16_000_000_000 ∷ 17_000_000_000 ∷ []) (publish_all times bucket).0).1
      * (10 * ticks_per_second)
    ≤ 2 * (10 * ticks_per_second) + 2 * 10_000_000_000
unfolding rate_limit
publish_all-rate_limit_example =
    publish_all-rate_limit 2 10 5_000_000_000 16_000_000_000 10_000_000_000 times
      (16_000_000_000 ∷ 17_000_000_000 ∷ []) bucket refl (omega arith, (omega arith, omega arith))

publish_all-burst_example : (publish_all (burst 5 15_000_000_000) bucket).1 ≡ min 5 2
publish_all-burst_example =
    publish_all-burst 5 2 10 20_000_000_000 15_000_000_000 bucket (refl, refl, refl) (omega arith)
      (omega arith)
