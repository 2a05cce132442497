-- ===== src/FlowControl/RateLimit.antt =====
-- RateLimitStrategy of flow_control.py: a token bucket. Clock readings are whole ticks, 10^9 to the
-- second. A token is `unit` parts, so that the refill of `max_events / window_seconds` tokens a
-- second is `max_events` parts a tick, without rounding.
use glady_s.Prelude.{ℕ, ◌-◌, ◌*◌, Bool, true, false}
use glady_s.Prelude.Tests.{nat_eq, if◌then◌else◌}
use glady_s.Prelude.Ints.{ℤ, pos, add_nat, sub_nat, min_nat, at_least, div_nat}
use glady_s.Outcome.{Outcome, returned, raised}

pub record RateLimitStrategy : Type 0 where
  pub max_events : ℕ
  pub window_seconds : ℕ
  -- in parts of a token
  pub tokens : ℤ
  pub last_refill : ℕ

abbrev pub ticks_per_second : ℕ
ticks_per_second = 1_000_000_000

-- The parts of one token.
abbrev pub unit : RateLimitStrategy → ℕ
unit s = s.window_seconds * ticks_per_second

-- Both numbers must be positive.
unfoldable pub rate_limit : ℕ → ℕ → ℕ → Outcome RateLimitStrategy
rate_limit max_events window_seconds now =
    if nat_eq max_events 0
    then raised
    else if nat_eq window_seconds 0
    then raised
    else returned (record {
      max_events = max_events;
      window_seconds = window_seconds;
      tokens = pos (max_events * (window_seconds * ticks_per_second));
      last_refill = now;
    })

-- A clock that goes back counts as no time.
unfoldable pub refill : ℕ → RateLimitStrategy → RateLimitStrategy
refill now s = record s {
  tokens =
      min_nat (s.max_events * unit s) (add_nat s.tokens ((now - s.last_refill) * s.max_events));
  last_refill = now;
}

abbrev pub spend : RateLimitStrategy → RateLimitStrategy × Bool
spend s =
    if at_least (unit s) s.tokens
    then (record s { tokens = sub_nat s.tokens (unit s) }, true)
    else (s, false)

unfoldable pub should_publish : ℕ → RateLimitStrategy → RateLimitStrategy × Bool
unfolding refill
should_publish now s = spend (refill now s)

unfoldable pub available_tokens : ℕ → RateLimitStrategy → RateLimitStrategy × ℤ
available_tokens now s = let s' = refill now s in (s', div_nat s'.tokens (unit s'))

-- The tokens may go below zero.
unfoldable pub consume : ℕ → RateLimitStrategy → RateLimitStrategy
consume n s = record s { tokens = sub_nat s.tokens (n * unit s) }
