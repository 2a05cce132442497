-- ===== src/FlowControl.antt =====
-- flow_control.py of the Python SDK: the strategies that a sensor asks before it publishes, and
-- their choice from the dictionary that comes with the registration.
pub mod RateLimit
pub mod Rate
mod Examples
use glady_s.Prelude.{ℕ, String, Bool, true, Option, none, some}
use glady_s.Prelude.Tests.{if◌then◌else◌}
use glady_s.Prelude.Text.{codes, lower, same_codes}
use glady_s.Prelude.Ints.{ℤ, pos}
use glady_s.Outcome.{Outcome, returned, raised}
use RateLimit.{RateLimitStrategy, rate_limit}

-- The strategies of the SDK, behind the interface of all strategies.
pub data FlowStrategy : Type 0 where
  no_op : FlowStrategy
  limited : RateLimitStrategy → FlowStrategy

-- sys.maxsize
abbrev pub maxsize : ℕ
maxsize = 9_223_372_036_854_775_807

unfoldable pub should_publish : ℕ → FlowStrategy → FlowStrategy × Bool
should_publish now no_op = (no_op, true)
should_publish now (limited s) =
    let (s', answer) = RateLimit.should_publish now s in (limited s', answer)

unfoldable pub available_tokens : ℕ → FlowStrategy → FlowStrategy × ℤ
available_tokens now no_op = (no_op, pos maxsize)
available_tokens now (limited s) =
    let (s', tokens) = RateLimit.available_tokens now s in (limited s', tokens)

unfoldable pub consume : ℕ → FlowStrategy → FlowStrategy
consume n no_op = no_op
consume n (limited s) = limited (RateLimit.consume n s)

-- The dictionary that the orchestrator sends at registration.
pub record StrategyConfig : Type 0 where
  pub strategy : Option String
  pub max_events : Option ℕ
  pub window_seconds : Option ℕ

abbrev name_of : Option String → String
name_of none = "none"
name_of (some name) = name

abbrev limited_of : Outcome RateLimitStrategy → Outcome FlowStrategy
limited_of raised = raised
limited_of (returned s) = returned (limited s)

-- A missing key raises.
abbrev rate_limit_of : ℕ → Option ℕ → Option ℕ → Outcome FlowStrategy
rate_limit_of now (some m) (some w) = limited_of (rate_limit m w now)
rate_limit_of now none w = raised
rate_limit_of now (some m) none = raised

unfoldable pub create_strategy : StrategyConfig → ℕ → Outcome FlowStrategy
create_strategy config now =
    let name = lower (name_of config.strategy) in
    if same_codes name (codes "none")
    then returned no_op
    else if same_codes name (codes "rate_limit")
    then rate_limit_of now config.max_events config.window_seconds
    else returned no_op
