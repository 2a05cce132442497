-- ===== src/Watcher/Examples.antt =====
-- The watcher's theorems at a pattern and a fire.
use glady_s.Prelude.{String, none, some, [], ◌∷◌, ◌++◌, ◌≡◌, ◌≢◌, not, true, eq_iff, arith}
use glady_s.MemoryClient.{MemoryClient}
use glady_s.Watcher.{
  OutcomePattern, OutcomeWatcher, Fire, expectation, register_fire, resolves, check_event,
  expect_timeout, expect_pattern,
}
use glady_s.Watcher.Resolution.{register_fire-pending, check_event-register_fire, only_if}

abbrev oven : OutcomePattern
oven = record {
  trigger_pattern = "oven";
  outcome_pattern = "turned off";
  timeout_sec = 60;
  is_success = true;
}

abbrev fire : Fire
fire = record { heuristic_id = "h1"; event_id = "e1"; predicted_success = 700000; time = 10 }

abbrev watcher : OutcomeWatcher
watcher = record {
  patterns = oven ∷ [];
  default_timeout_sec = 120;
  pending = expect_pattern fire oven ∷ expect_timeout fire 5 ∷ [];
  condition_text_cache = [];
}

abbrev no_patterns : OutcomeWatcher
no_patterns = record {
  patterns = [];
  default_timeout_sec = 120;
  pending = [];
  condition_text_cache = [];
}

abbrev offline : MemoryClient
offline = record { stub = none }

named : fire.heuristic_id ≢ ""
named = ground (arith, eq_iff "h1" "")

condition_known : ◌≢◌ {A = String} "the oven is on" ""
condition_known = ground (arith, eq_iff "the oven is on" "")

text_known : ◌≢◌ {A = String} "Oven turned off" ""
text_known = ground (arith, eq_iff "Oven turned off" "")

register_fire-pending_example : register_fire (some offline) fire "the oven is on" watcher ≡ (
  record watcher { pending = watcher.pending ++ expectation fire "the oven is on" watcher ∷ [] },
  true,
)
register_fire-pending_example =
    register_fire-pending (some offline) fire "the oven is on" watcher named condition_known

check_event-register_fire_example :
    (check_event
      (some offline)
      "Oven turned off"
      (register_fire (some offline) fire "the oven is on" watcher).0).0.pending
    ≡ (check_event (some offline) "Oven turned off" watcher).0.pending
      ++ only_if
          (not (resolves "Oven turned off" (expectation fire "the oven is on" watcher)))
          (expectation fire "the oven is on" watcher)
check_event-register_fire_example =
    (check_event-register_fire (some offline) fire "the oven is on" "Oven turned off" watcher named
      condition_known text_known).0
