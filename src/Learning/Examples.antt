-- ===== src/Learning/Examples.antt =====
-- The learning module's theorems at two fires.
use glady_s.Prelude.{String, none, some, [], ◌∷◌, ◌++◌, ◌≡◌, ◌+◌, true, refl, eq_iff, arith}
use glady_s.Prelude.Lists.{length, keep}
use glady_s.MemoryClient.{MemoryClient, updates}
use glady_s.Watcher.{OutcomeWatcher, expect_timeout}
use glady_s.Learning.{LearningModule, FireRecord, on_fire, cleanup_expired}
use glady_s.Learning.Strategy.{BayesianStrategyConfig}
use glady_s.Learning.Cleanup.{in_gap, cleanup_expired-signals, cleanup_expired-on_fire}

abbrev strategy : BayesianStrategyConfig
strategy = record {
  undo_window_sec = 60;
  ignored_threshold = 3;
  undo_keywords = "undo" ∷ "revert" ∷ [];
  implicit_magnitude = 500000;
  explicit_magnitude = 800000;
  outcome_timeout_sec = 120;
}

abbrev fire : String → FireRecord
fire id = record {
  heuristic_id = "h1";
  event_id = id;
  fire_time = 100;
  condition_text = "the oven is on";
  predicted_success = 700000;
  source = "kitchen";
}

abbrev watcher : OutcomeWatcher
watcher = record {
  patterns = [];
  default_timeout_sec = 120;
  pending =
      expect_timeout
        (record { heuristic_id = "h2"; event_id = "e0"; predicted_success = 0; time = 100 }) 120
      ∷ [];
  condition_text_cache = [];
}

abbrev module_state : LearningModule
module_state = record {
  strategy = strategy;
  outcome_watcher = some watcher;
  recent_fires = fire "e1" ∷ [];
  acknowledged_fires = "e9" ∷ [];
  ignore_counts = [];
}

abbrev offline : MemoryClient
offline = record { stub = none }

-- The expectation times out at 220: the list of 219 misses it, the removal of 221 takes it out.
cleanup_expired-signals_example :
    (cleanup_expired (some offline) 219 221 221 module_state).1
    ≡ length (cleanup_expired (some offline) 219 221 221 module_state).2
      + length (keep (in_gap 219 221) watcher.pending)
cleanup_expired-signals_example =
    (cleanup_expired-signals offline 219 221 221 module_state watcher refl (omega arith)).1

cleanup_expired-on_fire_example :
    (cleanup_expired
      (some offline)
      300
      300
      300
      (on_fire (some offline) (fire "e3") module_state).0).2
    ≡ (cleanup_expired (some offline) 300 300 300 module_state).2
      ++ updates (record {
        heuristic_id = "h1";
        positive = true;
        magnitude = 500000;
        predicted_success = 0;
        feedback_source = "implicit_timeout";
      })
        ∷ []
cleanup_expired-on_fire_example =
    cleanup_expired-on_fire offline (fire "e3") 300 300 300 module_state watcher refl
      (ground (arith, eq_iff "h1" "")) (ground (arith, eq_iff "the oven is on" "")) refl
      (omega arith)
