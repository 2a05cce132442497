-- ===== src/Learning/Strategy.antt =====
-- The signals and the Bayesian strategy of learning.py. A strategy reads feedback, timeouts, undo
-- texts and ignored fires as signals; it keeps no state. Windows and times have one unit.
use glady_s.Prelude.{ℕ, String, Bool, List, [], map}
use glady_s.Prelude.Tests.{leb, if◌then◌else◌}
use glady_s.Prelude.Lists.{exists}
use glady_s.Prelude.Text.{codes, lower, occurs}
use glady_s.Event.{Score}

pub data SignalType : Type 0 where
  positive negative neutral : SignalType

pub record FeedbackSignal : Type 0 where
  pub signal_type : SignalType
  pub heuristic_id : String
  pub event_id : String
  pub source : String
  pub magnitude : Score

pub record BayesianStrategyConfig : Type 0 where
  pub undo_window_sec : ℕ
  pub ignored_threshold : ℕ
  pub undo_keywords : List String
  pub implicit_magnitude : Score
  pub explicit_magnitude : Score
  pub outcome_timeout_sec : ℕ

unfoldable pub interpret_explicit_feedback :
    BayesianStrategyConfig → String → String → Bool → String → FeedbackSignal
interpret_explicit_feedback c event_id heuristic_id is_positive source = record {
  signal_type = if is_positive then positive else negative;
  heuristic_id = heuristic_id;
  event_id = event_id;
  source = source;
  magnitude = c.explicit_magnitude;
}

unfoldable pub interpret_timeout : BayesianStrategyConfig → String → String → FeedbackSignal
interpret_timeout c heuristic_id event_id = record {
  signal_type = positive;
  heuristic_id = heuristic_id;
  event_id = event_id;
  source = "implicit_timeout";
  magnitude = c.implicit_magnitude;
}

-- The keywords are searched as they are, in the text in lower case.
unfoldable pub has_undo_keyword : BayesianStrategyConfig → String → Bool
has_undo_keyword c text = exists (λ kw. occurs (codes kw) (lower text)) c.undo_keywords

abbrev pub undo_signal : BayesianStrategyConfig → String × String → FeedbackSignal
undo_signal c (heuristic_id, event_id) = record {
  signal_type = negative;
  heuristic_id = heuristic_id;
  event_id = event_id;
  source = "implicit_undo";
  magnitude = c.implicit_magnitude;
}

-- The recent fires are pairs of a heuristic and an event.
unfoldable pub interpret_event_for_undo :
    BayesianStrategyConfig → String → List (String × String) → List FeedbackSignal
interpret_event_for_undo c text fires =
    if has_undo_keyword c text then map (undo_signal c) fires else []

unfoldable pub interpret_ignore : BayesianStrategyConfig → String → ℕ → FeedbackSignal
interpret_ignore c heuristic_id count =
    if leb c.ignored_threshold count
    then record {
      signal_type = negative;
      heuristic_id = heuristic_id;
      event_id = "";
      source = "implicit_ignored";
      magnitude = c.implicit_magnitude;
    }
    else record {
      signal_type = neutral;
      heuristic_id = heuristic_id;
      event_id = "";
      source = "";
      magnitude = 1_000_000;
    }
