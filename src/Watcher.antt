-- ===== src/Watcher.antt =====
-- outcome_watcher.py: expectations of what follows a heuristic's fire. An event that shows the
-- expected text gives feedback; an expectation that times out is handed to the learning module.
use glady_s.Prelude.{
  ℕ, ◌+◌, String, Bool, true, false, not, ◌&&◌, Option, none, some, List, [], ◌∷◌, ◌++◌, map, ◌==◌,
}
use glady_s.Prelude.Tests.{ltb, if◌then◌else◌}
use glady_s.Prelude.Lists.{keep, first, length}
use glady_s.Prelude.Dict
use glady_s.Prelude.Dict.{Dict}
use glady_s.Prelude.Text.{contains}
use glady_s.Event.{Score}
use glady_s.MemoryClient.{
  MemoryClient, ConfidenceUpdate, MemoryCall, updates, get_heuristic, update_heuristic_confidence,
}
pub mod Resolution
pub mod Expiry
mod Examples

pub record OutcomePattern : Type 0 where
  pub trigger_pattern : String
  pub outcome_pattern : String
  pub timeout_sec : ℕ
  pub is_success : Bool

pub record PendingOutcome : Type 0 where
  pub heuristic_id : String
  pub event_id : String
  pub trigger_pattern : String
  pub expected_pattern : String
  pub fire_time : ℕ
  pub timeout_at : ℕ
  pub predicted_success : Score
  pub is_success_outcome : Bool

pub record OutcomeWatcher : Type 0 where
  pub patterns : List OutcomePattern
  pub default_timeout_sec : ℕ
  pub pending : List PendingOutcome
  pub condition_text_cache : Dict String

abbrev fetch : Option MemoryClient → String → OutcomeWatcher → OutcomeWatcher × String
fetch none id w = (w, "")
fetch (some c) id w = elim (get_heuristic c id) [
  | none ↦ (w, "")
  | some h ↦ (
    record w { condition_text_cache = Dict.put id h.condition_text w.condition_text_cache },
    h.condition_text,
  )
]

unfoldable pub get_condition_text :
    Option MemoryClient → String → OutcomeWatcher → OutcomeWatcher × String
get_condition_text client id w = elim (Dict.get id w.condition_text_cache) [
  | some text ↦ (w, text)
  | none ↦ fetch client id w
]

-- A fire: the heuristic, the event that it answered, the predicted success and the time.
pub record Fire : Type 0 where
  pub heuristic_id : String
  pub event_id : String
  pub predicted_success : Score
  pub time : ℕ

abbrev pub expect_pattern : Fire → OutcomePattern → PendingOutcome
expect_pattern f p = record {
  heuristic_id = f.heuristic_id;
  event_id = f.event_id;
  trigger_pattern = p.trigger_pattern;
  expected_pattern = p.outcome_pattern;
  fire_time = f.time;
  timeout_at = f.time + p.timeout_sec;
  predicted_success = f.predicted_success;
  is_success_outcome = p.is_success;
}

-- An empty expected text: only the timeout ends it.
abbrev pub expect_timeout : Fire → ℕ → PendingOutcome
expect_timeout f timeout = record {
  heuristic_id = f.heuristic_id;
  event_id = f.event_id;
  trigger_pattern = "";
  expected_pattern = "";
  fire_time = f.time;
  timeout_at = f.time + timeout;
  predicted_success = f.predicted_success;
  is_success_outcome = true;
}

-- The first pattern whose trigger the condition shows, or the default timeout.
unfoldable pub expectation : Fire → String → OutcomeWatcher → PendingOutcome
expectation f text w = elim (first (λ p. contains p.trigger_pattern text) w.patterns) [
  | some p ↦ expect_pattern f p
  | none ↦ expect_timeout f w.default_timeout_sec
]

abbrev expect_with : Fire → OutcomeWatcher × String → OutcomeWatcher × Bool
expect_with f (w, text) =
    if text == ""
    then (w, false)
    else (record w { pending = w.pending ++ expectation f text w ∷ [] }, true)

unfoldable pub register_fire :
    Option MemoryClient → Fire → String → OutcomeWatcher → OutcomeWatcher × Bool
register_fire client f condition w =
    if f.heuristic_id == ""
    then (w, false)
    else expect_with f
        (if condition == "" then get_condition_text client f.heuristic_id w else (w, condition))

-- The event's text shows the expected text.
abbrev pub resolves : String → PendingOutcome → Bool
resolves raw_text p = not (p.expected_pattern == "") && contains p.expected_pattern raw_text

abbrev pub feedback : PendingOutcome → ConfidenceUpdate
feedback p = record {
  heuristic_id = p.heuristic_id;
  positive = p.is_success_outcome;
  magnitude = 1_000_000;
  predicted_success = p.predicted_success;
  feedback_source = "implicit";
}

abbrev pub send_feedback : Option MemoryClient → PendingOutcome → Bool
send_feedback none p = false
send_feedback (some c) p = update_heuristic_confidence c (feedback p)

abbrev pub feedback_calls : Option MemoryClient → List PendingOutcome → List MemoryCall
feedback_calls none matched = []
feedback_calls (some c) matched = map (λ p. updates (feedback p)) matched

unfoldable pub check_event :
    Option MemoryClient → String → OutcomeWatcher → OutcomeWatcher × List String × List MemoryCall
check_event client raw_text w =
    if raw_text == ""
    then (w, [], [])
    else (let matched = keep (resolves raw_text) w.pending in
        (
          record w { pending = keep (λ p. not (resolves raw_text p)) w.pending },
          map (λ (p : PendingOutcome). p.heuristic_id) (keep (send_feedback client) matched),
          feedback_calls client matched,
        ))

-- p.timeout_at < now
abbrev pub is_expired : ℕ → PendingOutcome → Bool
is_expired now p = ltb p.timeout_at now

unfoldable pub get_expired_items : ℕ → OutcomeWatcher → List (String × String)
get_expired_items now w =
    map (λ (p : PendingOutcome). (p.heuristic_id, p.event_id)) (keep (is_expired now) w.pending)

unfoldable pub cleanup_expired : ℕ → OutcomeWatcher → OutcomeWatcher × ℕ
cleanup_expired now w = (
  record w { pending = keep (λ p. not (is_expired now p)) w.pending },
  length (keep (is_expired now) w.pending),
)
