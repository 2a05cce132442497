-- ===== src/Learning.antt =====
-- learning.py: the facade through which the router reports fires, feedback and events. A method
-- returns the new state and the calls that it makes to the memory service, in order.
pub mod Strategy
pub mod Ignored
pub mod Cleanup
mod Examples
use glady_s.Prelude.{
  ℕ, ◌+◌, String, Bool, true, false, not, ◌&&◌, Option, none, some, List, [], ◌∷◌, ◌++◌, map, ◌==◌,
}
use glady_s.Prelude.Tests.{ltb, if◌then◌else◌}
use glady_s.Prelude.Lists.{keep, exists}
use glady_s.Prelude.Dict
use glady_s.Prelude.Dict.{Dict}
use glady_s.Event.{Event, Score}
use glady_s.MemoryClient.{MemoryClient, ConfidenceUpdate, MemoryCall, updates, records}
use glady_s.Watcher
use glady_s.Watcher.{OutcomeWatcher}
use Strategy.{
  SignalType, positive, negative, neutral, FeedbackSignal, BayesianStrategyConfig,
  interpret_explicit_feedback, interpret_timeout, interpret_event_for_undo, interpret_ignore,
}

pub record FireRecord : Type 0 where
  pub heuristic_id : String
  pub event_id : String
  pub fire_time : ℕ
  pub condition_text : String
  pub predicted_success : Score
  pub source : String

pub record LearningModule : Type 0 where
  pub strategy : BayesianStrategyConfig
  pub outcome_watcher : Option OutcomeWatcher
  pub recent_fires : List FireRecord
  -- a set: ids may stand on the list more than once
  pub acknowledged_fires : List String
  pub ignore_counts : Dict ℕ

abbrev pub is_positive : SignalType → Bool
is_positive positive = true
is_positive negative = false
is_positive neutral = false

abbrev update_of : FeedbackSignal → ConfidenceUpdate
update_of s = record {
  heuristic_id = s.heuristic_id;
  positive = is_positive s.signal_type;
  magnitude = s.magnitude;
  predicted_success = 0;
  feedback_source = s.source;
}

abbrev apply_typed : Option MemoryClient → FeedbackSignal → SignalType → List MemoryCall
apply_typed client s neutral = []
apply_typed none s t = []
apply_typed (some c) s t = updates (update_of s) ∷ []

-- Neutral signals, and all without a client, are dropped. The answer is only logged.
unfoldable pub apply_signal : Option MemoryClient → FeedbackSignal → List MemoryCall
apply_signal client s = apply_typed client s s.signal_type

unfoldable pub apply_all : Option MemoryClient → List FeedbackSignal → List MemoryCall
apply_all client [] = []
apply_all client (s ∷ signals) = apply_signal client s ++ apply_all client signals

unfoldable pub on_feedback :
    Option MemoryClient
    → String
    → String
    → Bool
    → String
    → LearningModule
    → LearningModule × List MemoryCall
on_feedback client event_id heuristic_id is_positive source m = (
  record m {
    acknowledged_fires = event_id ∷ m.acknowledged_fires;
    ignore_counts = Dict.remove heuristic_id m.ignore_counts;
  },
  apply_signal client
      (interpret_explicit_feedback m.strategy event_id heuristic_id is_positive source),
)

abbrev record_calls : Option MemoryClient → FireRecord → List MemoryCall
record_calls none f = []
record_calls (some c) f =
    records
      (record { heuristic_id = f.heuristic_id; event_id = f.event_id; episodic_event_id = "" })
    ∷ []

abbrev watch : Option MemoryClient → FireRecord → Option OutcomeWatcher → Option OutcomeWatcher
watch client f none = none
watch client f (some w) =
    some
      (Watcher.register_fire client
        (record {
          heuristic_id = f.heuristic_id;
          event_id = f.event_id;
          predicted_success = f.predicted_success;
          time = f.fire_time;
        })
        f.condition_text w).0

unfoldable pub on_fire :
    Option MemoryClient → FireRecord → LearningModule → LearningModule × List MemoryCall
on_fire client f m = (
  record m {
    outcome_watcher = watch client f m.outcome_watcher;
    recent_fires = m.recent_fires ++ f ∷ [];
  },
  record_calls client f,
)

-- r.fire_time >= now - window
abbrev pub in_window : ℕ → ℕ → FireRecord → Bool
in_window window now r = not (ltb (r.fire_time + window) now)

-- r.fire_time < now - window
abbrev pub out_of_window : ℕ → ℕ → FireRecord → Bool
out_of_window window now r = ltb (r.fire_time + window) now

abbrev pub fire_ids : FireRecord → String × String
fire_ids r = (r.heuristic_id, r.event_id)

-- The negative signals of an undo, and the heuristics that they name. The fires stay.
unfoldable pub check_undo_signal :
    Option MemoryClient → String → ℕ → LearningModule → List String × List MemoryCall
check_undo_signal client raw_text now m =
    let recent = map fire_ids (keep (in_window m.strategy.undo_window_sec now) m.recent_fires) in
    let signals = interpret_event_for_undo m.strategy raw_text recent in
    (map (λ (s : FeedbackSignal). s.heuristic_id) signals, apply_all client signals)

abbrev pub count_of : Option ℕ → ℕ
count_of none = 0
count_of (some n) = n

abbrev set_count : String → ℕ → LearningModule → LearningModule
set_count id n m = record m { ignore_counts = Dict.put id n m.ignore_counts }

abbrev ignored_with :
    Option MemoryClient
    → String
    → ℕ
    → LearningModule
    → FeedbackSignal
    → SignalType
    → LearningModule × List MemoryCall
ignored_with client id count m s neutral = (set_count id count m, [])
ignored_with client id count m s t = (set_count id 0 m, apply_signal client s)

unfoldable pub on_heuristic_ignored :
    Option MemoryClient → String → LearningModule → LearningModule × List MemoryCall
unfolding interpret_ignore
on_heuristic_ignored client id m =
    let count = count_of (Dict.get id m.ignore_counts) + 1 in
    let signal = interpret_ignore m.strategy id count in
    ignored_with client id count m signal signal.signal_type

unfoldable pub all_ignored :
    Option MemoryClient → List String → LearningModule → LearningModule × List MemoryCall
all_ignored client [] m = (m, [])
all_ignored client (id ∷ ids) m =
    let (m', calls) = on_heuristic_ignored client id m in
    let (m'', later) = all_ignored client ids m' in (m'', calls ++ later)

abbrev pub acknowledged : LearningModule → String → Bool
acknowledged m id = exists (λ j. j == id) m.acknowledged_fires

-- A fire from the event's source, in the window, without feedback.
abbrev pub is_ignored : String → ℕ → LearningModule → FireRecord → Bool
is_ignored source now m r =
    r.source == source
    && in_window m.strategy.undo_window_sec now r
    && not (acknowledged m r.event_id)

unfoldable pub check_ignored_fires :
    Option MemoryClient → String → ℕ → LearningModule → LearningModule × List MemoryCall
check_ignored_fires client source now m =
    let ignored =
      map (λ (r : FireRecord). r.heuristic_id) (keep (is_ignored source now m) m.recent_fires) in
    all_ignored client ignored
      (record m { recent_fires = keep (λ r. not (is_ignored source now m r)) m.recent_fires })

abbrev watch_event :
    Option MemoryClient
    → String
    → Option OutcomeWatcher
    → Option OutcomeWatcher × List String × List MemoryCall
watch_event client raw_text none = (none, [], [])
watch_event client raw_text (some w) =
    let (w', resolved, calls) = Watcher.check_event client raw_text w in (some w', resolved, calls)

-- The three checks of an event, in their order.
unfoldable pub check_event_for_outcomes :
    Option MemoryClient
    → Event
    → ℕ
    → LearningModule
    → LearningModule × List String × List MemoryCall
check_event_for_outcomes client event now m =
    let (w, resolved, calls) = watch_event client event.raw_text m.outcome_watcher in
    let m' = record m { outcome_watcher = w } in
    let (undone, undo_calls) =
      if event.raw_text == "" then ([], []) else check_undo_signal client event.raw_text now m' in
    let (m'', ignore_calls) =
      if event.source == "" then (m', []) else check_ignored_fires client event.source now m' in
    (m'', resolved ++ undone, calls ++ undo_calls ++ ignore_calls)

abbrev timeout_signals : BayesianStrategyConfig → List (String × String) → List FeedbackSignal
timeout_signals c items = map (λ (i : String × String). interpret_timeout c i.0 i.1) items

abbrev pub drop_ids : List String → List String → List String
drop_ids gone ids = keep (λ id. not (exists (λ j. j == id) gone)) ids

-- `now` is read three times: for the list of expired items, for their removal, and for the window.
unfoldable pub cleanup_expired :
    Option MemoryClient → ℕ → ℕ → ℕ → LearningModule → LearningModule × ℕ × List MemoryCall
cleanup_expired client listed removed now m = elim m.outcome_watcher [
  | none ↦ (m, 0, [])
  | some w ↦
      let (w', count) = Watcher.cleanup_expired removed w in
      let old = keep (out_of_window m.strategy.undo_window_sec now) m.recent_fires in
      (
        record m {
          outcome_watcher = some w';
          recent_fires = keep (in_window m.strategy.undo_window_sec now) m.recent_fires;
          acknowledged_fires =
              drop_ids (map (λ (r : FireRecord). r.event_id) old) m.acknowledged_fires;
        },
        count,
        apply_all client (timeout_signals m.strategy (Watcher.get_expired_items listed w)),
      )
]
