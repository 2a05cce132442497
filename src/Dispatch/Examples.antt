-- ===== src/Dispatch/Examples.antt =====
-- The dispatcher's theorems at a batch of three events.
use glady_s.Prelude.{ℕ, String, ◌≡◌, refl, true, not, none, some, List, [], ◌∷◌}
use glady_s.Prelude.Ints.{pos}
use glady_s.Prelude.Lists.{keep, All}
use glady_s.Outcome.{returned, raised}
use glady_s.FlowControl.{limited, FlowStrategy}
use glady_s.Dispatch.{GladysClient, EventDispatcher, flush}
use glady_s.Dispatch.Batch.{
  SensorEvent, as_dict, absent, enumerate, select_by_priority, has_index, selection,
}
use glady_s.Dispatch.Indices.{index_of}
use glady_s.Dispatch.Order.{Subsequence, selection-Subsequence}
use glady_s.Dispatch.Priority.{Outranks, select_by_priority-Outranks}
use glady_s.Dispatch.Totals.{handled}
use glady_s.Dispatch.Runs.{emits, batches, flushes, run, all_events, run-Accounts, flush-buffer}

abbrev event : String → SensorEvent
event text = record { is_dict = true; salience = absent; raw_text = text }

abbrev threat : SensorEvent
threat = record { is_dict = true; salience = as_dict (some 1); raw_text = "fire" }

abbrev events : List SensorEvent
events = event "a" ∷ threat ∷ event "b" ∷ []

-- One token.
abbrev one_token : FlowStrategy
one_token =
    limited
      (record { max_events = 1; window_seconds = 1; tokens = pos 1_000_000_000; last_refill = 0 })

abbrev later_first : SensorEvent → ℕ
later_first e = elim e.salience [ absent ↦ 5 | _ ↦ 1 ]

abbrev dispatcher : EventDispatcher
dispatcher = record {
  flush_interval_ms = 600;
  immediate_on_threat = true;
  strategy = one_token;
  priority_fn = none;
  buffer = [];
  events_filtered = 0;
  events_published = 0;
  calls = [];
}

abbrev reliable : GladysClient
reliable = record { answer = λ calls p. returned tt }

abbrev broken : GladysClient
broken = record { answer = λ calls p. raised }

selection-Subsequence_example : Subsequence (selection 0 events one_token none).1 events
selection-Subsequence_example = (selection-Subsequence 0 events one_token none).0

select_by_priority-Outranks_example :
    All
      (λ x. All (Outranks later_first x) (
        keep
          (λ c.
            not (
              has_index
                (index_of c)
                (select_by_priority (some later_first) (enumerate 0 events) 2)))
          (enumerate 0 events)))
      (select_by_priority (some later_first) (enumerate 0 events) 2)
select_by_priority-Outranks_example = select_by_priority-Outranks later_first (enumerate 0 events) 2

run-Accounts_example :
    (run reliable (emits 0 threat ∷ batches 1 events ∷ flushes ∷ []) dispatcher).events_published
    ≡ handled (run reliable (emits 0 threat ∷ batches 1 events ∷ flushes ∷ []) dispatcher)
run-Accounts_example =
    (run-Accounts reliable (emits 0 threat ∷ batches 1 events ∷ flushes ∷ []) dispatcher
      (λ calls p. refl) refl).1

flush-buffer_example :
    all_events (flush broken (record dispatcher { buffer = events })).0.calls ≡ events
flush-buffer_example = (flush-buffer broken (record dispatcher { buffer = events })).1
