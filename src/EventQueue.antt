-- ===== src/EventQueue.antt =====
-- event_queue.py of the orchestrator: events wait for the Executive by salience, are taken by one
-- worker, and time out. A `heapq` list is a list in the order of its pops.
use glady_s.Prelude.{ℕ, ◌+◌, String, Bool, true, false, Option, none, some, List, [], ◌∷◌}
use glady_s.Prelude.Tests.{ltb, nat_eq, if◌then◌else◌}
use glady_s.Prelude.Lists.{length}
use glady_s.Prelude.Dict
use glady_s.Prelude.Dict.{Dict}
use glady_s.Event.{Event, Score}
pub mod Process
pub mod Timeout
pub mod Heap
pub mod Priority
pub mod Faithful
pub mod Refinement
pub mod Stale
pub mod Storing
pub mod System
mod Examples

-- A below-threshold heuristic that goes along as a candidate.
pub record Candidate : Type 0 where
  pub heuristic_id : String
  pub suggested_action : String
  pub confidence : Score
  pub condition_text : String

pub record QueuedEvent : Type 0 where
  pub event_id : String
  pub event : Event
  pub salience : Score
  pub enqueue_time_ms : ℕ
  pub matched_heuristic_id : String
  pub suggested_action : String
  pub heuristic_confidence : Score
  pub condition_text : String
  pub candidates : List Candidate

-- (-salience, counter, event_id)
pub record HeapEntry : Type 0 where
  pub salience : Score
  pub counter : ℕ
  pub event_id : String

pub record EventQueue : Type 0 where
  pub heap : List HeapEntry
  pub counter : ℕ
  pub pending : Dict QueuedEvent
  pub shutdown : Bool
  -- the flag of `_enqueue_event`, which the idle worker waits for
  pub wake : Bool
  pub total_queued : ℕ
  pub total_processed : ℕ
  pub total_timed_out : ℕ

abbrev pub empty : EventQueue
empty = record {
  heap = [];
  counter = 0;
  pending = [];
  shutdown = false;
  wake = false;
  total_queued = 0;
  total_processed = 0;
  total_timed_out = 0;
}

-- The tuple order: higher salience first, then the lower counter. Counters are never equal.
abbrev pub before : HeapEntry → HeapEntry → Bool
before a b =
    if ltb b.salience a.salience
    then true
    else if nat_eq a.salience b.salience
    then ltb a.counter b.counter
    else false

-- heapq.heappush
unfoldable pub heappush : HeapEntry → List HeapEntry → List HeapEntry
heappush a [] = a ∷ []
heappush a (b ∷ heap) =
    let later = heappush a heap in if before b a then b ∷ later else a ∷ b ∷ heap

-- The arguments of `enqueue` beside the event and its salience.
pub record Context : Type 0 where
  pub matched_heuristic_id : String
  pub suggested_action : String
  pub heuristic_confidence : Score
  pub condition_text : String
  pub candidates : List Candidate

abbrev pub queued_event : Event → Score → Context → ℕ → QueuedEvent
queued_event event salience c now = record {
  event_id = event.id;
  event = event;
  salience = salience;
  enqueue_time_ms = now;
  matched_heuristic_id = c.matched_heuristic_id;
  suggested_action = c.suggested_action;
  heuristic_confidence = c.heuristic_confidence;
  condition_text = c.condition_text;
  candidates = c.candidates;
}

unfoldable pub enqueue : Event → Score → Context → ℕ → EventQueue → EventQueue
enqueue event salience context now q = record q {
  pending = Dict.put event.id (queued_event event salience context now) q.pending;
  heap = heappush (record { salience = salience; counter = q.counter; event_id = event.id }) q.heap;
  counter = q.counter + 1;
  total_queued = q.total_queued + 1;
  wake = true;
}

-- The loop of `_dequeue`, over what is left of the heap: entries whose event is gone are dropped.
unfoldable pub dequeue_from : List HeapEntry → EventQueue → EventQueue × Option QueuedEvent
dequeue_from [] q = (record q { heap = [] }, none)
dequeue_from (a ∷ heap) q = elim (Dict.get a.event_id q.pending) [
  | none ↦ dequeue_from heap q
  | some queued ↦
      (record q { heap = heap; pending = Dict.remove a.event_id q.pending }, some queued)
]

unfoldable pub dequeue : EventQueue → EventQueue × Option QueuedEvent
dequeue q = dequeue_from q.heap q

pub record Stats : Type 0 where
  pub queue_size : ℕ
  pub total_queued : ℕ
  pub total_processed : ℕ
  pub total_timed_out : ℕ

abbrev pub stats : EventQueue → Stats
stats q = record {
  queue_size = length q.pending;
  total_queued = q.total_queued;
  total_processed = q.total_processed;
  total_timed_out = q.total_timed_out;
}
