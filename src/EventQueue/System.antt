-- ===== src/EventQueue/System.antt =====
-- The queue with its worker and its timeout scanner. Each move is what one task does between two
-- awaits, so a list of moves is an interleaving of the sensors, the worker and the scanner.
use glady_s.Prelude.{ℕ, ◌+◌, String, Bool, true, false, Option, none, some, List, [], ◌∷◌, ◌==◌}
use glady_s.Prelude.Tests.{if◌then◌else◌}
use glady_s.Prelude.Dict
use glady_s.Event.{Event, Score}
use glady_s.EventQueue.{EventQueue, QueuedEvent, Context, empty, enqueue, dequeue}
use glady_s.EventQueue.Process.{Callbacks, Outcome, returned, raised, process_event}
use glady_s.EventQueue.Timeout.{stale_ids, expire}
mod Effect
pub mod Accounts

pub record System : Type 0 where
  pub queue : EventQueue
  -- the event that the worker processes
  pub working : Option QueuedEvent
  -- what is left of the scanner's list `timed_out`
  pub expiring : List String
  -- the ids that were queued, that the worker took, and that timed out, the newest first
  pub arrived : List String
  pub taken : List String
  pub expired : List String

abbrev pub init : System
init = record {
  queue = empty;
  working = none;
  expiring = [];
  arrived = [];
  taken = [];
  expired = [];
}

pub data Move : Type 0 where
  arrives : Event → Score → Context → ℕ → Move
  takes : Move
  finishes : ℕ → Move
  scans : ℕ → Move
  expires : ℕ → Move

-- An idle worker that finds nothing clears the flag and waits for it.
abbrev pub after_take : System → EventQueue × Option QueuedEvent → System
after_take s (q, none) = record s { queue = record q { wake = false } }
after_take s (q, some e) = record s { queue = q; working = some e; taken = e.event_id ∷ s.taken }

abbrev pub rest_of_round {ℓ} : {A : Type ℓ} → Outcome A → List String → List String
rest_of_round raised ids = []
rest_of_round (returned a) ids = ids

abbrev pub take_if_idle : System → Option QueuedEvent → System
take_if_idle s none = after_take s (dequeue s.queue)
take_if_idle s (some e) = s

abbrev pub finish_if_busy : Callbacks → ℕ → System → Option QueuedEvent → System
finish_if_busy cb now s none = s
finish_if_busy cb now s (some e) = record s {
  queue = (process_event cb now e s.queue).0;
  working = none;
}

abbrev pub begin_round : ℕ → ℕ → System → List String → System
begin_round timeout now s [] = record s { expiring = stale_ids timeout now s.queue.pending }
begin_round timeout now s (id ∷ ids) = s

abbrev pub expire_one : Callbacks → ℕ → System → List String → System
expire_one cb now s [] = s
expire_one cb now s (id ∷ ids) =
    let (q, actions, outcome) = expire cb now id s.queue in
    record s {
      queue = q;
      expiring = rest_of_round outcome ids;
      expired = if Dict.has id s.queue.pending then id ∷ s.expired else s.expired;
    }

module _ (cb : Callbacks) (timeout : ℕ) where
  unfoldable pub step : System → Move → System
  step s (arrives event salience context now) = record s {
    queue = enqueue event salience context now s.queue;
    arrived = event.id ∷ s.arrived;
  }
  step s takes = take_if_idle s s.working
  step s (finishes now) = finish_if_busy cb now s s.working
  step s (scans now) = begin_round timeout now s s.expiring
  step s (expires now) = expire_one cb now s s.expiring

  unfoldable pub run : System → List Move → System
  run s [] = s
  run s (m ∷ moves) = run (step s m) moves
