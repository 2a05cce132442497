-- ===== src/EventQueue/Examples.antt =====
-- The queue's theorems at concrete events.
use glady_s.Prelude.{String, ◌≡◌, ◌≢◌, refl, false, none, some, List, [], ◌∷◌, eq_iff, arith}
use glady_s.Prelude.Dict
use glady_s.Event.{Event, Salience}
use glady_s.EventQueue.{EventQueue, Context, empty, enqueue, dequeue, heappush, queued_event}
use glady_s.EventQueue.Process.{Callbacks, returned, process_event}
use glady_s.EventQueue.Heap.{in_heap}
use glady_s.EventQueue.Priority.{IsFaithful, waiting, waiting_in, insert_stable, Takes}
use glady_s.EventQueue.Faithful.{empty-IsFaithful, enqueue-IsFaithful}
use glady_s.EventQueue.Refinement.{waiting-enqueue, dequeue-Takes}
use glady_s.EventQueue.Storing.{stores_in, stores_in-process_event}
use glady_s.EventQueue.System.{Move, arrives, takes, finishes, scans, expires, init, step, run}
use glady_s.EventQueue.System.Accounts.{IsAccounted, AllFresh, run-init-IsAccounted}

abbrev quiet : Salience
quiet = record { threat = 0; salience = 0; habituation = 0; vector = []; model_id = "" }

abbrev event : String → Event
event id = record {
  id = id;
  source = "sensor";
  raw_text = "text";
  timestamp_ms = 0;
  salience = quiet;
  matched_heuristic_id = "";
}

abbrev plain : Context
plain = record {
  matched_heuristic_id = "";
  suggested_action = "";
  heuristic_confidence = 0;
  condition_text = "";
  candidates = [];
}

-- An Executive that answers nothing, and a memory that stores.
abbrev callbacks : Callbacks
callbacks = record {
  process = some (λ e s c. returned none);
  accepts_candidates = false;
  broadcast = none;
  store = some (λ e r. returned tt);
}

abbrev one : EventQueue
one = enqueue (event "a") 500000 plain 10 empty

one-IsFaithful : IsFaithful one
one-IsFaithful = enqueue-IsFaithful (event "a") 500000 plain 10 empty refl empty-IsFaithful

b_new : in_heap "b" one.heap ≡ false
unfolding enqueue heappush
b_new = refl

waiting-enqueue_example :
    waiting (enqueue (event "b") 700000 plain 12 one)
    ≡ insert_stable (queued_event (event "b") 700000 plain 12) (waiting one)
waiting-enqueue_example =
    waiting-enqueue (event "b") 700000 plain 12 (enqueue (event "a") 500000 plain 10 empty) b_new
      one-IsFaithful

front :
    waiting (enqueue (event "b") 700000 plain 12 one)
    ≡ queued_event (event "b") 700000 plain 12 ∷ queued_event (event "a") 500000 plain 10 ∷ []
unfolding enqueue heappush waiting_in Dict.get Dict.put
front = refl

dequeue-Takes_example : Takes (waiting one) (dequeue one)
dequeue-Takes_example = dequeue-Takes (enqueue (event "a") 500000 plain 10 empty) one-IsFaithful

a≢b : ◌≢◌ {A = String} "a" "b"
a≢b = ground (arith, eq_iff "a" "b")

stores_in-process_event_example :
    stores_in (process_event callbacks 5 (queued_event (event "a") 1 plain 4) one).1 ≡ 1
unfolding glady_s.EventQueue.Process.broadcast_part
stores_in-process_event_example =
    stores_in-process_event callbacks 5 (queued_event (event "a") 1 plain 4) one

-- "a" arrives and is taken; "b" arrives and times out while the worker is busy.
abbrev moves : List Move
moves =
    arrives (event "a") 5 plain 0
    ∷ takes
    ∷ arrives (event "b") 7 plain 1
    ∷ scans 40000
    ∷ expires 40001
    ∷ finishes 40002
    ∷ []

moves-AllFresh : AllFresh callbacks 30000 init moves
unfolding step dequeue glady_s.EventQueue.dequeue_from enqueue heappush Dict.get Dict.put
moves-AllFresh = (refl, (tt, (refl, (tt, (tt, (tt, tt))))))

run-init-IsAccounted_example : IsAccounted (run callbacks 30000 init moves)
run-init-IsAccounted_example = run-init-IsAccounted callbacks 30000 moves moves-AllFresh
