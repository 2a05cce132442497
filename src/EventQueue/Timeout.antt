-- ===== src/EventQueue/Timeout.antt =====
-- `_timeout_scanner` of event_queue.py. A round first lists the ids that are too old, then takes
-- them out one by one; other tasks may run between the two, and at each of its awaits.
use glady_s.Prelude.{refl, ◌≡◌, inl, inr, ℕ, ◌+◌, String, Bool, none, some, List, [], ◌∷◌, ◌++◌}
use glady_s.Prelude.Tests.{ltb, Option-cases, if◌then◌else◌}
use glady_s.Prelude.Dict
use glady_s.Prelude.Dict.{Dict, not-has_of_none, has-get}
use glady_s.EventQueue.{EventQueue, QueuedEvent}
use glady_s.EventQueue.Process.{
  Callbacks, Broadcast, Outcome, returned, raised, Action, broadcasts, stores, notice,
}

-- now_ms - queued.enqueue_time_ms > timeout_ms
abbrev pub is_stale : ℕ → ℕ → QueuedEvent → Bool
is_stale timeout now e = ltb (timeout + e.enqueue_time_ms) now

unfoldable pub stale_ids : ℕ → ℕ → Dict QueuedEvent → List String
stale_ids timeout now [] = []
stale_ids timeout now ((id, e) ∷ pending) =
    let rest = stale_ids timeout now pending in if is_stale timeout now e then id ∷ rest else rest

abbrev pub timeout_broadcast : String → QueuedEvent → ℕ → Broadcast
timeout_broadcast id e now = record {
  event_id = id;
  response_id = "";
  response_text = "(Request timed out)";
  predicted_success = 0;
  prediction_confidence = 0;
  routing_path = "TIMEOUT";
  matched_heuristic_id = e.matched_heuristic_id;
  event_source = e.event.source;
  event_timestamp_ms = e.enqueue_time_ms;
  response_timestamp_ms = now;
}

-- The notice is stored, then broadcast; only what the broadcast raises leaves the loop.
unfoldable pub notify : Callbacks → String → QueuedEvent → ℕ → List Action × Outcome (Unit {0})
notify cb id e now =
    let b = timeout_broadcast id e now in
    let stored : List Action = elim cb.store [
      | none ↦ []
      | some f ↦ stores e.event (notice b) ∷ []
    ] in
    elim cb.broadcast [ none ↦ (stored, returned tt) | some f ↦ (stored ++ broadcasts b ∷ [], f b) ]

-- One turn of the loop: `_pending.pop(event_id, None)`, and if the event was still there the count
-- and the notices.
unfoldable pub expire :
    Callbacks → ℕ → String → EventQueue → EventQueue × List Action × Outcome (Unit {0})
expire cb now id q = elim (Dict.get id q.pending) [
  | none ↦ (q, [], returned tt)
  | some e ↦
      let (actions, outcome) = notify cb id e now in
      (
        record q { pending = Dict.remove id q.pending; total_timed_out = q.total_timed_out + 1 },
        actions,
        outcome,
      )
]

-- The loop with nothing in between. An exception ends the round.
unfoldable pub expire_all : Callbacks → ℕ → List String → EventQueue → EventQueue × List Action
expire_all cb now [] q = (q, [])
expire_all cb now (id ∷ ids) q =
    let (q', actions, outcome) = expire cb now id q in
    elim outcome [
      | raised ↦ (q', actions)
      | returned _ ↦ let (q'', later) = expire_all cb now ids q' in (q'', actions ++ later)
    ]

unfoldable pub scan : Callbacks → ℕ → ℕ → EventQueue → EventQueue × List Action
scan cb timeout now q = expire_all cb now (stale_ids timeout now q.pending) q

-- What a turn of the loop changes.
abbrev pub without : String → EventQueue → EventQueue
without id q = record q {
  pending = Dict.remove id q.pending;
  total_timed_out = q.total_timed_out + 1;
}

pub expire_state :
    (cb : Callbacks) (now : ℕ) (id : String) (q : EventQueue)
    → (expire cb now id q).0 ≡ (if Dict.has id q.pending then without id q else q)
unfolding expire
expire_state cb now id q = elim (Option-cases (Dict.get id q.pending)) [
  | inl n ↦ rw (n, expire) (rw (not-has_of_none id q.pending n) refl)
  | inr (x, n) ↦ rw (n, expire) (rw (has-get id q.pending x n) refl)
]
