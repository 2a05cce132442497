-- ===== src/EventQueue/Process.antt =====
-- `_process_event` of event_queue.py: the calls to the Executive, to the subscribers and to memory.
pub use glady_s.Outcome.{Outcome, returned, raised, Outcome-cases}
use glady_s.Prelude.{
  refl, inr, ◌≡◌, inl, ℕ, ◌+◌, String, Bool, ◌&&◌, not, Option, none, some, List, [], ◌∷◌, ◌++◌,
  ◌==◌,
}
use glady_s.Prelude.Tests.{if◌then◌else◌}
use glady_s.Event.{Event, Score}
use glady_s.EventQueue.{EventQueue, QueuedEvent, Candidate}

pub record Suggestion : Type 0 where
  pub heuristic_id : String
  pub suggested_action : String
  pub confidence : Score
  pub condition_text : String

pub record Response : Type 0 where
  pub response_id : String
  pub response_text : String
  pub predicted_success : Score
  pub prediction_confidence : Score
  pub decision_path : String
  pub routing_path : String

-- What is broadcast to subscribers.
pub record Broadcast : Type 0 where
  pub event_id : String
  pub response_id : String
  pub response_text : String
  pub predicted_success : Score
  pub prediction_confidence : Score
  pub routing_path : String
  pub matched_heuristic_id : String
  pub event_source : String
  pub event_timestamp_ms : ℕ
  pub response_timestamp_ms : ℕ

-- What is stored with an event: the Executive's response, or the notice that the event timed out.
pub data Stored : Type 0 where
  answer : Response → Stored
  notice : Broadcast → Stored

-- The calls of the callbacks, in order.
pub data Action : Type 0 where
  processes : Event → Option Suggestion → List Candidate → Action
  broadcasts : Broadcast → Action
  stores : Event → Stored → Action

-- The three callbacks, each of which may be absent or raise. A callback that returns no response,
-- or an empty one, returns `none`.
pub record Callbacks : Type 0 where
  pub process : Option (Event → Option Suggestion → List Candidate → Outcome (Option Response))
  -- the callback takes the candidates too
  pub accepts_candidates : Bool
  pub broadcast : Option (Broadcast → Outcome (Unit {0}))
  pub store : Option (Event → Stored → Outcome (Unit {0}))

-- A low-confidence match goes along only with both its id and its action.
abbrev pub suggestion_of : QueuedEvent → Option Suggestion
suggestion_of e =
    if not (e.matched_heuristic_id == "") && not (e.suggested_action == "")
    then some (record {
      heuristic_id = e.matched_heuristic_id;
      suggested_action = e.suggested_action;
      confidence = e.heuristic_confidence;
      condition_text = e.condition_text;
    })
    else none

abbrev pub queued_broadcast : QueuedEvent → Response → ℕ → Broadcast
queued_broadcast e r now = record {
  event_id = e.event_id;
  response_id = r.response_id;
  response_text = r.response_text;
  predicted_success = r.predicted_success;
  prediction_confidence = r.prediction_confidence;
  routing_path = "QUEUED";
  matched_heuristic_id = e.matched_heuristic_id;
  event_source = e.event.source;
  event_timestamp_ms = e.enqueue_time_ms;
  response_timestamp_ms = now;
}

abbrev pub unavailable : Response
unavailable = record {
  response_id = "";
  response_text = "(Executive unavailable)";
  predicted_success = 0;
  prediction_confidence = 0;
  decision_path = "no_executive";
  routing_path = "QUEUED";
}

abbrev pub or_unavailable : Option Response → Response
or_unavailable none = unavailable
or_unavailable (some r) = r

-- What the process callback is handed: the candidates only if it takes them.
abbrev pub candidates_for : Callbacks → QueuedEvent → List Candidate
candidates_for cb e = if cb.accepts_candidates then e.candidates else []

-- No callback is as a callback without a response.
abbrev pub call_process : Callbacks → QueuedEvent → Outcome (Option Response)
call_process cb e = elim cb.process [
  | none ↦ returned none
  | some f ↦ f e.event (suggestion_of e) (candidates_for cb e)
]

abbrev pub process_actions : Callbacks → QueuedEvent → List Action
process_actions cb e = elim cb.process [
  | none ↦ []
  | some f ↦ processes e.event (suggestion_of e) (candidates_for cb e) ∷ []
]

-- The broadcast, when there is a callback and a response.
unfoldable pub broadcast_part :
    Callbacks → QueuedEvent → ℕ → Option Response → List Action × Outcome (Unit {0})
broadcast_part cb e now none = ([], returned tt)
broadcast_part cb e now (some r) = elim cb.broadcast [
  | none ↦ ([], returned tt)
  | some f ↦ (broadcasts (queued_broadcast e r now) ∷ [], f (queued_broadcast e r now))
]

-- The store. What it raises is logged, and ends nothing.
unfoldable pub store_part : Callbacks → QueuedEvent → Option Response → List Action
store_part cb e response = elim cb.store [
  | none ↦ []
  | some f ↦ stores e.event (answer (or_unavailable response)) ∷ []
]

-- After the Executive's answer: the count, then the broadcast, then the store unless that raised.
unfoldable pub after_answer :
    Callbacks → QueuedEvent → ℕ → Outcome (Option Response) → EventQueue → EventQueue × List Action
unfolding broadcast_part store_part
after_answer cb e now raised q = (q, [])
after_answer cb e now (returned response) q =
    let counted = record q { total_processed = q.total_processed + 1 } in
    let (sent, outcome) = broadcast_part cb e now response in
    elim outcome [
      | raised ↦ (counted, sent)
      | returned _ ↦ (counted, sent ++ store_part cb e response)
    ]

unfoldable pub process_event : Callbacks → ℕ → QueuedEvent → EventQueue → EventQueue × List Action
unfolding after_answer
process_event cb now e q =
    let (q', later) = after_answer cb e now (call_process cb e) q in
    (q', process_actions cb e ++ later)

after_answer_state :
    (cb : Callbacks) (e : QueuedEvent) (now : ℕ) (o : Outcome (Option Response)) (q : EventQueue)
    → (after_answer cb e now o q).0
      ≡ elim o [ raised ↦ q | returned _ ↦ record q { total_processed = q.total_processed + 1 } ]
unfolding after_answer
after_answer_state cb e now raised q = refl
after_answer_state cb e now (returned response) q =
    elim (Outcome-cases (broadcast_part cb e now response).1) [
      | inl p ↦ rw (p, after_answer) refl
      | inr (_, p) ↦ rw (p, after_answer) refl
    ]

-- `process_event` changes the count of processed events and nothing else.
pub process_event_state :
    (cb : Callbacks) (now : ℕ) (e : QueuedEvent) (q : EventQueue)
    → (process_event cb now e q).0 ≡ elim (call_process cb e) [
      | raised ↦ q
      | returned _ ↦ record q { total_processed = q.total_processed + 1 }
    ]
unfolding process_event
process_event_state cb now e q = after_answer_state cb e now (call_process cb e) q

pub process_event_cases {ℓ} :
    (P : EventQueue → Type ℓ) (cb : Callbacks) (now : ℕ) (e : QueuedEvent) (q : EventQueue)
    → P q
    → P (record q { total_processed = q.total_processed + 1 })
    → P (process_event cb now e q).0
process_event_cases P cb now e q failed done =
    rw (process_event_state cb now e q)
      (elim (Outcome-cases (call_process cb e)) [ inl p ↦ rw p failed | inr (_, p) ↦ rw p done ])
