-- ===== src/Server/Publishing.antt =====
-- Publishing: what the servicer does with an event after the router has answered.
use glady_s.Prelude.{
  ◌∙◌, ℕ, suc, ◌+◌, ◌≡◌, refl, sym, ap, ◌≤◌, inl, inr, true, false, Option, none, some, String,
  List, [], ◌∷◌, ◌++◌, arith, ◌==◌,
}
use mathlib.Core.List.{append-nil}
use glady_s.Prelude.Tests.{if◌then◌else◌, Bool-cases, Option-cases}
use glady_s.Prelude.Lists.{length}
use glady_s.Event.{Event}
use glady_s.EventQueue.Process.{Suggestion}
use glady_s.Outcome.{returned}
use glady_s.EventQueue
use glady_s.EventQueue.{EventQueue, Context, Candidate}
use glady_s.MemoryClient.{get_heuristic}
use mathlib.Core.Option.{some-injective}
use glady_s.Router.Salience.{get_max_salience, Evaluation, get_salience, attach_salience}
use glady_s.Router.Route.{
  OrchestratorConfig, Services, Routing, queue_for_executive, route_evaluated, answer_emergency,
  is_emergency, EventAck, heuristic_data, route_event, observe, emergency_ack, candidates_of,
}
use glady_s.Router.Routing.{Emergency, emergency, emergency_iff}
use glady_s.Server.{
  OrchestratorServicer, Errors, evaluated_event, after_routing, publish_event, publish_events,
  stream_event, stream_events, context_with, get_or,
}

-- The acknowledgements of refused events.
abbrev pub refusals : List EventAck → Errors
refusals [] = []
refusals (ack ∷ acks) = if ack.accepted then refusals acks else ack.event_id ∷ refusals acks

abbrev pub accepted_in : List EventAck → ℕ
accepted_in [] = 0
accepted_in (ack ∷ acks) = if ack.accepted then suc (accepted_in acks) else accepted_in acks

same_context :
    (ack : EventAck) (o : Option Suggestion)
    → context_with ack o ≡ record {
      matched_heuristic_id = ack.matched_heuristic_id;
      suggested_action = get_or (λ g. g.suggested_action) "" o;
      heuristic_confidence = get_or (λ g. g.confidence) 0 o;
      condition_text = get_or (λ g. g.condition_text) "" o;
      candidates = ack.candidates;
    }
same_context ack none = refl
same_context ack (some g) = refl

-- The two bodies do the same.
stream_event-publish_event :
    (e : Event) (now : ℕ) (s : OrchestratorServicer) → stream_event e now s ≡ publish_event e now s
unfolding stream_event publish_event after_routing
stream_event-publish_event e now s =
    let ack = (route_event s.config s.services e now s.routing).1 in
    elim (Bool-cases ack.queued) [
      | inl k ↦ rw k (rw (same_context ack ack.suggestion) refl)
      | inr k ↦ rw k (elim (Bool-cases (ack.matched_heuristic_id == "")) [
        | inl d ↦ rw d (rw (append-nil s.stored) refl)
        | inr d ↦ rw d (elim (Bool-cases s.has_memory_client) [
          | inl m ↦ rw m refl
          | inr m ↦ rw m (rw (append-nil s.stored) refl)
        ])
      ])
    ]

-- The batch call is the stream of its events: it leaves the same state, and it counts the accepted
-- answers and lists the refused ones in their order, one of the two for each event.
pub publish_events-stream_events :
    (es : List Event) (now : ℕ) (s : OrchestratorServicer)
    → let (s', count, errors) = publish_events es now s in
      let (t', acks) = stream_events es now s in
      (s' ≡ t')
      × (count ≡ accepted_in acks)
      × (errors ≡ refusals acks)
      × (count + length errors ≡ length es)
unfolding publish_events stream_events
publish_events-stream_events [] now s = (refl, refl, refl, refl)
publish_events-stream_events (e ∷ es) now s =
    let (state, count, errors, sum) =
      publish_events-stream_events es now (publish_event e now s).0 in
    rw (stream_event-publish_event e now s) (elim (Bool-cases (publish_event e now s).1.accepted) [
      | inl held ↦ rw held (state, ap suc count, errors, omega (arith, sum))
      | inr missed ↦
          rw missed
            (state, count, ap (◌∷◌ (publish_event e now s).1.event_id) errors, omega (arith, sum))
    ])

evaluated_event-attached :
    (sv : Services) (e : Event) (v : Evaluation)
    → get_salience sv.salience_client e ≡ returned v
    → evaluated_event sv e ≡ attach_salience v e
unfolding evaluated_event
evaluated_event-attached sv e v evaluated = rw (evaluated, evaluated_event) refl

-- The queue's context of an event: what memory knows of the matched heuristic, and the candidates.
abbrev pub expected_context : String → Option Suggestion → List Candidate → Context
expected_context id none candidates = record {
  matched_heuristic_id = id;
  suggested_action = "";
  heuristic_confidence = 0;
  condition_text = "";
  candidates = candidates;
}
expected_context id (some g) candidates = record {
  matched_heuristic_id = id;
  suggested_action = g.suggested_action;
  heuristic_confidence = g.confidence;
  condition_text = g.condition_text;
  candidates = candidates;
}

context_with-expected :
    (ack : EventAck) (o : Option Suggestion)
    → context_with ack o ≡ expected_context ack.matched_heuristic_id o ack.candidates
context_with-expected ack none = refl
context_with-expected ack (some g) = refl

-- A heuristic that memory knows has an id.
heuristic_data-named :
    (sv : Services) (id : String) (h : Suggestion)
    → heuristic_data sv id ≡ some h
    → (h.heuristic_id == "") ≡ false
unfolding heuristic_data
heuristic_data-named sv id h known = elim (Bool-cases (id == "")) [
  | inl e ↦ absurd (some_is_some h (rw (e, heuristic_data) at known))
  | inr e ↦ elim (Option-cases sv.memory_client) [
    | inl n ↦ absurd (some_is_some h (rw (e, n, heuristic_data) at known))
    | inr (c, m) ↦ elim (Option-cases (get_heuristic c id)) [
      | inl n ↦ absurd (some_is_some h (rw (e, m, n, heuristic_data) at known))
      | inr (row, k) ↦
          let same = some-injective _ _ (rw (e, m, k, heuristic_data) at known) in
          ap (λ (g : Suggestion). g.heuristic_id == "") (sym same) ∙ e
    ]
  ]
]
  where
    some_is_some : (g : Suggestion) → none ≡ some g → ⊥
    some_is_some g k = absurd (ground arith)

routed_urgently :
    (c : OrchestratorConfig) (sv : Services) (e : Event) (now : ℕ) (r : Routing) (v : Evaluation)
    (h : Suggestion)
    → get_salience sv.salience_client e ≡ returned v
    → heuristic_data sv v.matched_heuristic ≡ some h
    → is_emergency c v.result.threat h ≡ true
    → (route_event c sv e now r).1 ≡ emergency_ack (attach_salience v e) h
unfolding route_event answer_emergency
routed_urgently c sv e now r v h evaluated known urgent =
    rw (evaluated, route_event) (rw known (rw urgent refl))

queued_ack :
    (c : OrchestratorConfig) (sv : Services) (e : Event) (v : Evaluation) (o : Option Suggestion)
    (now : ℕ) (r : Routing)
    → emergency c v.result.threat o ≡ false
    → route_evaluated c sv e v o now r ≡ queue_for_executive c sv e v o now r
queued_ack c sv e v none now r calm = refl
queued_ack c sv e v (some h) now r calm = rw calm refl

routed_calmly :
    (c : OrchestratorConfig) (sv : Services) (e : Event) (now : ℕ) (r : Routing) (v : Evaluation)
    → get_salience sv.salience_client e ≡ returned v
    → emergency c v.result.threat (heuristic_data sv v.matched_heuristic) ≡ false
    → (route_event c sv e now r).1
      ≡ (queue_for_executive c sv
          (attach_salience v e)
          v
          (heuristic_data sv v.matched_heuristic)
          now
          (observe sv e now r)).1
unfolding route_event
routed_calmly c sv e now r v evaluated calm =
    rw (evaluated, route_event)
      (ap (λ (x : Routing × EventAck). x.1)
        (queued_ack c sv (attach_salience v e) v (heuristic_data sv v.matched_heuristic) now
          (observe sv e now r) calm))

-- An event that is evaluated and is no emergency is put into the queue, with the salience attached
-- to it, by its highest salience, with what memory knows of the matched heuristic and with the
-- candidates; nothing is stored. In an emergency the queue stays as it is, and where there is a
-- memory client the event is stored once, with the action, the confidence and the id of the
-- heuristic that answers; where there is none, nothing is stored.
pub publish_event-enqueue :
    (e : Event) (now : ℕ) (s : OrchestratorServicer) (v : Evaluation)
    → get_salience s.services.salience_client e ≡ returned v
    → let s' = (publish_event e now s).0 in
      let suggested = heuristic_data s.services v.matched_heuristic in
      ((Emergency s.config v.result.threat suggested → ⊥)
        → (s'.event_queue
            ≡ EventQueue.enqueue
                (attach_salience v e)
                (get_max_salience v)
                (expected_context v.matched_heuristic suggested
                  (candidates_of s.config s.services (attach_salience v e) v.matched_heuristic))
                now
                s.event_queue)
          × (s'.stored ≡ s.stored))
      × ((h : Suggestion)
          → suggested ≡ some h
          → s.config.emergency_confidence_threshold ≤ h.confidence
          → s.config.emergency_threat_threshold ≤ v.result.threat
          → (s'.event_queue ≡ s.event_queue)
            × (s'.stored
                ≡ s.stored
                  ++ (if s.has_memory_client
                      then record {
                        event = attach_salience v e;
                        response_text = h.suggested_action;
                        predicted_success = h.confidence;
                        prediction_confidence = h.confidence;
                        matched_heuristic_id = h.heuristic_id;
                      }
                        ∷ []
                      else [])))
unfolding publish_event after_routing queue_for_executive
publish_event-enqueue e now s v evaluated = (
  λ peace.
      let calm = not_urgent peace in
      rw
        (
          routed_calmly s.config s.services e now s.routing v evaluated calm,
          evaluated_event-attached s.services e v evaluated,
          context_with-expected
              (queue_for_executive s.config s.services (attach_salience v e) v known_heuristic now
                (observe s.services e now s.routing)).1
              known_heuristic,
        )
        (refl, refl),
  λ h known sure threat.
      let urgent : is_emergency s.config v.result.threat h ≡ true = ground arith in
      rw
        (
          routed_urgently s.config s.services e now s.routing v h evaluated known urgent,
          evaluated_event-attached s.services e v evaluated,
          heuristic_data-named s.services v.matched_heuristic h known,
        )
        (refl, refl),
)
  where
    known_heuristic : Option Suggestion
    known_heuristic = heuristic_data s.services v.matched_heuristic

    not_urgent :
        (Emergency s.config v.result.threat known_heuristic → ⊥)
        → emergency s.config v.result.threat known_heuristic ≡ false
    not_urgent peace = elim (Bool-cases (emergency s.config v.result.threat known_heuristic)) [
      | inl urgent ↦
          absurd (peace ((emergency_iff s.config v.result.threat known_heuristic).0 urgent))
      | inr calm ↦ calm
    ]
