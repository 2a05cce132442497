-- ===== src/Server.antt =====
-- server.py of the orchestrator: the servicer that joins the router, the event queue and the
-- registry. The calls to memory of the router stand in its state; those of the servicer itself, the
-- storing of events that were answered at once, are kept as a list.
pub mod Publishing
pub mod Heartbeats
mod Examples
use glady_s.Prelude.{
  ℕ, suc, ◌+◌, String, Bool, true, false, not, ◌&&◌, Option, none, some, List, [], ◌∷◌, ◌++◌, map,
  ◌==◌,
}
use glady_s.Prelude.Tests.{ltb, leb, if◌then◌else◌}
use glady_s.Prelude.Lists.{length, take}
use glady_s.Prelude.Ints.{ℤ, pos, sub_nat}
use glady_s.Prelude.Sorting.{sort_by}
use glady_s.Prelude.Dict
use glady_s.Prelude.Dict.{Dict, values}
use glady_s.Event.{Event, Score}
use glady_s.Outcome.{Outcome, returned, raised}
use glady_s.Registry
use glady_s.Registry.{Registry, ComponentInfo, CommandDict}
use glady_s.EventQueue
use glady_s.EventQueue.Process.{Suggestion}
use glady_s.EventQueue.{EventQueue, QueuedEvent, Context, Candidate, Stats}
use glady_s.Router
use glady_s.Router.{EventRouter}
use glady_s.Router.Salience.{get_salience, attach_salience}
use glady_s.Router.Route.{OrchestratorConfig, Services, Routing, EventAck, route_event}

-- An event that is stored with its answer; no prompt, path or response id goes along.
pub record StoredEvent : Type 0 where
  pub event : Event
  pub response_text : String
  pub predicted_success : Score
  pub prediction_confidence : Score
  pub matched_heuristic_id : String

pub record OrchestratorServicer : Type 0 where
  pub config : OrchestratorConfig
  pub services : Services
  pub registry : Registry
  pub routing : Routing
  pub event_queue : EventQueue
  pub stored : List StoredEvent
  pub has_memory_client : Bool

-- The router attaches the salience to the event itself, so what is queued or stored has it.
unfoldable pub evaluated_event : Services → Event → Event
evaluated_event sv e = elim (get_salience sv.salience_client e) [
  | raised ↦ e
  | returned s ↦ attach_salience s e
]

-- result.get("_salience", 0.5)
abbrev pub salience_or_half : Option Score → Score
salience_or_half none = 500000
salience_or_half (some x) = x

abbrev pub context_with : EventAck → Option Suggestion → Context
context_with ack none = record {
  matched_heuristic_id = ack.matched_heuristic_id;
  suggested_action = "";
  heuristic_confidence = 0;
  condition_text = "";
  candidates = ack.candidates;
}
context_with ack (some s) = record {
  matched_heuristic_id = ack.matched_heuristic_id;
  suggested_action = s.suggested_action;
  heuristic_confidence = s.confidence;
  condition_text = s.condition_text;
  candidates = ack.candidates;
}

abbrev pub queue_context : EventAck → Context
queue_context ack = context_with ack ack.suggestion

-- What is stored of an event that was not queued.
abbrev pub stored_now : Bool → Event → EventAck → List StoredEvent
stored_now has_memory e ack =
    if ack.matched_heuristic_id == ""
    then []
    else if has_memory
    then record {
      event = e;
      response_text = ack.response_text;
      predicted_success = ack.predicted_success;
      prediction_confidence = ack.prediction_confidence;
      matched_heuristic_id = ack.matched_heuristic_id;
    }
      ∷ []
    else []

-- After the routing: to the queue, or to memory.
unfoldable pub after_routing : Event → ℕ → EventAck → OrchestratorServicer → OrchestratorServicer
after_routing e now ack s =
    if ack.queued
    then record s {
      event_queue =
          EventQueue.enqueue e (salience_or_half ack.salience) (queue_context ack) now
            s.event_queue;
    }
    else record s { stored = s.stored ++ stored_now s.has_memory_client e ack }

-- PublishEvent
unfoldable pub publish_event : Event → ℕ → OrchestratorServicer → OrchestratorServicer × EventAck
unfolding after_routing evaluated_event
publish_event e now s =
    let (routing, ack) = route_event s.config s.services e now s.routing in
    (after_routing (evaluated_event s.services e) now ack (record s { routing = routing }), ack)

-- The ids of the events that were refused; the message is not kept.
abbrev pub Errors : Type 0
Errors = List String

-- PublishEvents: the number that was accepted, and the errors.
unfoldable pub publish_events :
    List Event → ℕ → OrchestratorServicer → OrchestratorServicer × ℕ × Errors
publish_events [] now s = (s, 0, [])
publish_events (e ∷ es) now s =
    let (s', ack) = publish_event e now s in
    let (s'', count, errors) = publish_events es now s' in
    if ack.accepted then (s'', suc count, errors) else (s'', count, ack.event_id ∷ errors)

-- suggestion.get(..., default), of a suggestion that may be the empty dictionary
abbrev pub get_or {ℓ} : {A : Type ℓ} → (Suggestion → A) → A → Option Suggestion → A
get_or field default none = default
get_or field default (some g) = field g

-- One event of StreamEvents, whose body is written out beside that of PublishEvent.
unfoldable pub stream_event : Event → ℕ → OrchestratorServicer → OrchestratorServicer × EventAck
unfolding evaluated_event
stream_event e now s =
    let (routing, ack) = route_event s.config s.services e now s.routing in
    let evaluated = evaluated_event s.services e in
    if ack.queued
    then (
      record s {
        routing = routing;
        event_queue =
            EventQueue.enqueue evaluated (salience_or_half ack.salience)
              (record {
                matched_heuristic_id = ack.matched_heuristic_id;
                suggested_action = get_or (λ g. g.suggested_action) "" ack.suggestion;
                heuristic_confidence = get_or (λ g. g.confidence) 0 ack.suggestion;
                condition_text = get_or (λ g. g.condition_text) "" ack.suggestion;
                candidates = ack.candidates;
              })
              now s.event_queue;
      },
      ack,
    )
    else if not (ack.matched_heuristic_id == "") && s.has_memory_client
    then (
      record s {
        routing = routing;
        stored =
            s.stored
            ++ record {
              event = evaluated;
              response_text = ack.response_text;
              predicted_success = ack.predicted_success;
              prediction_confidence = ack.prediction_confidence;
              matched_heuristic_id = ack.matched_heuristic_id;
            }
              ∷ [];
      },
      ack,
    )
    else (record s { routing = routing }, ack)

-- StreamEvents: one answer for each event, in order.
unfoldable pub stream_events :
    List Event → ℕ → OrchestratorServicer → OrchestratorServicer × List EventAck
unfolding stream_event
stream_events [] now s = (s, [])
stream_events (e ∷ es) now s =
    let (s', ack) = stream_event e now s in
    let (s'', acks) = stream_events es now s' in (s'', ack ∷ acks)

-- An empty list of filters is no filter.
abbrev filters : List String → Option (List String)
filters [] = none
filters (x ∷ xs) = some (x ∷ xs)

-- SubscribeEvents and SubscribeResponses, from the request to the disconnection.
unfoldable pub subscribe_events :
    String → List String → List String → OrchestratorServicer → OrchestratorServicer
subscribe_events id source_filters event_types s = record s {
  routing = record s.routing {
    router =
        Router.add_subscriber id (filters source_filters) (filters event_types) s.routing.router;
  };
}

unfoldable pub disconnect_events : String → OrchestratorServicer → OrchestratorServicer
disconnect_events id s = record s {
  routing = record s.routing { router = Router.remove_subscriber id s.routing.router };
}

unfoldable pub subscribe_responses :
    String → List String → Bool → OrchestratorServicer → OrchestratorServicer
subscribe_responses id source_filters include_immediate s = record s {
  routing = record s.routing {
    router =
        Router.add_response_subscriber id (filters source_filters) include_immediate
          s.routing.router;
  };
}

unfoldable pub disconnect_responses : String → OrchestratorServicer → OrchestratorServicer
disconnect_responses id s = record s {
  routing = record s.routing { router = Router.remove_response_subscriber id s.routing.router };
}

pub data RoutingPath : Type 0 where
  path_immediate path_queued path_unspecified : RoutingPath

abbrev pub routing_path_to_enum : String → RoutingPath
routing_path_to_enum path =
    if path == "IMMEDIATE"
    then path_immediate
    else if path == "QUEUED"
    then path_queued
    else path_unspecified

-- A pending command as it is sent.
pub record PendingCommand : Type 0 where
  pub command_id : String
  pub command : String

abbrev text_of : Option String → String
text_of none = ""
text_of (some x) = x

-- Only two of the entries of the queued command go along.
abbrev pub pending_command : CommandDict → PendingCommand
pending_command p = record {
  command_id = text_of (Dict.get "command_id" p);
  command = text_of (Dict.get "command" p);
}

-- Heartbeat: the update of the registry, and the commands that waited.
unfoldable pub heartbeat :
    String → ℕ → ℕ → OrchestratorServicer → OrchestratorServicer × List PendingCommand
heartbeat id state now s =
    let updated = (Registry.update_heartbeat id state now s.registry).0 in
    let (registry, commands) = Registry.get_pending_commands id updated in
    (record s { registry = registry }, map pending_command commands)

abbrev pub found_at : Option ComponentInfo → Option (String × Dict String)
found_at none = none
found_at (some info) = some (info.address, info.capabilities)

-- ResolveComponent: by id where there is one, else by type; the address and the capabilities.
unfoldable pub resolve_component :
    String → String → OrchestratorServicer → Option (String × Dict String)
resolve_component id type s =
    found_at
      (if id == "" then Registry.get_by_type type s.registry else Registry.get_by_id id s.registry)

pub record QueuedEventInfo : Type 0 where
  pub event_id : String
  pub source : String
  pub salience : Score
  pub enqueue_time_ms : ℕ
  pub age_ms : ℤ
  pub matched_heuristic_id : String
  pub heuristic_confidence : Score
  pub raw_text : String

abbrev event_info : ℕ → QueuedEvent → QueuedEventInfo
event_info now q = record {
  event_id = q.event_id;
  source = q.event.source;
  salience = q.salience;
  enqueue_time_ms = q.enqueue_time_ms;
  age_ms = sub_nat (pos now) q.enqueue_time_ms;
  matched_heuristic_id = q.matched_heuristic_id;
  heuristic_confidence = q.heuristic_confidence;
  raw_text = q.event.raw_text;
}

abbrev pub more_salient : QueuedEvent → QueuedEvent → Bool
more_salient a b = ltb b.salience a.salience

-- ListQueuedEvents: the most salient first, up to the limit if there is one, and the number of all.
unfoldable pub list_queued_events : ℕ → ℕ → OrchestratorServicer → List QueuedEventInfo × ℕ
list_queued_events limit now s =
    let items = sort_by more_salient (values s.event_queue.pending) in
    let shown = if ltb 0 limit then take limit items else take (length items) items in
    (map (event_info now) shown, length s.event_queue.pending)

unfoldable pub get_queue_stats : OrchestratorServicer → Stats
get_queue_stats s = EventQueue.stats s.event_queue
