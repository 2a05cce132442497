-- ===== src/Server/Examples.antt =====
-- The servicer's theorems at a kitchen with one sensor.
use glady_s.Prelude.{◌≡◌, refl, true, arith, none, some, [], ◌∷◌, ◌++◌, map, ◌+◌}
use glady_s.Prelude.Lists.{length}
use glady_s.Prelude.Dict
use glady_s.Event.{Event, Salience}
use glady_s.Outcome.{returned, raised}
use glady_s.EventQueue.Process.{Suggestion}
use glady_s.MemoryClient.{HeuristicRow, get_heuristic}
use glady_s.EventQueue
use glady_s.Registry.{ComponentInfo, CommandDict, new_info}
use glady_s.Router.Salience.{attach_salience, Evaluation, get_salience, has_explicit_salience}
use glady_s.Router.Route.{not_json, dict, heuristic_data, extract_action_text}
use glady_s.Server.{
  OrchestratorServicer, publish_event, publish_events, stream_events, heartbeat, pending_command,
}
use glady_s.Server.Publishing.{
  refusals, accepted_in, publish_event-enqueue, publish_events-stream_events,
}
use glady_s.Server.Heartbeats.{with_queue, heartbeat-queue_all}

abbrev quiet : Salience
quiet = record { threat = 0; salience = 400000; habituation = 0; vector = []; model_id = "" }

abbrev event : Event
event = record {
  id = "e1";
  source = "kitchen";
  raw_text = "the kettle boils";
  timestamp_ms = 0;
  salience = record quiet { salience = 0 };
  matched_heuristic_id = "";
}

abbrev calm : Evaluation
calm = record { result = quiet; matched_heuristic = "" }

abbrev sensor : ComponentInfo
sensor = new_info "s1" "sensor" "a:1" [] 10

abbrev reload : CommandDict
reload = ("command_id", "c1") ∷ ("command", "reload") ∷ ("args", "{}") ∷ []

abbrev servicer : OrchestratorServicer
servicer = record {
  config = record {
    heuristic_confidence_threshold = 700000;
    max_evaluation_candidates = 5;
    emergency_confidence_threshold = 950000;
    emergency_threat_threshold = 900000;
  };
  services = record {
    loads = λ text. not_json;
    salience_client = some (record { evaluate = λ e. returned calm });
    memory_client = none;
    learning_client = none;
  };
  registry = record { components = ("s1", sensor) ∷ []; by_type = [] };
  routing = record {
    router = record { subscribers = []; response_subscribers = [] };
    learning = none;
    fires = [];
    calls = [];
  };
  event_queue = EventQueue.empty;
  stored = [];
  has_memory_client = true;
}

evaluated : get_salience servicer.services.salience_client event ≡ returned calm
unfolding get_salience has_explicit_salience
evaluated = refl

-- A fire that memory knows what to do about.
abbrev danger : Evaluation
danger = record { result = record quiet { threat = 950000 }; matched_heuristic = "h1" }

abbrev leave : HeuristicRow
leave = record {
  id = "h1";
  name = "smoke";
  condition_text = "smoke in the kitchen";
  effects_json = "{}";
  confidence = 970000;
  origin = "learned";
}

abbrev alarmed : OrchestratorServicer
alarmed = record servicer {
  services = record {
    loads = λ text. dict (("message", "leave") ∷ []);
    salience_client = some (record { evaluate = λ e. returned danger });
    memory_client = some (record {
      stub = some (record {
        get = λ id. returned (some leave);
        update = λ u. returned true;
        query = λ q. raised;
      });
    });
    learning_client = none;
  };
}

danger_evaluated : get_salience alarmed.services.salience_client event ≡ returned danger
unfolding get_salience has_explicit_salience
danger_evaluated = refl

abbrev advice : Suggestion
advice = record {
  heuristic_id = "h1";
  suggested_action = "leave";
  confidence = 970000;
  condition_text = "smoke in the kitchen";
}

advice_known : heuristic_data alarmed.services "h1" ≡ some advice
unfolding heuristic_data get_heuristic extract_action_text Dict.get
advice_known = refl

publish_event-enqueue_example :
    let s' = (publish_event event 7 alarmed).0 in
    (s'.event_queue ≡ EventQueue.empty)
    × (s'.stored
        ≡ record {
          event = attach_salience danger event;
          response_text = "leave";
          predicted_success = 970000;
          prediction_confidence = 970000;
          matched_heuristic_id = "h1";
        }
          ∷ [])
publish_event-enqueue_example =
    (publish_event-enqueue event 7 alarmed danger danger_evaluated).1 advice advice_known
      (omega arith) (omega arith)

publish_events-stream_events_example :
    let (s', count, errors) = publish_events (event ∷ event ∷ []) 7 servicer in
    let (t', acks) = stream_events (event ∷ event ∷ []) 7 servicer in
    (s' ≡ t') × (count ≡ accepted_in acks) × (errors ≡ refusals acks) × (count + length errors ≡ 2)
publish_events-stream_events_example = publish_events-stream_events (event ∷ event ∷ []) 7 servicer

s1_there : Dict.get "s1" servicer.registry.components ≡ some sensor
unfolding Dict.get
s1_there = refl

heartbeat-queue_all_example :
    let (s', sent) = heartbeat "s1" 2 20 (with_queue "s1" (reload ∷ []) servicer) in
    (sent ≡ map pending_command ([] ++ reload ∷ [])) × ((heartbeat "s1" 2 30 s').1 ≡ [])
heartbeat-queue_all_example =
    heartbeat-queue_all "s1" (reload ∷ []) 2 20 2 30 servicer sensor s1_there
