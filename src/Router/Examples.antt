-- ===== src/Router/Examples.antt =====
-- The router's theorems at a threat that a heuristic matches.
use glady_s.Prelude.{◌↔◌, ◌≡◌, ◌≢◌, refl, true, false, none, some, List, [], ◌∷◌, eq_iff, arith}
use glady_s.Prelude.Dict
use glady_s.Event.{Event, Salience}
use glady_s.Outcome.{returned, raised}
use glady_s.MemoryClient.{MemoryClient, HeuristicRow, MatchInfo, Stub}
use glady_s.Learning.{LearningModule}
use glady_s.Router.{EventRouter, Subscriber}
use glady_s.Router.Salience.{has_explicit_salience, Evaluation, get_salience}
use glady_s.Router.Route.{OrchestratorConfig, Services, Routing, dict, heuristic_data, route_event}
use glady_s.Router.Routing.{Emergency, route_event-queued}

abbrev quiet : Salience
quiet = record { threat = 0; salience = 0; habituation = 0; vector = []; model_id = "" }

abbrev event : Event
event = record {
  id = "e1";
  source = "kitchen";
  raw_text = "smoke";
  timestamp_ms = 0;
  salience = quiet;
  matched_heuristic_id = "";
}

abbrev danger : Evaluation
danger = record { result = record quiet { threat = 950000 }; matched_heuristic = "h1" }

abbrev row : HeuristicRow
row = record {
  id = "h1";
  name = "smoke";
  condition_text = "smoke in the kitchen";
  effects_json = "{}";
  confidence = 970000;
  origin = "learned";
}

abbrev stub : Stub
stub = record { get = λ id. returned (some row); update = λ u. returned true; query = λ q. raised }

abbrev memory : MemoryClient
memory = record { stub = some stub }

abbrev services : Services
services = record {
  loads = λ text. dict (("message", "leave") ∷ []);
  salience_client = some (record { evaluate = λ e. returned danger });
  memory_client = some memory;
  learning_client = none;
}

abbrev no_salience : Services
no_salience = record services { salience_client = some (record { evaluate = λ e. raised }) }

abbrev config : OrchestratorConfig
config = record {
  heuristic_confidence_threshold = 700000;
  max_evaluation_candidates = 5;
  emergency_confidence_threshold = 950000;
  emergency_threat_threshold = 900000;
}

abbrev screen : Subscriber
screen = record {
  subscriber_id = "screen";
  queue = [];
  source_filters = some ("kitchen" ∷ []);
  event_types = none;
}

abbrev router : EventRouter
router = record { subscribers = ("screen", screen) ∷ []; response_subscribers = [] }

abbrev learner : LearningModule
learner = record {
  strategy = record {
    undo_window_sec = 60;
    ignored_threshold = 3;
    undo_keywords = [];
    implicit_magnitude = 500000;
    explicit_magnitude = 800000;
    outcome_timeout_sec = 120;
  };
  outcome_watcher = none;
  recent_fires = [];
  acknowledged_fires = [];
  ignore_counts = [];
}

abbrev routing : Routing
routing = record { router = router; learning = some learner; fires = []; calls = [] }

danger_evaluated : get_salience services.salience_client event ≡ returned danger
unfolding get_salience has_explicit_salience
danger_evaluated = refl

route_event-queued_example :
    ((route_event config services event 10 routing).1.queued ≡ false)
    ↔ Emergency config 950000 (heuristic_data services "h1")
route_event-queued_example =
    (route_event-queued config services event 10 routing danger danger_evaluated).1

matched : danger.matched_heuristic ≢ ""
matched = ground (arith, eq_iff "h1" "")

not_evaluated : get_salience no_salience.salience_client event ≡ raised
unfolding get_salience has_explicit_salience
not_evaluated = refl

abbrev found : List MatchInfo
found =
    record {
      heuristic_id = "h2";
      condition_text = "";
      effects_json = "{}";
      confidence = 300000;
      similarity = 5;
    }
    ∷ record {
      heuristic_id = "h1";
      condition_text = "";
      effects_json = "{}";
      confidence = 970000;
      similarity = 9;
    }
    ∷ []

screen_there : Dict.get "screen" router.subscribers ≡ some screen
unfolding Dict.get
screen_there = refl
