-- ===== src/Router/Route.antt =====
-- route_event of router.py: an event is evaluated, then answered at once in an emergency, or handed
-- on for the queue with what its heuristic suggests and with the candidates of an evaluation.
use glady_s.Prelude.{
  ℕ, ◌+◌, String, Bool, true, false, not, ◌&&◌, Option, none, some, List, [], ◌∷◌, ◌++◌, map, ◌==◌,
}
use glady_s.Prelude.Tests.{ltb, leb, if◌then◌else◌}
use glady_s.Prelude.Lists.{take, keep}
use glady_s.Prelude.Sorting.{sort_by}
use glady_s.Prelude.Dict
use glady_s.Prelude.Dict.{Dict}
use glady_s.Event.{Event, Score}
use glady_s.Outcome.{returned, raised}
use glady_s.MemoryClient.{
  MemoryClient, HeuristicRow, MatchInfo, MemoryCall, get_heuristic, query_matching_heuristics,
}
use glady_s.EventQueue.{Candidate}
use glady_s.EventQueue.Process.{Broadcast, Suggestion}
use glady_s.Learning.{LearningModule, FireRecord, check_event_for_outcomes}
use glady_s.Router.{EventRouter, broadcast_to_subscribers, broadcast_response}
use glady_s.Router.Salience.{
  Evaluation, SalienceClient, get_salience, attach_salience, get_max_salience,
}

pub record OrchestratorConfig : Type 0 where
  pub heuristic_confidence_threshold : Score
  pub max_evaluation_candidates : ℕ
  pub emergency_confidence_threshold : Score
  pub emergency_threat_threshold : Score

-- What json.loads makes of a text: an error, a value that is no dictionary, or a dictionary with
-- its texts.
pub data Parsed : Type 0 where
  not_json not_dict : Parsed
  dict : Dict String → Parsed

-- The code outside: the parser of JSON and the clients.
pub record Services : Type 0 where
  pub loads : String → Parsed
  pub salience_client : Option SalienceClient
  pub memory_client : Option MemoryClient
  -- the client of the learning module
  pub learning_client : Option MemoryClient

abbrev text_or : Option String → String → String
text_or none other = other
text_or (some text) other = if text == "" then other else text

abbrev action_of : Parsed → String
action_of not_json = ""
action_of not_dict = ""
action_of (dict d) =
    text_or (Dict.get "message" d)
      (text_or (Dict.get "text" d) (text_or (Dict.get "response" d) ""))

unfoldable pub extract_action_text : (String → Parsed) → String → String
extract_action_text loads effects_json = action_of (loads effects_json)

pub record EventAck : Type 0 where
  pub event_id : String
  pub accepted : Bool
  -- the exception's text is not kept
  pub has_error : Bool
  pub matched_heuristic_id : String
  pub response_text : String
  pub predicted_success : Score
  pub prediction_confidence : Score
  pub queued : Bool
  pub candidates : List Candidate
  pub salience : Option Score
  pub suggestion : Option Suggestion

-- The router's subscribers, the learning module, and the tasks that call its on_fire.
pub record Routing : Type 0 where
  pub router : EventRouter
  pub learning : Option LearningModule
  pub fires : List FireRecord
  pub calls : List MemoryCall

abbrev pub suggestion : Services → String → HeuristicRow → Suggestion
suggestion sv id h = record {
  heuristic_id = id;
  suggested_action = extract_action_text sv.loads h.effects_json;
  confidence = h.confidence;
  condition_text = h.condition_text;
}

-- The heuristic that the evaluation matched, if memory knows it.
unfoldable pub heuristic_data : Services → String → Option Suggestion
heuristic_data sv id = if id == "" then none else elim sv.memory_client [
  | none ↦ none
  | some c ↦ elim (get_heuristic c id) [ none ↦ none | some h ↦ some (suggestion sv id h) ]
]

abbrev pub is_emergency : OrchestratorConfig → Score → Suggestion → Bool
is_emergency c threat s =
    leb c.emergency_confidence_threshold s.confidence && leb c.emergency_threat_threshold threat

-- Below the threshold, and not the best match.
abbrev pub is_candidate : OrchestratorConfig → String → MatchInfo → Bool
is_candidate c best m =
    not (not (m.heuristic_id == "") && m.heuristic_id == best)
    && ltb m.confidence c.heuristic_confidence_threshold

abbrev pub more_similar : MatchInfo → MatchInfo → Bool
more_similar a b = ltb b.similarity a.similarity

abbrev pub candidate : Services → MatchInfo → Candidate
candidate sv m = record {
  heuristic_id = m.heuristic_id;
  suggested_action = extract_action_text sv.loads m.effects_json;
  confidence = m.confidence;
  condition_text = m.condition_text;
}

unfoldable pub choose_candidates :
    OrchestratorConfig → Services → String → List MatchInfo → List Candidate
choose_candidates c sv best matches =
    map (candidate sv)
      (take c.max_evaluation_candidates (sort_by more_similar (keep (is_candidate c best) matches)))

unfoldable pub candidates_of : OrchestratorConfig → Services → Event → String → List Candidate
candidates_of c sv e best = elim sv.memory_client [
  | none ↦ []
  | some client ↦
      if not (e.raw_text == "") && ltb 0 c.max_evaluation_candidates
      then choose_candidates c sv best (
          query_matching_heuristics client (record {
            event_text = e.raw_text;
            min_confidence = 0;
            limit = c.max_evaluation_candidates + 1;
            source_filter = e.source;
          }))
      else []
]

abbrev pub fire : Event → String → String → Score → ℕ → FireRecord
fire e id condition_text predicted now = record {
  heuristic_id = id;
  event_id = e.id;
  fire_time = now;
  condition_text = condition_text;
  predicted_success = predicted;
  source = e.source;
}

-- The task is created only where there is a learning module.
abbrev pub add_fire : FireRecord → Routing → Routing
add_fire f r = elim r.learning [ none ↦ r | some m ↦ record r { fires = r.fires ++ f ∷ [] } ]

abbrev pub send_event : Event → Routing → Routing
send_event e r = record r { router = broadcast_to_subscribers e r.router }

abbrev pub emergency_broadcast : Event → Suggestion → ℕ → Broadcast
emergency_broadcast e s now = record {
  event_id = e.id;
  response_id = "";
  response_text = s.suggested_action;
  predicted_success = s.confidence;
  prediction_confidence = s.confidence;
  routing_path = "EMERGENCY";
  matched_heuristic_id = s.heuristic_id;
  event_source = e.source;
  event_timestamp_ms = e.timestamp_ms;
  response_timestamp_ms = now;
}

abbrev pub emergency_ack : Event → Suggestion → EventAck
emergency_ack e s = record {
  event_id = e.id;
  accepted = true;
  has_error = false;
  matched_heuristic_id = s.heuristic_id;
  response_text = s.suggested_action;
  predicted_success = s.confidence;
  prediction_confidence = s.confidence;
  queued = false;
  candidates = [];
  salience = none;
  suggestion = none;
}

unfoldable pub answer_emergency : Event → Suggestion → ℕ → Routing → Routing × EventAck
answer_emergency e s now r =
    let told = record r { router = broadcast_response (emergency_broadcast e s now) r.router } in
    (
      send_event e (add_fire (fire e s.heuristic_id s.condition_text s.confidence now) told),
      emergency_ack e s,
    )

abbrev pub condition_of : Option Suggestion → String
condition_of none = ""
condition_of (some s) = s.condition_text

unfoldable pub queue_for_executive :
    OrchestratorConfig
    → Services
    → Event
    → Evaluation
    → Option Suggestion
    → ℕ
    → Routing
    → Routing × EventAck
queue_for_executive c sv e s suggested now r =
    let id = s.matched_heuristic in
    let fired = if id == "" then r else add_fire (fire e id (condition_of suggested) 0 now) r in
    (
      send_event e fired,
      record {
        event_id = e.id;
        accepted = true;
        has_error = false;
        matched_heuristic_id = id;
        response_text = "";
        predicted_success = 0;
        prediction_confidence = 0;
        queued = true;
        candidates = candidates_of c sv e id;
        salience = some (get_max_salience s);
        suggestion = suggested;
      },
    )

abbrev pub route_evaluated :
    OrchestratorConfig
    → Services
    → Event
    → Evaluation
    → Option Suggestion
    → ℕ
    → Routing
    → Routing × EventAck
route_evaluated c sv e s none now r = queue_for_executive c sv e s none now r
route_evaluated c sv e s (some h) now r =
    if is_emergency c s.result.threat h
    then answer_emergency e h now r
    else queue_for_executive c sv e s (some h) now r

abbrev pub failed : Event → EventAck
failed e = record {
  event_id = e.id;
  accepted = false;
  has_error = true;
  matched_heuristic_id = "";
  response_text = "";
  predicted_success = 0;
  prediction_confidence = 0;
  queued = false;
  candidates = [];
  salience = none;
  suggestion = none;
}

-- Step 0: the event may resolve what earlier fires led to expect.
unfoldable pub observe : Services → Event → ℕ → Routing → Routing
observe sv e now r = elim r.learning [
  | none ↦ r
  | some m ↦
      let (m', resolved, calls) = check_event_for_outcomes sv.learning_client e now m in
      record r { learning = some m'; calls = r.calls ++ calls }
]

-- Only the evaluation can raise: the clients of memory turn their errors into answers.
unfoldable pub route_event :
    OrchestratorConfig → Services → Event → ℕ → Routing → Routing × EventAck
unfolding observe
route_event c sv e now r =
    let seen = observe sv e now r in
    elim (get_salience sv.salience_client e) [
      | raised ↦ (seen, failed e)
      | returned s ↦
          route_evaluated c sv (attach_salience s e) s (heuristic_data sv s.matched_heuristic) now
            seen
    ]
