-- ===== src/Executive/Process.antt =====
-- ExecutiveServicer.ProcessEvent: the candidates of a request, without repetitions, and the answer.
use glady_s.Prelude.{
  suc, String, Bool, true, false, not, ◌||◌, Option, none, some, List, [], ◌∷◌, ◌++◌, map, ◌==◌,
}
use glady_s.Prelude.Tests.{if◌then◌else◌}
use glady_s.Prelude.Lists.{exists}
use glady_s.Prelude.Dict
use glady_s.Prelude.Dict.{Dict}
use glady_s.Prelude.Ints.{ℤ}
use glady_s.Event.{Event, Score, Salience}
use glady_s.Executive.{
  HeuristicCandidate, DecisionContext, DecisionPath, heuristic, llm, fallback, rejected, path_value,
  DecisionResult,
}
use glady_s.Executive.Decide.{Chance, decide}
use glady_s.Executive.Feedback.{ExecutiveServicer}

pub record HeuristicSuggestion : Type 0 where
  pub heuristic_id : String
  pub condition_text : String
  pub suggested_action : String
  pub confidence : Score

pub record ProcessEventRequest : Type 0 where
  pub event : Event
  pub suggestion : Option HeuristicSuggestion
  pub candidates : List HeuristicSuggestion
  pub immediate : Bool

pub record ProcessEventResponse : Type 0 where
  pub accepted : Bool
  pub response_id : String
  pub response_text : String
  pub predicted_success : ℤ
  pub prediction_confidence : ℤ
  pub prompt_text : String
  pub decision_path : String
  pub matched_heuristic_id : String

abbrev pub candidate_of : HeuristicSuggestion → HeuristicCandidate
candidate_of s = record {
  heuristic_id = s.heuristic_id;
  condition_text = s.condition_text;
  suggested_action = s.suggested_action;
  confidence = s.confidence;
}

-- The ids that were seen, a set, and the candidates so far.
abbrev pub Collected : Type 0
Collected = List String × List HeuristicCandidate

abbrev pub is_seen : List String → String → Bool
is_seen seen id = exists (λ j. j == id) seen

unfoldable pub add_candidate : HeuristicSuggestion → Collected → Collected
add_candidate s (seen, candidates) =
    if s.heuristic_id == "" || is_seen seen s.heuristic_id
    then (seen, candidates)
    else (s.heuristic_id ∷ seen, candidates ++ candidate_of s ∷ [])

unfoldable pub add_candidates : List HeuristicSuggestion → Collected → Collected
add_candidates [] c = c
add_candidates (s ∷ ss) c = add_candidates ss (add_candidate s c)

abbrev pub suggested : Option HeuristicSuggestion → Collected → Collected
suggested none c = c
suggested (some s) c = if s.heuristic_id == "" then c else add_candidate s c

unfoldable pub candidates_of_request : ProcessEventRequest → List HeuristicCandidate
unfolding add_candidates
candidates_of_request r = (add_candidates r.candidates (suggested r.suggestion ([], []))).1

abbrev score_or_zero : Option Score → Score
score_or_zero none = 0
score_or_zero (some x) = x

unfoldable pub extract_salience : Salience → Dict Score
extract_salience s =
    ("threat", s.threat)
    ∷ ("salience", s.salience)
    ∷ ("habituation", s.habituation)
    ∷ map (λ dim. (dim, score_or_zero (Dict.get dim s.vector)))
        ("novelty" ∷ "opportunity" ∷ "goal_relevance" ∷ "actionability" ∷ "social" ∷ [])

abbrev is_rejected : DecisionPath → Bool
is_rejected rejected = true
is_rejected heuristic = false
is_rejected llm = false
is_rejected fallback = false

abbrev or_empty : Option String → String
or_empty none = ""
or_empty (some s) = s

abbrev response_of : DecisionResult → ProcessEventResponse
response_of r = record {
  accepted = not (is_rejected r.path);
  response_id = r.response_id;
  response_text = r.response_text;
  predicted_success = r.predicted_success;
  prediction_confidence = r.prediction_confidence;
  prompt_text = r.prompt_text;
  decision_path = path_value r.path;
  matched_heuristic_id = or_empty r.matched_heuristic_id;
}

abbrev pub context_of : List String → ProcessEventRequest → DecisionContext
context_of goals r = record {
  event_id = r.event.id;
  event_text = r.event.raw_text;
  event_source = r.event.source;
  salience = extract_salience r.event.salience;
  candidates = candidates_of_request r;
  immediate = r.immediate;
  goals = goals;
  personality_biases = [];
}

module _ {F : Type 0} where
  -- The goals are those of the environment.
  unfoldable pub process_event :
      Chance
      → List String
      → ProcessEventRequest
      → ExecutiveServicer F
      → ExecutiveServicer F × ProcessEventResponse
  unfolding decide
  process_event chance goals r s =
      let (strategy, result) = decide chance (context_of goals r) s.ollama s.strategy in
      (
        record s { events_received = suc s.events_received; strategy = strategy },
        response_of result,
      )
