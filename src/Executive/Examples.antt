-- ===== src/Executive/Examples.antt =====
-- The theorems of the Executive at a small house.
use glady_s.Prelude.{
  ℕ, ◌+◌, ◌*◌, ◌≡◌, ◌≢◌, ◌↔◌, refl, inl, String, true, false, none, some, [], ◌∷◌, arith, eq_iff,
}
use Prim.Native.String.{◌++◌ as ◌<>◌}
use glady_s.Prelude.Tests.{leb, nat_eq}
use glady_s.Prelude.Lists.{All}
use glady_s.Prelude.Ints.{pos}
use glady_s.Prelude.Dict
use glady_s.Outcome.{returned}
use glady_s.Json.{text, object, Fields, field, no_fields, parsed, JsonLibrary}
use glady_s.Executive.{
  LlmProvider, DecisionContext, HeuristicCandidate, HeuristicFirstConfig, HeuristicFirstStrategy,
  ReasoningTrace,
}
use glady_s.Executive.Traces.{get_trace}
use glady_s.Executive.Store.{stores, deletes, run_calls, IsBounded, run_calls-IsBounded}
use glady_s.Executive.Decide.{Chance, decide}
use glady_s.Executive.Decisions.{remembered, IsAnswer, by_llm, decide-get_trace}
use glady_s.Executive.Process.{HeuristicSuggestion, ProcessEventRequest, candidates_of_request}
use glady_s.Executive.Candidates.{firsts, all_suggestions, candidates_of_request-firsts}
use glady_s.Executive.Clients.{MemoryClient, MemoryStub, replied, Heuristic, Update}
use glady_s.Executive.Clients
use glady_s.Executive.Decide
use glady_s.Executive.Feedback
use glady_s.Json
use glady_s.Prelude.Strings
use glady_s.Prelude.Dict.{Distinct}
use glady_s.Executive.Feedback.{
  ExecutiveServicer, FeedbackChance, accepted, refused, trace_not_found, provide_feedback,
  check_heuristic_quality,
}
use glady_s.Executive.Gate.{HasLength, IsAction, check_heuristic_quality-none_iff}
use glady_s.Executive.Learned.{
  IsGated, IsKept, provide_feedback-IsGated, provide_feedback-IsKept,
  provide_feedback-provide_feedback,
}
use glady_s.Executive.Endorse.{
  Floats, Endorser, embedding_of, endorse_candidate, endorse_all, cosine_similarity, dot, norm,
  process_llm_endorsements,
}

abbrev advice : String
advice = "when the smoke alarm rings in the kitchen open the window"

abbrev action : Fields
action = field "type" (text "warn") (field "message" (text advice) no_fields)

abbrev library : JsonLibrary
library = record {
  loads = λ s.
      parsed (object (field "condition" (text advice) (field "action" (object action) no_fields)));
  parse_float = λ s. none;
}

abbrev provider : LlmProvider
provider = record {
  generate = λ r. some (record { text = "Open the window."; model = "m" });
  model_name = "m";
}

abbrev config : HeuristicFirstConfig
config = record {
  confidence_threshold = 700000;
  max_candidates = 3;
  llm_confidence_ceiling = 800000;
  max_concurrent_llm = 3;
  system_prompt = "Be brief.";
  prediction_prompt_template = λ context response. context <> response;
}

abbrev trace : ReasoningTrace
trace = record {
  event_id = "e0";
  response_id = "r0";
  context = "smoke";
  response = "Open the window.";
  timestamp = 0;
  event_source = "kitchen";
  matched_heuristic_id = some "h1";
  predicted_success = pos 500000;
  prediction_confidence = pos 500000;
}

abbrev strategy : HeuristicFirstStrategy
strategy = record {
  config = config;
  trace_store = ("r0", trace) ∷ [];
  has_memory_client = true;
  background_tasks = [];
}

abbrev candidate : HeuristicCandidate
candidate = record {
  heuristic_id = "h1";
  condition_text = "smoke";
  suggested_action = "Open the window.";
  confidence = 500000;
}

abbrev context : DecisionContext
context = record {
  event_id = "e1";
  event_text = "smoke";
  event_source = "kitchen";
  salience = [];
  candidates = candidate ∷ [];
  immediate = true;
  goals = [];
  personality_biases = [];
}

abbrev chance : Chance
chance = record {
  response_id = "r1";
  now = 0;
  later = 5;
  shuffle = λ cs. cs;
  json = library;
  show = λ n. "1";
}

one_trace : Distinct (("r0", trace) ∷ [])
unfolding Dict.has
one_trace = (refl, tt)

asks_llm : IsAnswer (decide chance context (some provider) strategy).1.path
unfolding decide Decide.sure_candidate Decide.threshold_for Dict.get Decide.llm_or_reject
    Decide.llm_path Decide.after_llm
asks_llm = by_llm

decide-get_trace_example :
    let (s', r) = decide chance context (some provider) strategy in
    get_trace r.response_id s'.trace_store ≡ some (remembered chance context r)
decide-get_trace_example =
    decide-get_trace chance context (some provider) strategy one_trace (omega arith) asks_llm

run_calls-IsBounded_example :
    IsBounded 7 (run_calls (stores 7 trace ∷ deletes "r0" ∷ []) (("r0", trace) ∷ []))
run_calls-IsBounded_example =
    run_calls-IsBounded 0 (stores 7 trace ∷ deletes "r0" ∷ []) (("r0", trace) ∷ []) one_trace
      (inl (omega arith))

abbrev suggestion : HeuristicSuggestion
suggestion = record {
  heuristic_id = "h1";
  condition_text = "smoke";
  suggested_action = "Open the window.";
  confidence = 500000;
}

abbrev request : ProcessEventRequest
request = record {
  event = record {
    id = "e1";
    source = "kitchen";
    raw_text = "smoke";
    timestamp_ms = 0;
    salience = record { threat = 0; salience = 0; habituation = 0; vector = []; model_id = "" };
    matched_heuristic_id = "";
  };
  suggestion = some suggestion;
  candidates = suggestion ∷ record suggestion { heuristic_id = "h2" } ∷ [];
  immediate = true;
}

candidates_of_request-firsts_example :
    candidates_of_request request ≡ firsts (all_suggestions request)
candidates_of_request-firsts_example = candidates_of_request-firsts request

check_heuristic_quality-none_iff_example :
    (check_heuristic_quality advice (object action) ≡ returned none)
    ↔ (HasLength advice × IsAction (object action))
check_heuristic_quality-none_iff_example = check_heuristic_quality-none_iff advice (object action)

abbrev stub : MemoryStub ℕ
stub = record {
  store = λ h. replied (record { success = true; heuristic_id = h.id; error = "" });
  query = λ s n. replied [];
  update = λ u.
      replied
        (record { success = true; error = ""; old_confidence = 500000; new_confidence = 600000 });
  embed = λ s. replied (record { error = ""; embedding = 0 ∷ 0 ∷ 0 ∷ 1 ∷ [] });
}

abbrev servicer : ExecutiveServicer ℕ
servicer = record {
  events_received = 1;
  moments_received = 0;
  heuristics_created = 0;
  ollama = some provider;
  memory_client = some (record { stub = some stub });
  heuristic_store = [];
  strategy = strategy;
  started_at = 0;
}

abbrev feedback : FeedbackChance
feedback = record { heuristic_id = "h2"; created_at = 9; json = library }

provide_feedback-IsGated_example : All IsGated (provide_feedback feedback "r0" true servicer).2
provide_feedback-IsGated_example = provide_feedback-IsGated feedback "r0" servicer

creates : (provide_feedback feedback "r0" true servicer).1 ≡ returned (accepted "h2")
unfolding provide_feedback check_heuristic_quality Dict.get Json.get_field Strings.word_count
    Feedback.merge_or_create Clients.query_matches
creates = refl

h2_named : ◌≢◌ {A = String} "h2" ""
h2_named = ground (arith, eq_iff "h2" "")

provide_feedback-IsKept_example :
    (h : Heuristic) × (h.id ≡ "h2")
    × IsGated {F = ℕ} (Clients.stores h)
    × IsKept servicer h (provide_feedback feedback "r0" true servicer)
provide_feedback-IsKept_example = provide_feedback-IsKept feedback "r0" servicer h2_named creates

provide_feedback-provide_feedback_example :
    let s' = (provide_feedback feedback "r0" true servicer).0 in
    provide_feedback feedback "r0" false s' ≡ (s', returned (refused trace_not_found), [])
provide_feedback-provide_feedback_example =
    provide_feedback-provide_feedback feedback feedback "r0" false servicer "h2" creates

-- Whole numbers in place of floats.
abbrev whole : Floats ℕ
whole = record {
  zero = 0;
  add = λ a b. a + b;
  mul = λ a b. a * b;
  div = λ a b. some a;
  sqrt = λ a. a;
  is_zero = λ a. nat_eq a 0;
  at_least = λ a b. leb b a;
  unpack = λ bs. some bs;
}

abbrev endorser : Endorser ℕ
endorser = record {
  floats = whole;
  similarity_threshold = 1;
  boost_weight = 2;
  memory_client = record { stub = some stub };
  salience_client = none;
}

-- The candidate's action is the answer itself, and is endorsed once.
endorsed :
    process_llm_endorsements endorser ("Open the window.", candidate ∷ [])
    ≡ Clients.updates (record {
      heuristic_id = candidate.heuristic_id;
      positive = true;
      weight = some (endorser.floats.mul 2 1, "llm_endorsement");
    })
      ∷ []
unfolding process_llm_endorsements endorse_candidate endorse_all embedding_of cosine_similarity dot
    norm Clients.generate_embedding Clients.update_confidence_weighted Clients.send_update
endorsed = refl
