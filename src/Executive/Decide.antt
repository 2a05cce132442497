-- ===== src/Executive/Decide.antt =====
-- HeuristicFirstStrategy.decide: a heuristic that is sure enough answers, else the language model
-- does, else the event is rejected. What changes between two calls is given as a `Chance`.
use glady_s.Prelude.{ℕ, suc, ◌+◌, String, Option, none, some, List, [], ◌∷◌, ◌++◌, map, min}
use Prim.Native.Nat.{max}
use Prim.Native.String.{◌++◌ as ◌<>◌}
use glady_s.Prelude.Tests.{leb, if◌then◌else◌}
use glady_s.Prelude.Lists.{take}
use glady_s.Prelude.Ints.{ℤ, pos, negsuc, sub_nat, min_nat}
use glady_s.Prelude.Dict
use glady_s.Prelude.Strings.{strip, join, strip_fences}
use glady_s.Event.{Score}
use glady_s.Json.{
  Json, number, object, Parse, parsed, malformed, JsonLibrary, get_field, or_default, to_float,
}
use glady_s.Executive.{
  LlmResponse, LlmProvider, DecisionPath, heuristic, llm, fallback, rejected, HeuristicCandidate,
  DecisionContext, threshold_used, model_used, reason, DecisionResult, ReasoningTrace,
  HeuristicFirstConfig, HeuristicFirstStrategy,
}
use glady_s.Executive.Traces.{store_trace}

-- The new UUID, the clock when a trace is made and when the store is cleaned, random.shuffle, the
-- JSON library, and `str` of the small numbers of an enumeration.
pub record Chance : Type 0 where
  pub response_id : String
  pub now : ℕ
  pub later : ℕ
  pub shuffle : List HeuristicCandidate → List HeuristicCandidate
  pub json : JsonLibrary
  pub show : ℕ → String

abbrev bias_of : Option ℤ → ℤ
bias_of none = pos 0
bias_of (some z) = z

abbrev add_bias : Score → ℤ → ℤ
add_bias base (pos b) = pos (base + b)
add_bias base (negsuc b) = sub_nat (pos base) (suc b)

-- max(0.3, min(0.95, z))
abbrev pub clamped : ℤ → Score
clamped (pos a) = max 300000 (min 950000 a)
clamped (negsuc a) = 300000

-- The configured threshold with the bias of the person, in the safe range.
unfoldable pub threshold_for : HeuristicFirstConfig → DecisionContext → Score
threshold_for c context = clamped (
    add_bias c.confidence_threshold
      (bias_of (Dict.get "confidence_threshold" context.personality_biases)))

abbrev pub trace_of : Chance → DecisionContext → String → Option String → ℤ → ℤ → ReasoningTrace
trace_of chance context response matched success confidence = record {
  event_id = context.event_id;
  response_id = chance.response_id;
  context = context.event_text;
  response = response;
  timestamp = chance.now;
  event_source = context.event_source;
  matched_heuristic_id = matched;
  predicted_success = success;
  prediction_confidence = confidence;
}

abbrev pub remember : Chance → ReasoningTrace → HeuristicFirstStrategy → HeuristicFirstStrategy
remember chance t s = record s { trace_store = store_trace chance.later t s.trace_store }

unfoldable pub heuristic_path :
    Chance
    → DecisionContext
    → HeuristicCandidate
    → Score
    → HeuristicFirstStrategy
    → HeuristicFirstStrategy × DecisionResult
heuristic_path chance context best threshold s = (
  remember chance
      (trace_of chance context best.suggested_action (some best.heuristic_id) (pos best.confidence)
        (pos best.confidence))
      s,
  record {
    path = heuristic;
    response_text = best.suggested_action;
    response_id = chance.response_id;
    matched_heuristic_id = some best.heuristic_id;
    predicted_success = pos best.confidence;
    prediction_confidence = pos best.confidence;
    prompt_text = "";
    metadata = threshold_used threshold;
  },
)

-- The two lines of a candidate and an empty one.
unfoldable pub candidate_lines : (ℕ → String) → ℕ → List HeuristicCandidate → List String
candidate_lines show index [] = []
candidate_lines show index (c ∷ cs) =
    (show index <> ". Context: \"" <> c.condition_text <> "\"")
    ∷ ("   Response: \"" <> c.suggested_action <> "\"")
    ∷ ""
    ∷ candidate_lines show (suc index) cs

unfoldable pub build_evaluation_prompt : Chance → HeuristicFirstConfig → DecisionContext → String
build_evaluation_prompt chance c context = join "\n" (
    (("Event from [" <> context.event_source <> "]: " <> context.event_text)
      ∷ ""
      ∷ "Here are some possible responses to this situation:"
      ∷ ""
      ∷ [])
    ++ candidate_lines chance.show 1 (chance.shuffle (take c.max_candidates context.candidates))
    ++ "Generate your own response to this event. You may draw on the above for context or disregard them entirely."
      ∷ [])

unfoldable pub build_prompt : Chance → HeuristicFirstConfig → DecisionContext → String
build_prompt chance c context = elim context.candidates [
  | [] ↦
      "URGENT event: [" <> context.event_source <> "]: " <> context.event_text
      <> "\n\nHow should I respond?"
  | x ∷ xs ↦ build_evaluation_prompt chance c context
]

-- The goals, under a title, where there are any.
unfoldable pub with_goals : String → String → List String → String
with_goals prompt title [] = prompt
with_goals prompt title (g ∷ goals) =
    prompt <> title <> join "\n" (map (λ goal. "- " <> goal) (g ∷ goals))

abbrev half : Json
half = number (pos 500000)

abbrev both : Option ℤ → Option ℤ → ℤ × ℤ
both (some success) (some confidence) = (success, confidence)
both none confidence = (pos 500000, pos 500000)
both (some success) none = (pos 500000, pos 500000)

-- One half each where the text is no JSON object or its fields are no numbers.
abbrev prediction_in : JsonLibrary → Parse → ℤ × ℤ
prediction_in l (parsed (object fs)) =
    both (to_float l (or_default half (get_field "success" fs)))
      (to_float l (or_default half (get_field "confidence" fs)))
prediction_in l (parsed v) = (pos 500000, pos 500000)
prediction_in l (malformed e) = (pos 500000, pos 500000)

abbrev prediction_from : JsonLibrary → Option LlmResponse → ℤ × ℤ
prediction_from l none = (pos 500000, pos 500000)
prediction_from l (some r) = prediction_in l (l.loads (strip_fences r.text))

unfoldable pub get_prediction :
    JsonLibrary → HeuristicFirstConfig → LlmProvider → DecisionContext → String → ℤ × ℤ
get_prediction l c provider context response = prediction_from l (
    provider.generate (record {
      prompt =
          with_goals (c.prediction_prompt_template context.event_text response)
            "\n\nSuccess should be evaluated against these goals:\n" context.goals;
      system_prompt = none;
      format = some "json";
    }))

abbrev pub first_id : List HeuristicCandidate → Option String
first_id [] = none
first_id (c ∷ cs) = some c.heuristic_id

abbrev no_answer : DecisionPath → String → String → DecisionResult
no_answer path prompt why = record {
  path = path;
  response_text = "";
  response_id = "";
  matched_heuristic_id = none;
  predicted_success = pos 0;
  prediction_confidence = pos 0;
  prompt_text = prompt;
  metadata = reason why;
}

-- A task, where there are candidates and a memory client.
unfoldable pub schedule_for :
    List HeuristicCandidate → String → HeuristicFirstStrategy → HeuristicFirstStrategy
schedule_for [] response s = s
schedule_for (c ∷ cs) response s =
    if s.has_memory_client
    then record s { background_tasks = (response, c ∷ cs) ∷ s.background_tasks }
    else s

unfoldable pub schedule_endorsement :
    DecisionContext → String → HeuristicFirstStrategy → HeuristicFirstStrategy
unfolding schedule_for
schedule_endorsement context response s = schedule_for context.candidates response s

unfoldable pub after_llm :
    Chance
    → DecisionContext
    → LlmProvider
    → String
    → HeuristicFirstStrategy
    → Option LlmResponse
    → HeuristicFirstStrategy × DecisionResult
after_llm chance context provider prompt s none = (s, no_answer fallback prompt "llm_no_response")
after_llm chance context provider prompt s (some answer) =
    let response = strip answer.text in
    let (success, confidence) = get_prediction chance.json s.config provider context response in
    let capped = min_nat s.config.llm_confidence_ceiling success in
    let sure = min_nat s.config.llm_confidence_ceiling confidence in
    let matched = first_id context.candidates in
    (
      schedule_endorsement context response
          (remember chance (trace_of chance context response matched capped sure) s),
      record {
        path = llm;
        response_text = response;
        response_id = chance.response_id;
        matched_heuristic_id = matched;
        predicted_success = capped;
        prediction_confidence = sure;
        prompt_text = prompt;
        metadata = model_used provider.model_name;
      },
    )

unfoldable pub llm_path :
    Chance
    → DecisionContext
    → LlmProvider
    → HeuristicFirstStrategy
    → HeuristicFirstStrategy × DecisionResult
llm_path chance context provider s =
    let prompt = build_prompt chance s.config context in
    after_llm chance context provider prompt s (
      provider.generate (record {
        prompt = prompt;
        system_prompt =
            some (with_goals s.config.system_prompt "\n\nCurrent user goals:\n" context.goals);
        format = none;
      }))

-- Path 2 where there is a model and the event is immediate, else path 3.
unfoldable pub llm_or_reject :
    Chance
    → DecisionContext
    → Option LlmProvider
    → HeuristicFirstStrategy
    → HeuristicFirstStrategy × DecisionResult
llm_or_reject chance context none s = (s, no_answer rejected "" "llm_unavailable")
llm_or_reject chance context (some provider) s =
    if context.immediate
    then llm_path chance context provider s
    else (s, no_answer rejected "" "not_immediate")

-- The first candidate, if it reaches the threshold.
unfoldable pub sure_candidate : Score → List HeuristicCandidate → Option HeuristicCandidate
sure_candidate threshold [] = none
sure_candidate threshold (best ∷ cs) = if leb threshold best.confidence then some best else none

unfoldable pub decide :
    Chance
    → DecisionContext
    → Option LlmProvider
    → HeuristicFirstStrategy
    → HeuristicFirstStrategy × DecisionResult
decide chance context provider s =
    let threshold = threshold_for s.config context in
    elim (sure_candidate threshold context.candidates) [
      | some best ↦ heuristic_path chance context best threshold s
      | none ↦ llm_or_reject chance context provider s
    ]
