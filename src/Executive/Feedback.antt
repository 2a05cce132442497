-- ===== src/Executive/Feedback.antt =====
-- ExecutiveServicer.ProvideFeedback: what feedback on an answer changes, and the gate that a
-- heuristic passes before it is stored.
use glady_s.Prelude.{
  ℕ, zero, suc, ◌||◌, String, Bool, true, false, Option, none, some, List, [], ◌++◌, ◌==◌,
}
use Prim.Native.String.{count, ◌++◌ as ◌<>◌}
use glady_s.Prelude.Tests.{ltb, if◌then◌else◌}
use glady_s.Prelude.Lists.{first}
use glady_s.Prelude.Ints.{ℤ, at_least}
use glady_s.Prelude.Dict
use glady_s.Prelude.Dict.{Dict}
use glady_s.Prelude.Strings.{word_count, strip_fences}
use glady_s.Outcome.{Outcome, returned, raised}
use glady_s.Json.{
  Json, text, object, Fields, no_fields, Parse, parsed, malformed, JsonLibrary, get_field,
  or_default, is_falsy,
}
use glady_s.Executive.{LlmProvider, LlmResponse, ReasoningTrace, HeuristicFirstStrategy}
use glady_s.Executive.Traces.{get_trace, delete_trace}
use glady_s.Executive.Clients.{
  Heuristic, MemoryClient, Call, store_heuristic, query_matches, update_confidence,
}

-- PATTERN_EXTRACTION_PROMPT, after the answer
abbrev extraction_rules : String
extraction_rules =
    "\n" <> "User feedback: positive\n" <> "\n"
    <> "Extract a generalizable heuristic for similar future situations.\n" <> "\n" <> "Rules:\n"
    <> "- condition: Describe a SITUATION, not a person. Must be 10-50 words. No proper nouns or specific numbers.\n"
    <> "- action.type: One of \"suggest\", \"remind\", \"warn\"\n"
    <> "- action.message: The advice to give. Must be 10-50 words.\n" <> "\n" <> "Good examples:\n"
    <> "{\"condition\": \"When a player's health drops below a critical threshold during combat and healing items are available in inventory\", \"action\": {\"type\": \"suggest\", \"message\": \"Use a healing item before continuing the fight to avoid being defeated and losing progress\"}}\n"
    <> "{\"condition\": \"When a puzzle cell has only one possible candidate remaining based on row column and box constraints\", \"action\": {\"type\": \"suggest\", \"message\": \"Fill in the cell with the only remaining candidate since it is the sole valid option\"}}\n"
    <> "\n" <> "Bad examples (DO NOT generate these):\n"
    <> "- Too vague: {\"condition\": \"When something happens\", \"action\": {\"type\": \"suggest\", \"message\": \"Do the right thing\"}}\n"
    <> "- Too specific: {\"condition\": \"When John plays level 5 on Tuesday\", \"action\": {\"type\": \"suggest\", \"message\": \"Press the blue button at coordinates 150 200\"}}\n"
    <> "\n"
    <> "Output valid JSON: {\"condition\": \"...\", \"action\": {\"type\": \"...\", \"message\": \"...\"}}"

abbrev extraction_prompt : String → String → String
extraction_prompt context response =
    "You just helped with this situation:\n\nContext: " <> context <> "\nYour response: "
    <> response <> extraction_rules

-- Why a heuristic is refused, with the numbers of words.
pub data GateError : Type 0 where
  condition_too_short condition_too_long : ℕ → GateError
  not_an_object missing_type : GateError
  wrong_type : Json → GateError
  missing_message : GateError
  message_too_short message_too_long : ℕ → GateError

-- Why feedback is refused: each stands for its `error_message`.
pub data Refusal : Type 0 where
  trace_not_found llm_not_available extraction_failed missing_condition : Refusal
  parsing_failed : String → Refusal
  quality_gate : GateError → Refusal

abbrev pub kind_known : Json → Bool
kind_known (text s) = s == "suggest" || s == "remind" || s == "warn"
kind_known v = false

-- The words of the message, which must be a text.
abbrev pub check_message : Option Json → Outcome (Option GateError)
check_message none = returned (some missing_message)
check_message (some (text s)) = returned (
    if ltb (word_count s) 10
    then some (message_too_short (word_count s))
    else if ltb 50 (word_count s)
    then some (message_too_long (word_count s))
    else none)
check_message (some v) = raised

abbrev pub check_type : Option Json → Fields → Outcome (Option GateError)
check_type none fs = returned (some missing_type)
check_type (some kind) fs =
    if kind_known kind
    then check_message (get_field "message" fs)
    else returned (some (wrong_type kind))

abbrev pub check_action : Json → Outcome (Option GateError)
check_action (object fs) = check_type (get_field "type" fs) fs
check_action v = returned (some not_an_object)

-- None where the heuristic is good. `split` raises on a message that is no text.
unfoldable pub check_heuristic_quality : String → Json → Outcome (Option GateError)
check_heuristic_quality condition action =
    if ltb (word_count condition) 10
    then returned (some (condition_too_short (word_count condition)))
    else if ltb 50 (word_count condition)
    then returned (some (condition_too_long (word_count condition)))
    else check_action action

-- The state of the servicer.
pub record ExecutiveServicer (F : Type 0) : Type 0 where
  pub events_received : ℕ
  pub moments_received : ℕ
  pub heuristics_created : ℕ
  pub ollama : Option LlmProvider
  pub memory_client : Option (MemoryClient F)
  pub heuristic_store : Dict Heuristic
  pub strategy : HeuristicFirstStrategy
  pub started_at : ℕ

-- With the id of the heuristic that was created, or "".
pub data FeedbackAnswer : Type 0 where
  accepted : String → FeedbackAnswer
  refused : Refusal → FeedbackAnswer

-- The new UUID, the clock, and the JSON library.
pub record FeedbackChance : Type 0 where
  pub heuristic_id : String
  pub created_at : ℕ
  pub json : JsonLibrary

-- s[:n]
abbrev take_text : ℕ → String → String
take_text zero s = ""
take_text (suc n) String.[] = ""
take_text (suc n) (String.◌∷◌ c s) = String.◌∷◌ c (take_text n s)

abbrev name_of : String → String
name_of condition =
    if ltb 50 (count condition)
    then "Learned: " <> take_text 50 condition <> "..."
    else "Learned: " <> condition

abbrev pub learned : FeedbackChance → ReasoningTrace → String → Fields → Heuristic
learned chance t condition action = record {
  id = chance.heuristic_id;
  name = name_of condition;
  condition_text = condition;
  effects_json = action;
  confidence = 300000;
  origin = "learned";
  origin_id = t.response_id;
  created_at = chance.created_at;
  source = t.event_source;
}

-- HEURISTIC_REINFORCE_THRESHOLD
abbrev pub is_similar : String × ℤ → Bool
is_similar m = at_least 750000 m.1

module _ {F : Type 0} where
  abbrev pub forget : String → ExecutiveServicer F → ExecutiveServicer F
  forget id s = record s {
    strategy = record s.strategy { trace_store = delete_trace id s.strategy.trace_store };
  }

  abbrev pub update_with : Option (MemoryClient F) → String → Bool → List (Call F)
  update_with none id positive = []
  update_with (some c) id positive = (update_confidence c id positive).1

  -- The update of the heuristic that led to the answer, where there is one.
  unfoldable pub update_matched : Option (MemoryClient F) → Option String → Bool → List (Call F)
  update_matched client none positive = []
  update_matched client (some id) positive = if id == "" then [] else update_with client id positive

  abbrev pub similar_match : Option (MemoryClient F) → String → Option (String × ℤ)
  similar_match none condition = none
  similar_match (some c) condition = first is_similar (query_matches c condition 1)

  abbrev pub store_with : Option (MemoryClient F) → Heuristic → (Bool × String) × List (Call F)
  store_with none h = ((false, ""), [])
  store_with (some c) h = store_heuristic c h

  -- In the memory service, or else in the store of the Executive itself.
  unfoldable pub create_heuristic :
      Heuristic → ExecutiveServicer F → ExecutiveServicer F × List (Call F)
  create_heuristic h s =
      let ((stored, id), calls) = store_with s.memory_client h in
      (
        record s {
          heuristic_store = if stored then s.heuristic_store else Dict.put h.id h s.heuristic_store;
          heuristics_created = suc s.heuristics_created;
        },
        calls,
      )

  -- A heuristic that passed the gate: a similar one is reinforced, or it is created.
  unfoldable pub merge_or_create :
      FeedbackChance
      → String
      → ReasoningTrace
      → String
      → Fields
      → ExecutiveServicer F
      → ExecutiveServicer F × Outcome FeedbackAnswer × List (Call F)
  unfolding create_heuristic
  merge_or_create chance id t condition action s = elim (similar_match s.memory_client condition) [
    | some m ↦ (forget id s, returned (accepted ""), update_with s.memory_client m.0 true)
    | none ↦
        let (s', calls) = create_heuristic (learned chance t condition action) s in
        (
          forget id s',
          returned (accepted chance.heuristic_id),
          update_matched s.memory_client t.matched_heuristic_id true ++ calls,
        )
  ]

  abbrev pub merge_action :
      FeedbackChance
      → String
      → ReasoningTrace
      → String
      → Json
      → ExecutiveServicer F
      → ExecutiveServicer F × Outcome FeedbackAnswer × List (Call F)
  merge_action chance id t condition (object action) s =
      merge_or_create chance id t condition action s
  merge_action chance id t condition v s = (s, raised, [])

  -- What the gate lets through is an object.
  abbrev pub after_gate :
      FeedbackChance
      → String
      → ReasoningTrace
      → String
      → Json
      → ExecutiveServicer F
      → Outcome (Option GateError)
      → ExecutiveServicer F × Outcome FeedbackAnswer × List (Call F)
  after_gate chance id t condition action s raised = (s, raised, [])
  after_gate chance id t condition action s (returned (some e)) =
      (s, returned (refused (quality_gate e)), [])
  after_gate chance id t condition action s (returned none) =
      merge_action chance id t condition action s

  -- `split` raises on a condition that is no text.
  abbrev pub with_condition :
      FeedbackChance
      → String
      → ReasoningTrace
      → Json
      → Json
      → ExecutiveServicer F
      → ExecutiveServicer F × Outcome FeedbackAnswer × List (Call F)
  with_condition chance id t (text condition) action s =
      if condition == ""
      then (s, returned (refused missing_condition), [])
      else after_gate chance id t condition action s (check_heuristic_quality condition action)
  with_condition chance id t v action s =
      if is_falsy v then (s, returned (refused missing_condition), []) else (s, raised, [])

  -- Only JSON errors and missing conditions are caught: `get` raises on what is no object.
  abbrev pub with_pattern :
      FeedbackChance
      → String
      → ReasoningTrace
      → ExecutiveServicer F
      → Parse
      → ExecutiveServicer F × Outcome FeedbackAnswer × List (Call F)
  with_pattern chance id t s (malformed e) = (s, returned (refused (parsing_failed e)), [])
  with_pattern chance id t s (parsed (object fs)) =
      with_condition chance id t (or_default (text "") (get_field "condition" fs))
        (or_default (object no_fields) (get_field "action" fs)) s
  with_pattern chance id t s (parsed v) = (s, raised, [])

  abbrev pub with_extracted :
      FeedbackChance
      → String
      → ReasoningTrace
      → ExecutiveServicer F
      → Option LlmResponse
      → ExecutiveServicer F × Outcome FeedbackAnswer × List (Call F)
  with_extracted chance id t s none = (s, returned (refused extraction_failed), [])
  with_extracted chance id t s (some r) =
      if r.text == ""
      then (s, returned (refused extraction_failed), [])
      else with_pattern chance id t s (chance.json.loads (strip_fences r.text))

  abbrev pub positive_feedback :
      FeedbackChance
      → String
      → ReasoningTrace
      → ExecutiveServicer F
      → Option LlmProvider
      → ExecutiveServicer F × Outcome FeedbackAnswer × List (Call F)
  positive_feedback chance id t s none = (s, returned (refused llm_not_available), [])
  positive_feedback chance id t s (some provider) = with_extracted chance id t s (
      provider.generate (record {
        prompt = extraction_prompt t.context t.response;
        system_prompt = none;
        format = some "json";
      }))

  abbrev pub with_trace :
      FeedbackChance
      → String
      → Bool
      → ExecutiveServicer F
      → Option ReasoningTrace
      → ExecutiveServicer F × Outcome FeedbackAnswer × List (Call F)
  with_trace chance id positive s none = (s, returned (refused trace_not_found), [])
  with_trace chance id false s (some t) =
      (s, returned (accepted ""), update_matched s.memory_client t.matched_heuristic_id false)
  with_trace chance id true s (some t) = positive_feedback chance id t s s.ollama

  -- The new state, the answer or that the handler raises, and the calls to other services.
  unfoldable pub provide_feedback :
      FeedbackChance
      → String
      → Bool
      → ExecutiveServicer F
      → ExecutiveServicer F × Outcome FeedbackAnswer × List (Call F)
  unfolding get_trace
  provide_feedback chance id positive s =
      with_trace chance id positive s (get_trace id s.strategy.trace_store)
