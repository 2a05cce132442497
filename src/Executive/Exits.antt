-- ===== src/Executive/Exits.antt =====
-- The ways in which feedback ends, and what holds of all of them.
use glady_s.Prelude.{◌≡◌, refl, inl, inr, String, true, Option, none, some, List, [], ◌++◌, ◌==◌}
use glady_s.Prelude.Tests.{Option-cases, if_both}
use glady_s.Prelude.Strings.{strip_fences}
use glady_s.Outcome.{Outcome, returned, raised}
use glady_s.Json.{
  Json, null, boolean, number, text, array, object, Fields, no_fields, Parse, parsed, malformed,
  get_field, or_default,
}
use glady_s.Executive.{LlmProvider, LlmResponse, ReasoningTrace}
use glady_s.Executive.Traces.{get_trace}
use glady_s.Executive.Clients.{Call}
use glady_s.Executive.Feedback.{
  GateError, ExecutiveServicer, FeedbackChance, FeedbackAnswer, accepted, refused, Refusal,
  provide_feedback, merge_or_create, merge_action, after_gate, with_condition, with_pattern,
  with_extracted, positive_feedback, with_trace, update_with, similar_match, update_matched,
  check_heuristic_quality, learned, forget, create_heuristic,
}
use glady_s.Executive.Gate.{HasLength, IsAction, check_heuristic_quality-none_iff}

abbrev pub Result : Type 0 → Type 0
Result F = ExecutiveServicer F × Outcome FeedbackAnswer × List (Call F)

-- What holds of a refusal, of an exception and of each heuristic that the gate lets through holds of
-- positive feedback.
module _ {F : Type 0} (chance : FeedbackChance) (id : String) (s : ExecutiveServicer F)
    (P : Result F → Type 0) (refuses : (r : Refusal) → P (s, returned (refused r), []))
    (raises : P (s, raised, []))
    (merges : (t : ReasoningTrace) (condition : String) (fs : Fields)
      → HasLength condition
      → IsAction (object fs)
      → P (merge_or_create chance id t condition fs s)) where
  merge_action_exits :
      (t : ReasoningTrace) (condition : String) (action : Json)
      → HasLength condition
      → IsAction action
      → P (merge_action chance id t condition action s)
  merge_action_exits t condition (object fs) long good = merges t condition fs long good
  merge_action_exits t condition null long good = raises
  merge_action_exits t condition (boolean b) long good = raises
  merge_action_exits t condition (number z) long good = raises
  merge_action_exits t condition (text x) long good = raises
  merge_action_exits t condition (array vs) long good = raises

  after_gate_exits :
      (t : ReasoningTrace) (condition : String) (action : Json) (o : Outcome (Option GateError))
      → check_heuristic_quality condition action ≡ o
      → P (after_gate chance id t condition action s o)
  after_gate_exits t condition action raised e = raises
  after_gate_exits t condition action (returned (some x)) e = refuses _
  after_gate_exits t condition action (returned none) e =
      let (long, good) = (check_heuristic_quality-none_iff condition action).0 e in
      merge_action_exits t condition action long good

  with_condition_exits :
      (t : ReasoningTrace) (condition action : Json)
      → P (with_condition chance id t condition action s)
  with_condition_exits t (text condition) action =
      if_both P (condition == "") (refuses _) (after_gate_exits t condition action _ refl)
  with_condition_exits t null action = refuses _
  with_condition_exits t (boolean b) action = if_both P _ (refuses _) raises
  with_condition_exits t (number z) action = if_both P _ (refuses _) raises
  with_condition_exits t (array vs) action = if_both P _ (refuses _) raises
  with_condition_exits t (object fs) action = if_both P _ (refuses _) raises

  with_pattern_exits : (t : ReasoningTrace) (parse : Parse) → P (with_pattern chance id t s parse)
  with_pattern_exits t (malformed e) = refuses _
  with_pattern_exits t (parsed (object fs)) =
      with_condition_exits t (or_default (text "") (get_field "condition" fs))
        (or_default (object no_fields) (get_field "action" fs))
  with_pattern_exits t (parsed null) = raises
  with_pattern_exits t (parsed (boolean b)) = raises
  with_pattern_exits t (parsed (number z)) = raises
  with_pattern_exits t (parsed (text x)) = raises
  with_pattern_exits t (parsed (array vs)) = raises

  with_extracted_exits :
      (t : ReasoningTrace) (answer : Option LlmResponse) → P (with_extracted chance id t s answer)
  with_extracted_exits t none = refuses _
  with_extracted_exits t (some r) =
      if_both P (r.text == "") (refuses _)
        (with_pattern_exits t (chance.json.loads (strip_fences r.text)))

  positive_feedback_exits :
      (t : ReasoningTrace) (provider : Option LlmProvider)
      → P (positive_feedback chance id t s provider)
  positive_feedback_exits t none = refuses _
  positive_feedback_exits t (some provider) = with_extracted_exits t (provider.generate _)

  with_trace_exits : (o : Option ReasoningTrace) → P (with_trace chance id true s o)
  with_trace_exits none = refuses _
  with_trace_exits (some t) = positive_feedback_exits t s.ollama

  pub provide_feedback_exits : P (provide_feedback chance id true s)
  unfolding provide_feedback
  provide_feedback_exits = with_trace_exits (get_trace id s.strategy.trace_store)

module _ {F : Type 0} where
  -- The two ends of a heuristic that passed the gate.
  abbrev pub Ends :
      FeedbackChance
      → String
      → ReasoningTrace
      → String
      → Fields
      → ExecutiveServicer F
      → (Result F → Type 0)
      → Type 0
  Ends chance id t condition fs s P =
      ((m : String) → P (forget id s, returned (accepted ""), update_with s.memory_client m true))
      → P (
        forget id (create_heuristic (learned chance t condition fs) s).0,
        returned (accepted chance.heuristic_id),
        update_matched s.memory_client t.matched_heuristic_id true
            ++ (create_heuristic (learned chance t condition fs) s).1,
      )
      → P (merge_or_create chance id t condition fs s)

  pub merge_or_create_ends :
      (chance : FeedbackChance) (id : String) (t : ReasoningTrace) (condition : String)
      (fs : Fields) (s : ExecutiveServicer F) (P : Result F → Type 0)
      → Ends chance id t condition fs s P
  unfolding merge_or_create
  merge_or_create_ends chance id t condition fs s P reinforced created =
      elim (Option-cases (similar_match s.memory_client condition)) [
        | inl e ↦ rw (e, merge_or_create) created
        | inr (m, e) ↦ rw (e, merge_or_create) (reinforced m.0)
      ]
