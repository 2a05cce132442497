-- ===== src/Executive/Decisions.antt =====
-- The decisions of the Executive: when a heuristic answers, how sure an answer may be, and what is
-- remembered of it.
use glady_s.Prelude.{
  inr, inl, ◌+◌, ◌≤◌, ◌<◌, ◌≡◌, ◌≢◌, refl, ap, ◌∙◌, String, Option, none, some, List, [], ◌∷◌,
  arith,
}
use glady_s.Prelude.Tests.{Option-cases, if_both}
use glady_s.Prelude.Dict.{Distinct}
use glady_s.Prelude.Ints.{ℤ, pos, negsuc}
use glady_s.Event.{Score}
use glady_s.Executive.{
  LlmProvider, LlmResponse, DecisionPath, heuristic, llm, HeuristicCandidate, DecisionContext,
  DecisionResult, ReasoningTrace, HeuristicFirstConfig, HeuristicFirstStrategy,
}
use glady_s.Executive.Traces.{trace_retention, get_trace}
use glady_s.Executive.Store.{get_trace-store_trace}
use glady_s.Executive.Decide.{
  Chance, threshold_for, decide, heuristic_path, llm_or_reject, llm_path, after_llm, schedule_for,
  schedule_endorsement, trace_of, sure_candidate, remember, clamped,
}

clamped_range : (z : ℤ) → (300000 ≤ clamped z) × (clamped z ≤ 950000)
clamped_range (pos a) = ground arith
clamped_range (negsuc a) = ground arith

threshold_for-range :
    (c : HeuristicFirstConfig) (context : DecisionContext)
    → (300000 ≤ threshold_for c context) × (threshold_for c context ≤ 950000)
unfolding threshold_for
threshold_for-range c context = clamped_range _

llm_path-llm :
    (chance : Chance) (context : DecisionContext) (provider : LlmProvider) (prompt : String)
    (s : HeuristicFirstStrategy) (answer : Option LlmResponse)
    → (after_llm chance context provider prompt s answer).1.path ≢ heuristic
unfolding after_llm
llm_path-llm chance context provider prompt s none = ground arith
llm_path-llm chance context provider prompt s (some r) = ground arith

llm_or_reject-path :
    (chance : Chance) (context : DecisionContext) (provider : Option LlmProvider)
    (s : HeuristicFirstStrategy)
    → (llm_or_reject chance context provider s).1.path ≢ heuristic
unfolding llm_or_reject llm_path
llm_or_reject-path chance context none s = ground arith
llm_or_reject-path chance context (some provider) s =
    if_both (λ (x : HeuristicFirstStrategy × DecisionResult). x.1.path ≢ heuristic)
      context.immediate (llm_path-llm chance context provider _ s _) (ground arith)

decide_sure :
    (chance : Chance) (context : DecisionContext) (provider : Option LlmProvider)
    (s : HeuristicFirstStrategy) (best : HeuristicCandidate)
    → sure_candidate (threshold_for s.config context) context.candidates ≡ some best
    → decide chance context provider s
      ≡ heuristic_path chance context best (threshold_for s.config context) s
unfolding decide
decide_sure chance context provider s best e = rw (e, decide) refl

decide_unsure :
    (chance : Chance) (context : DecisionContext) (provider : Option LlmProvider)
    (s : HeuristicFirstStrategy)
    → sure_candidate (threshold_for s.config context) context.candidates ≡ none
    → decide chance context provider s ≡ llm_or_reject chance context provider s
unfolding decide
decide_unsure chance context provider s e = rw (e, decide) refl

sure_candidate_above :
    (threshold : Score) (best : HeuristicCandidate) (rest : List HeuristicCandidate)
    → threshold ≤ best.confidence
    → sure_candidate threshold (best ∷ rest) ≡ some best
unfolding sure_candidate
sure_candidate_above threshold best rest h = ground arith

sure_candidate_below :
    (threshold : Score) (best : HeuristicCandidate) (rest : List HeuristicCandidate)
    → best.confidence < threshold
    → sure_candidate threshold (best ∷ rest) ≡ none
unfolding sure_candidate
sure_candidate_below threshold best rest h = ground arith

-- Whatever the configured threshold and the bias of the person are: where the first candidate has
-- a confidence of 0.95 or more the path is the heuristic one, and where it has less than 0.3 the
-- path is another.
pub decide-extremes :
    (chance : Chance) (context : DecisionContext) (provider : Option LlmProvider)
    (s : HeuristicFirstStrategy) (best : HeuristicCandidate) (rest : List HeuristicCandidate)
    → context.candidates ≡ best ∷ rest
    → let path = (decide chance context provider s).1.path in
      (950000 ≤ best.confidence → path ≡ heuristic) × (best.confidence < 300000 → path ≢ heuristic)
unfolding heuristic_path
decide-extremes chance context provider s best rest e = (
  λ high.
      rw
        (decide_sure chance context provider s best (
          ap (sure_candidate threshold) e
          ∙ sure_candidate_above threshold best rest (omega (arith, range.0, range.1))))
        refl,
  λ low.
      rw
        (decide_unsure chance context provider s (
          ap (sure_candidate threshold) e
          ∙ sure_candidate_below threshold best rest (omega (arith, range.0, range.1))))
        (llm_or_reject-path chance context provider s),
)
  where
    threshold : Score
    threshold = threshold_for s.config context

    range : (300000 ≤ threshold) × (threshold ≤ 950000)
    range = threshold_for-range s.config context

-- An answered event can be found again.
abbrev pub remembered : Chance → DecisionContext → DecisionResult → ReasoningTrace
remembered chance context r =
    trace_of chance context r.response_text r.matched_heuristic_id r.predicted_success
      r.prediction_confidence

pub data IsAnswer : DecisionPath → Type 0 where
  by_heuristic : IsAnswer heuristic
  by_llm : IsAnswer llm

fresh_trace :
    (chance : Chance) (context : DecisionContext) (response : String) (matched : Option String)
    (success confidence : ℤ) (s : HeuristicFirstStrategy)
    → Distinct s.trace_store
    → chance.later ≤ chance.now + trace_retention
    → let t = trace_of chance context response matched success confidence in
      get_trace chance.response_id (remember chance t s).trace_store ≡ some t
fresh_trace chance context response matched success confidence s h soon =
    get_trace-store_trace chance.later (trace_of chance context response matched success confidence)
      s.trace_store h (ground arith)

abbrev pub IsFound : Chance → DecisionContext → HeuristicFirstStrategy × DecisionResult → Type 0
IsFound chance context (s, r) =
    IsAnswer r.path → get_trace r.response_id s.trace_store ≡ some (remembered chance context r)

heuristic_path-IsFound :
    (chance : Chance) (context : DecisionContext) (best : HeuristicCandidate) (threshold : Score)
    (s : HeuristicFirstStrategy)
    → Distinct s.trace_store
    → chance.later ≤ chance.now + trace_retention
    → IsFound chance context (heuristic_path chance context best threshold s)
unfolding heuristic_path
heuristic_path-IsFound chance context best threshold s h soon answer =
    fresh_trace chance context _ _ _ _ s h soon

schedule_for-traces :
    (candidates : List HeuristicCandidate) (response : String) (s : HeuristicFirstStrategy)
    → (schedule_for candidates response s).trace_store ≡ s.trace_store
unfolding schedule_for
schedule_for-traces [] response s = refl
schedule_for-traces (c ∷ cs) response s =
    if_both (λ (x : HeuristicFirstStrategy). x.trace_store ≡ s.trace_store) s.has_memory_client refl
      refl

after_llm-IsFound :
    (chance : Chance) (context : DecisionContext) (provider : LlmProvider) (prompt : String)
    (s : HeuristicFirstStrategy) (answer : Option LlmResponse)
    → Distinct s.trace_store
    → chance.later ≤ chance.now + trace_retention
    → IsFound chance context (after_llm chance context provider prompt s answer)
unfolding after_llm schedule_endorsement
after_llm-IsFound chance context provider prompt s none h soon answer = elim answer [ ]
after_llm-IsFound chance context provider prompt s (some r) h soon answer =
    rw (schedule_for-traces context.candidates _ _) (fresh_trace chance context _ _ _ _ s h soon)

llm_or_reject-IsFound :
    (chance : Chance) (context : DecisionContext) (provider : Option LlmProvider)
    (s : HeuristicFirstStrategy)
    → Distinct s.trace_store
    → chance.later ≤ chance.now + trace_retention
    → IsFound chance context (llm_or_reject chance context provider s)
unfolding llm_or_reject llm_path
llm_or_reject-IsFound chance context none s h soon = λ answer. elim answer [ ]
llm_or_reject-IsFound chance context (some provider) s h soon =
    if_both (IsFound chance context) context.immediate
      (after_llm-IsFound chance context provider _ s _ h soon) (λ answer. elim answer [ ])

decide-IsFound :
    (chance : Chance) (context : DecisionContext) (provider : Option LlmProvider)
    (s : HeuristicFirstStrategy)
    → Distinct s.trace_store
    → chance.later ≤ chance.now + trace_retention
    → IsFound chance context (decide chance context provider s)
decide-IsFound chance context provider s h soon =
    elim (Option-cases (sure_candidate (threshold_for s.config context) context.candidates)) [
      | inl e ↦
          rw (decide_unsure chance context provider s e)
            (llm_or_reject-IsFound chance context provider s h soon)
      | inr (best, e) ↦
          rw (decide_sure chance context provider s best e)
            (heuristic_path-IsFound chance context best _ s h soon)
    ]

-- Where the trace store has distinct ids and the cleanup follows within 300 seconds, the id of an
-- answer, of a heuristic or of the language model, finds the trace with the event, the answer, the
-- matched heuristic and the predictions of the answer.
pub decide-get_trace :
    (chance : Chance) (context : DecisionContext) (provider : Option LlmProvider)
    (s : HeuristicFirstStrategy)
    → Distinct s.trace_store
    → chance.later ≤ chance.now + trace_retention
    → IsAnswer (decide chance context provider s).1.path
    → let (s', r) = decide chance context provider s in
      get_trace r.response_id s'.trace_store ≡ some (remembered chance context r)
decide-get_trace chance context provider s h soon answer =
    decide-IsFound chance context provider s h soon answer

-- z / 10^6 is at most the cap.
abbrev pub AtMost : Score → ℤ → Type 0
AtMost cap (pos a) = a ≤ cap
AtMost cap (negsuc a) = Unit

-- What each path may say of its answer.
abbrev pub Cautious : HeuristicFirstConfig → List HeuristicCandidate → DecisionResult → Type 0
Cautious c candidates r = elim r.path [
  | heuristic ↦
      (best : HeuristicCandidate) × (rest : List HeuristicCandidate) × (candidates ≡ best ∷ rest)
      × (300000 ≤ best.confidence)
      × (r.predicted_success ≡ pos best.confidence)
      × (r.prediction_confidence ≡ pos best.confidence)
      × (r.matched_heuristic_id ≡ some best.heuristic_id)
      × (r.response_text ≡ best.suggested_action)
  | llm ↦
      AtMost c.llm_confidence_ceiling r.predicted_success
      × AtMost c.llm_confidence_ceiling r.prediction_confidence
  | _ ↦ (r.predicted_success ≡ pos 0) × (r.prediction_confidence ≡ pos 0) × (r.response_id ≡ "")
]
