-- ===== src/Executive/Store.antt =====
-- The trace store: what a cleanup leaves, and how large the store gets.
use glady_s.Prelude.{
  none, ℕ, ◌≤◌, ◌≡◌, refl, ap, ◌∙◌, ◌⊎◌, inl, inr, String, Bool, true, false, not, List, [], ◌∷◌,
  ◌==◌, some, arith, eq_iff, Option,
}
use glady_s.Prelude.Tests.{if_both, ltb, if◌then◌else◌, Bool-cases}
use glady_s.Prelude.Lists.{length, keep, exists, All}
use glady_s.Prelude.Dict
use glady_s.Prelude.Dict.{
  get_of_not-has, Dict, Distinct, get-put, get-remove, has-put, put-Distinct, remove_absent,
  remove-Distinct,
}
use glady_s.Executive.{ReasoningTrace}
use glady_s.Executive.Traces.{
  is_old, old_ids, delete_all, cleanup_old_traces, store_trace, get_trace, delete_trace,
}

abbrev pub is_fresh : ℕ → String × ReasoningTrace → Bool
is_fresh now entry = not (is_old now entry.1)

absent_old :
    (now : ℕ) (id : String) (traces : Dict ReasoningTrace)
    → Dict.has id traces ≡ false
    → exists (λ j. j == id) (old_ids now traces) ≡ false
unfolding Dict.has old_ids
absent_old now id [] h = refl
absent_old now id ((j, t) ∷ traces) h = ground (arith, absent_old now id traces)

delete_all-cons :
    (ids : List String) (id : String) (t : ReasoningTrace) (traces : Dict ReasoningTrace)
    → exists (λ j. j == id) ids ≡ false
    → delete_all ids ((id, t) ∷ traces) ≡ (id, t) ∷ delete_all ids traces
unfolding delete_all Dict.remove
delete_all-cons [] id t traces h = refl
delete_all-cons (j ∷ ids) id t traces h =
    ground (arith, eq_iff j id, eq_iff id j, delete_all-cons ids id t (Dict.remove j traces))

same_text : (id : String) → (id == id) ≡ true
same_text id = ground (arith, eq_iff id id)

delete_all-head :
    (ids : List String) (id : String) (t : ReasoningTrace) (traces : Dict ReasoningTrace)
    → Dict.has id traces ≡ false
    → delete_all (id ∷ ids) ((id, t) ∷ traces) ≡ delete_all ids traces
unfolding delete_all Dict.remove
delete_all-head ids id t traces h = rw (same_text id, remove_absent id traces h) refl

-- The cleanup deletes key by key what it listed before; on a store with distinct ids this is one
-- filter: exactly the traces of at most 300 seconds stay, in their order.
pub cleanup_old_traces-keep :
    (now : ℕ) (traces : Dict ReasoningTrace)
    → Distinct traces
    → (cleanup_old_traces now traces).0 ≡ keep (is_fresh now) traces
unfolding cleanup_old_traces delete_all old_ids Dict.has Dict.remove
cleanup_old_traces-keep now [] h = refl
cleanup_old_traces-keep now ((id, t) ∷ traces) h = elim (Bool-cases (is_old now t)) [
  | inl e ↦
      rw e (delete_all-head (old_ids now traces) id t traces h.0)
      ∙ cleanup_old_traces-keep now traces h.1
      ∙ rw e refl
  | inr e ↦
      rw e (delete_all-cons (old_ids now traces) id t traces (absent_old now id traces h.0))
      ∙ ap (◌∷◌ (id, t)) (cleanup_old_traces-keep now traces h.1)
      ∙ rw e refl
]

keep-All :
    (now : ℕ) (traces : Dict ReasoningTrace)
    → All (λ entry. is_fresh now entry ≡ true) (keep (is_fresh now) traces)
keep-All now [] = tt
keep-All now (entry ∷ traces) = elim (Bool-cases (is_fresh now entry)) [
  | inl e ↦ rw e (e, keep-All now traces)
  | inr e ↦ rw e (keep-All now traces)
]

-- What clients do to the store: each entry stores at a time, or deletes.
pub data TraceCall : Type 0 where
  stores : ℕ → ReasoningTrace → TraceCall
  deletes : String → TraceCall

unfoldable run_call : TraceCall → Dict ReasoningTrace → Dict ReasoningTrace
unfolding store_trace delete_trace
run_call (stores now t) traces = store_trace now t traces
run_call (deletes id) traces = delete_trace id traces

unfoldable pub run_calls : List TraceCall → Dict ReasoningTrace → Dict ReasoningTrace
unfolding run_call
run_calls [] traces = traces
run_calls (call ∷ calls) traces = run_calls calls (run_call call traces)

-- The time of the last storing.
abbrev pub last_stored : ℕ → List TraceCall → ℕ
last_stored now [] = now
last_stored now (stores later t ∷ calls) = last_stored later calls
last_stored now (deletes id ∷ calls) = last_stored now calls

-- At most a hundred traces, or none that was old at that time.
abbrev pub IsBounded : ℕ → Dict ReasoningTrace → Type 0
IsBounded now traces = (length traces ≤ 100) ⊎ All (λ entry. is_fresh now entry ≡ true) traces

delete_all-Distinct :
    (ids : List String) (traces : Dict ReasoningTrace)
    → Distinct traces
    → Distinct (delete_all ids traces)
unfolding delete_all
delete_all-Distinct [] traces h = h
delete_all-Distinct (id ∷ ids) traces h =
    delete_all-Distinct ids (Dict.remove id traces) (remove-Distinct id traces h)

store_trace-Distinct :
    (now : ℕ) (t : ReasoningTrace) (traces : Dict ReasoningTrace)
    → Distinct traces
    → Distinct (store_trace now t traces)
unfolding store_trace cleanup_old_traces
store_trace-Distinct now t traces h =
    let stored = put-Distinct t.response_id t traces h in
    if_both Distinct (ltb 100 (length (Dict.put t.response_id t traces)))
      (delete_all-Distinct (old_ids now (Dict.put t.response_id t traces))
        (Dict.put t.response_id t traces) stored)
      stored

store_trace-IsBounded :
    (now : ℕ) (t : ReasoningTrace) (traces : Dict ReasoningTrace)
    → Distinct traces
    → IsBounded now (store_trace now t traces)
unfolding store_trace
store_trace-IsBounded now t traces h =
    elim (Bool-cases (ltb 100 (length (Dict.put t.response_id t traces)))) [
      | inl e ↦ rw e (
          inr (
            rw
              (cleanup_old_traces-keep now (Dict.put t.response_id t traces)
                (put-Distinct t.response_id t traces h))
              (keep-All now (Dict.put t.response_id t traces))))
      | inr e ↦ rw e (inl (ground arith))
    ]

All-remove :
    (now : ℕ) (id : String) (traces : Dict ReasoningTrace)
    → All (λ entry. is_fresh now entry ≡ true) traces
    → All (λ entry. is_fresh now entry ≡ true) (Dict.remove id traces)
unfolding Dict.remove
All-remove now id [] h = tt
All-remove now id ((j, t) ∷ traces) h =
    let rest = All-remove now id traces h.1 in
    if_both (All (λ entry. is_fresh now entry ≡ true)) (j == id) rest (h.0, rest)

length-remove-le :
    (id : String) (traces : Dict ReasoningTrace) → length (Dict.remove id traces) ≤ length traces
unfolding Dict.remove
length-remove-le id [] = omega arith
length-remove-le id ((j, t) ∷ traces) = ground (arith, length-remove-le id traces)

remove-IsBounded :
    (now : ℕ) (id : String) (traces : Dict ReasoningTrace)
    → IsBounded now traces
    → IsBounded now (Dict.remove id traces)
remove-IsBounded now id traces (inl few) = inl (omega (arith, few, length-remove-le id traces))
remove-IsBounded now id traces (inr fresh) = inr (All-remove now id traces fresh)

-- From a store with distinct ids that is bounded, after any storings and deletions the store is
-- bounded at the time of the last storing: it has at most a hundred traces, or each of its traces
-- was at most 300 seconds old then.
pub run_calls-IsBounded :
    (now : ℕ) (calls : List TraceCall) (traces : Dict ReasoningTrace)
    → Distinct traces
    → IsBounded now traces
    → IsBounded (last_stored now calls) (run_calls calls traces)
unfolding run_calls delete_trace
run_calls-IsBounded now [] traces h bounded = bounded
run_calls-IsBounded now (stores later t ∷ calls) traces h bounded =
    run_calls-IsBounded later calls (store_trace later t traces)
      (store_trace-Distinct later t traces h) (store_trace-IsBounded later t traces h)
run_calls-IsBounded now (deletes id ∷ calls) traces h bounded =
    run_calls-IsBounded now calls (delete_trace id traces)
      (if_both Distinct (Dict.has id traces) (remove-Distinct id traces h) h)
      (if_both (IsBounded now) (Dict.has id traces) (remove-IsBounded now id traces bounded)
        bounded)

fresh_or_none : ℕ → Option ReasoningTrace → Option ReasoningTrace
fresh_or_none now none = none
fresh_or_none now (some t) = if is_old now t then none else some t

get-keep :
    (now : ℕ) (id : String) (traces : Dict ReasoningTrace)
    → Distinct traces
    → Dict.get id (keep (is_fresh now) traces) ≡ fresh_or_none now (Dict.get id traces)
unfolding Dict.get Dict.has fresh_or_none
get-keep now id [] h = refl
get-keep now id ((j, t) ∷ traces) h =
    ground (arith, h.0, eq_iff j id, get_of_not-has j traces h.0, get-keep now id traces h.1)

get-put_self :
    (id : String) (t : ReasoningTrace) (traces : Dict ReasoningTrace)
    → Dict.get id (Dict.put id t traces) ≡ some t
get-put_self id t traces = get-put id id t traces ∙ rw (same_text id) refl

-- A trace is found under its id right after it was stored, if it is not old yet.
pub get_trace-store_trace :
    (now : ℕ) (t : ReasoningTrace) (traces : Dict ReasoningTrace)
    → Distinct traces
    → is_old now t ≡ false
    → get_trace t.response_id (store_trace now t traces) ≡ some t
unfolding get_trace store_trace fresh_or_none
get_trace-store_trace now t traces h young =
    let id = t.response_id in
    let stored = Dict.put id t traces in
    let found = get-put_self id t traces in
    elim (Bool-cases (ltb 100 (length stored))) [
      | inl e ↦ rw e (
          rw (cleanup_old_traces-keep now stored (put-Distinct id t traces h)) (
            get-keep now id stored (put-Distinct id t traces h)
            ∙ ap (fresh_or_none now) found
            ∙ rw young refl))
      | inr e ↦ rw e found
    ]
