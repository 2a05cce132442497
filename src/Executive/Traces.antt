-- ===== src/Executive/Traces.antt =====
-- The store of reasoning traces of HeuristicFirstStrategy: one trace for each answer, so that
-- feedback on the answer finds what led to it.
use glady_s.Prelude.{ℕ, ◌+◌, String, Bool, Option, List, [], ◌∷◌}
use glady_s.Prelude.Tests.{ltb, if◌then◌else◌}
use glady_s.Prelude.Lists.{length}
use glady_s.Prelude.Dict
use glady_s.Prelude.Dict.{Dict}
use glady_s.Executive.{ReasoningTrace}

-- TRACE_RETENTION_SECONDS, in microseconds
abbrev pub trace_retention : ℕ
trace_retention = 300000000

-- trace.age_seconds() > TRACE_RETENTION_SECONDS
abbrev pub is_old : ℕ → ReasoningTrace → Bool
is_old now t = ltb (t.timestamp + trace_retention) now

unfoldable pub old_ids : ℕ → Dict ReasoningTrace → List String
old_ids now [] = []
old_ids now ((id, t) ∷ traces) =
    let rest = old_ids now traces in if is_old now t then id ∷ rest else rest

unfoldable pub delete_all : List String → Dict ReasoningTrace → Dict ReasoningTrace
delete_all [] traces = traces
delete_all (id ∷ ids) traces = delete_all ids (Dict.remove id traces)

-- The traces that stay, and how many went.
unfoldable pub cleanup_old_traces : ℕ → Dict ReasoningTrace → Dict ReasoningTrace × ℕ
unfolding old_ids delete_all
cleanup_old_traces now traces = let ids = old_ids now traces in (delete_all ids traces, length ids)

-- The trace has the time of its storing; the cleanup reads the time again. The id is a new UUID,
-- given here with the trace.
unfoldable pub store_trace : ℕ → ReasoningTrace → Dict ReasoningTrace → Dict ReasoningTrace
unfolding cleanup_old_traces
store_trace now t traces =
    let stored = Dict.put t.response_id t traces in
    if ltb 100 (length stored) then (cleanup_old_traces now stored).0 else stored

unfoldable pub get_trace : String → Dict ReasoningTrace → Option ReasoningTrace
get_trace id traces = Dict.get id traces

unfoldable pub delete_trace : String → Dict ReasoningTrace → Dict ReasoningTrace
delete_trace id traces = if Dict.has id traces then Dict.remove id traces else traces

unfoldable pub trace_count : Dict ReasoningTrace → ℕ
trace_count traces = length traces
