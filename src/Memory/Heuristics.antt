-- ===== src/Memory/Heuristics.antt =====
-- storage.py: heuristics and their confidence, by the Bayesian Beta model with pseudo-counts.
use glady_s.Prelude.{ℕ, zero, suc, ◌+◌, String, Bool, true, false, Option, none, some, List, ◌==◌}
use glady_s.Prelude.Tests.{leb, if◌then◌else◌}
use glady_s.Prelude.Dict
use glady_s.Json.{Json}
use glady_s.Memory.{Confidence, HeuristicRow, Tables}
use glady_s.Memory.Fires.{record_heuristic_fire, update_most_recent_fire}

-- The arguments of a storing.
pub record NewHeuristic : Type 0 where
  pub id : String
  pub name : String
  pub condition : Option String
  pub action : Json
  pub confidence : ℕ
  pub embedding : Option (List ℕ)
  pub origin : Option String
  pub origin_id : Option String
  pub source : Option String

-- 1.0
abbrev pub one : ℕ
one = 1000000

abbrev origin_or : Option String → String
origin_or none = "learned"
origin_or (some o) = if o == "" then "learned" else o

-- COALESCE(new, old)
abbrev pub coalesce {ℓ} : {A : Type ℓ} → Option A → Option A → Option A
coalesce none old = old
coalesce (some x) old = some x

-- The counts of a new row are the defaults of the schema.
abbrev pub inserted : NewHeuristic → HeuristicRow
inserted h = record {
  name = h.name;
  condition = h.condition;
  action = h.action;
  confidence = record { over = h.confidence; under = one };
  embedding = h.embedding;
  origin = origin_or h.origin;
  origin_id = h.origin_id;
  source = h.source;
  fire_count = 0;
  success_count = 0;
  alpha = one;
  beta = one;
}

-- ON CONFLICT (id) DO UPDATE
abbrev overwritten : NewHeuristic → HeuristicRow → HeuristicRow
overwritten h old = record old {
  name = h.name;
  condition = h.condition;
  action = h.action;
  confidence = record { over = h.confidence; under = one };
  embedding = coalesce h.embedding old.embedding;
  origin = origin_or h.origin;
  origin_id = coalesce h.origin_id old.origin_id;
  source = coalesce h.source old.source;
}

abbrev pub upserted : NewHeuristic → Option HeuristicRow → HeuristicRow
upserted h none = inserted h
upserted h (some old) = overwritten h old

-- None where the check of the schema raises: a confidence above 1.
unfoldable pub store_heuristic : NewHeuristic → Tables → Option Tables
store_heuristic h t =
    if leb h.confidence one
    then some (record t {
      heuristics = Dict.put h.id (upserted h (Dict.get h.id t.heuristics)) t.heuristics;
    })
    else none

-- A magnitude of 0 stands for 1.
abbrev pub magnitude_or_one : ℕ → ℕ
magnitude_or_one zero = one
magnitude_or_one (suc m) = suc m

-- alpha / (alpha + beta)
abbrev pub beta_mean : ℕ → ℕ → Confidence
beta_mean alpha beta = record { over = alpha; under = alpha + beta }

abbrev pub weigh : Bool → ℕ → HeuristicRow → HeuristicRow
weigh true magnitude row = record row {
  alpha = row.alpha + magnitude;
  confidence = beta_mean (row.alpha + magnitude) row.beta;
  success_count = suc row.success_count;
}
weigh false magnitude row = record row {
  beta = row.beta + magnitude;
  confidence = beta_mean row.alpha (row.beta + magnitude);
}

abbrev pub outcome_of : Bool → String
outcome_of true = "success"
outcome_of false = "fail"

-- The old and the new confidence; the returned delta is their difference. None where the heuristic
-- is not there, and the method raises.
unfoldable pub update_heuristic_confidence :
    String → Bool → ℕ → String → ℕ → Tables → Option (Tables × Confidence × Confidence)
update_heuristic_confidence id positive magnitude feedback_source now t =
    elim (Dict.get id t.heuristics) [
      | none ↦ none
      | some row ↦
          let row' = weigh positive (magnitude_or_one magnitude) row in
          let t' = record t { heuristics = Dict.put id row' t.heuristics } in
          some (
            (update_most_recent_fire id (outcome_of positive) feedback_source now t').0,
            row.confidence,
            row'.confidence,
          )
    ]

abbrev fired : Bool → HeuristicRow → HeuristicRow
fired true row = record row {
  fire_count = suc row.fire_count;
  success_count = suc row.success_count;
}
fired false row = record row { fire_count = suc row.fire_count }

-- The counters, and a new fire. None where the heuristic is not there: the insertion raises.
unfoldable pub update_heuristic_fired : String → String → Bool → String → ℕ → Tables → Option Tables
unfolding record_heuristic_fire
update_heuristic_fired fire_id id success event_id now t = elim (Dict.get id t.heuristics) [
  | none ↦ none
  | some row ↦
      record_heuristic_fire fire_id id event_id none now
        (record t { heuristics = Dict.put id (fired success row) t.heuristics })
]
