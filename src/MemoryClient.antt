-- ===== src/MemoryClient.antt =====
-- clients/memory_client.py: the orchestrator's client of the memory service. The service is a stub
-- of remote calls, each of which may raise; the client turns that into a plain answer.
use glady_s.Prelude.{ℕ, String, Bool, false, not, Option, none, some, List, [], map, ◌==◌}
use glady_s.Prelude.Tests.{if◌then◌else◌}
use glady_s.Event.{Score}
use glady_s.Outcome.{Outcome, returned, raised}

pub record HeuristicRow : Type 0 where
  pub id : String
  pub name : String
  pub condition_text : String
  pub effects_json : String
  pub confidence : Score
  pub origin : String

pub record ConfidenceUpdate : Type 0 where
  pub heuristic_id : String
  pub positive : Bool
  pub magnitude : Score
  pub predicted_success : Score
  pub feedback_source : String

pub record FireRow : Type 0 where
  pub heuristic_id : String
  pub event_id : String
  pub episodic_event_id : String

pub record MatchQuery : Type 0 where
  pub event_text : String
  pub min_confidence : Score
  pub limit : ℕ
  pub source_filter : String

pub record MatchRow : Type 0 where
  pub heuristic : HeuristicRow
  pub similarity : Score

pub record MatchResponse : Type 0 where
  pub error : String
  pub matches : List MatchRow

-- The remote procedures.
pub record Stub : Type 0 where
  pub get : String → Outcome (Option HeuristicRow)
  pub update : ConfidenceUpdate → Outcome Bool
  pub query : MatchQuery → Outcome MatchResponse

-- A client that is not connected has no stub.
pub record MemoryClient : Type 0 where
  pub stub : Option Stub

-- The calls that change the memory service.
pub data MemoryCall : Type 0 where
  updates : ConfidenceUpdate → MemoryCall
  records : FireRow → MemoryCall

-- `if response.heuristic and response.heuristic.id`
abbrev with_id : Outcome (Option HeuristicRow) → Option HeuristicRow
with_id raised = none
with_id (returned none) = none
with_id (returned (some h)) = if h.id == "" then none else some h

unfoldable pub get_heuristic : MemoryClient → String → Option HeuristicRow
get_heuristic c id = elim c.stub [ none ↦ none | some stub ↦ with_id (stub.get id) ]

abbrev success_of : Outcome Bool → Bool
success_of raised = false
success_of (returned success) = success

-- The answer's field `success`.
unfoldable pub update_heuristic_confidence : MemoryClient → ConfidenceUpdate → Bool
update_heuristic_confidence c u = elim c.stub [
  | none ↦ false
  | some stub ↦ success_of (stub.update u)
]

pub record MatchInfo : Type 0 where
  pub heuristic_id : String
  pub condition_text : String
  pub effects_json : String
  pub confidence : Score
  pub similarity : Score

abbrev match_info : MatchRow → MatchInfo
match_info m = record {
  heuristic_id = m.heuristic.id;
  condition_text = m.heuristic.condition_text;
  effects_json = m.heuristic.effects_json;
  confidence = m.heuristic.confidence;
  similarity = m.similarity;
}

abbrev matches_of : Outcome MatchResponse → List MatchInfo
matches_of raised = []
matches_of (returned r) = if not (r.error == "") then [] else map match_info r.matches

unfoldable pub query_matching_heuristics : MemoryClient → MatchQuery → List MatchInfo
query_matching_heuristics c q = elim c.stub [ none ↦ [] | some stub ↦ matches_of (stub.query q) ]
