-- ===== src/Executive.antt =====
-- services/executive/gladys_executive/server.py: the data of the Executive, which answers the events
-- that the orchestrator sends. Times are in microseconds. Predictions are floats of any sign, here
-- integers in units of 10^-6; that a float may be NaN is not modelled.
pub mod Traces
pub mod Decide
pub mod Clients
pub mod Feedback
pub mod Process
pub mod Endorse
pub mod Decisions
pub mod Candidates
pub mod Gate
pub mod Exits
pub mod Learned
mod Examples
pub mod Store
use glady_s.Prelude.{ℕ, String, Bool, Option, List}
use glady_s.Prelude.Ints.{ℤ}
use glady_s.Prelude.Dict.{Dict}
use glady_s.Event.{Score}

pub record LlmRequest : Type 0 where
  pub prompt : String
  pub system_prompt : Option String
  pub format : Option String

pub record LlmResponse : Type 0 where
  pub text : String
  pub model : String

-- LLMProvider: none where the provider is not available.
pub record LlmProvider : Type 0 where
  pub generate : LlmRequest → Option LlmResponse
  pub model_name : String

pub data DecisionPath : Type 0 where
  heuristic llm fallback rejected : DecisionPath

abbrev pub path_value : DecisionPath → String
path_value heuristic = "heuristic"
path_value llm = "llm"
path_value fallback = "fallback"
path_value rejected = "rejected"

pub record HeuristicCandidate : Type 0 where
  pub heuristic_id : String
  pub condition_text : String
  pub suggested_action : String
  pub confidence : Score

pub record DecisionContext : Type 0 where
  pub event_id : String
  pub event_text : String
  pub event_source : String
  pub salience : Dict Score
  pub candidates : List HeuristicCandidate
  pub immediate : Bool
  pub goals : List String
  pub personality_biases : Dict ℤ

-- The entry that each path puts into `metadata`.
pub data Metadata : Type 0 where
  threshold_used : Score → Metadata
  model_used reason : String → Metadata

pub record DecisionResult : Type 0 where
  pub path : DecisionPath
  pub response_text : String
  pub response_id : String
  pub matched_heuristic_id : Option String
  pub predicted_success : ℤ
  pub prediction_confidence : ℤ
  pub prompt_text : String
  pub metadata : Metadata

pub record ReasoningTrace : Type 0 where
  pub event_id : String
  pub response_id : String
  pub context : String
  pub response : String
  pub timestamp : ℕ
  pub event_source : String
  pub matched_heuristic_id : Option String
  pub predicted_success : ℤ
  pub prediction_confidence : ℤ

-- The template for predictions is the function that `format` makes of it.
pub record HeuristicFirstConfig : Type 0 where
  pub confidence_threshold : Score
  pub max_candidates : ℕ
  pub llm_confidence_ceiling : Score
  pub max_concurrent_llm : ℕ
  pub system_prompt : String
  pub prediction_prompt_template : String → String → String

-- A background task that endorses the candidates of a decision: the text and the candidates.
abbrev pub Endorsement : Type 0
Endorsement = String × List HeuristicCandidate

pub record HeuristicFirstStrategy : Type 0 where
  pub config : HeuristicFirstConfig
  pub trace_store : Dict ReasoningTrace
  pub has_memory_client : Bool
  pub background_tasks : List Endorsement
