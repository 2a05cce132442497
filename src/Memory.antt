-- ===== src/Memory.antt =====
-- services/memory/gladys_memory: the tables of the memory service that hold heuristics and their
-- fires, as storage.py and db/schema.sql use them. The ids are UUIDs, here texts. Pseudo-counts,
-- magnitudes and stored confidences are in units of 10^-6. Columns that no statement reads back
-- into a decision (times of updates, the text search vector) are left out.
pub mod Fires
pub mod Heuristics
pub mod Beta
pub mod Events
pub mod Conversions
pub mod Resolving
pub mod Service
pub mod Learning
pub mod Graph
pub mod Expand
pub mod Reach
pub mod Context
pub mod Edges
pub mod Upsert
pub mod Episodes
pub mod Recent
mod GraphExamples
mod EventExamples
mod Examples
use glady_s.Prelude.{ℕ, String, Option, List}
use glady_s.Prelude.Dict.{Dict}
use glady_s.Json.{Json}

-- A float that a division gave, or that was stored: the quotient of the two.
pub record Confidence : Type 0 where
  pub over : ℕ
  pub under : ℕ

pub record HeuristicRow : Type 0 where
  pub name : String
  pub condition : Option String
  pub action : Json
  pub confidence : Confidence
  pub embedding : Option (List ℕ)
  pub origin : String
  pub origin_id : Option String
  pub source : Option String
  pub fire_count : ℕ
  pub success_count : ℕ
  pub alpha : ℕ
  pub beta : ℕ

pub record FireRow : Type 0 where
  pub id : String
  pub heuristic_id : String
  pub event_id : String
  pub episodic_event_id : Option String
  pub fired_at : ℕ
  pub outcome : String
  pub feedback_source : Option String
  pub feedback_at : Option ℕ

-- The fires in the order of their insertion.
pub record Tables : Type 0 where
  pub heuristics : Dict HeuristicRow
  pub heuristic_fires : List FireRow
