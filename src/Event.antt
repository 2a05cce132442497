-- ===== src/Event.antt =====
-- The event that sensors publish, with the fields that the orchestrator reads, and its salience.
-- Scores (salience, threat, confidence) are floats of the program, here numbers in units of 10^-6:
-- the program compares them and tests them against zero.
use glady_s.Prelude.{ℕ, String}
use glady_s.Prelude.Dict.{Dict}

abbrev pub Score : Type 0
Score = ℕ

pub record Salience : Type 0 where
  pub threat : Score
  pub salience : Score
  pub habituation : Score
  pub vector : Dict Score
  pub model_id : String

pub record Event : Type 0 where
  pub id : String
  pub source : String
  pub raw_text : String
  pub timestamp_ms : ℕ
  pub salience : Salience
  pub matched_heuristic_id : String
