-- ===== src/Memory/Learning.antt =====
-- From a heuristic that the Executive learned to its first feedback, through the calls of the memory
-- service.
use glady_s.Prelude.{String, false}
use glady_s.Prelude.Dict
use glady_s.Json.{Json}
use glady_s.Memory.Service.{UpdateRequest}

abbrev pub blame : String → UpdateRequest
blame id = record { heuristic_id = id; positive = false; magnitude = 0; feedback_source = "" }
