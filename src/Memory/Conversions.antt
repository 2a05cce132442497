-- ===== src/Memory/Conversions.antt =====
-- The round trip of messages: what a message keeps on its way through an event.
use glady_s.Prelude.{ℕ, ◌%◌, ◌≡◌, ◌≢◌, ◌⊎◌, String, Option, some, List}
use glady_s.Prelude.Lists.{length, All}
use glady_s.Json.{Json, parsed}
use glady_s.Memory.Events.{
  Library, EventMessage, EpisodicEvent, salience_dict, text_if, score_if, json_if, to_microseconds,
}

-- An id is empty, or it is written as UUIDs are.
abbrev pub IsId : Library → String → Type 0
IsId l s = (s ≡ "") ⊎ (l.parse s ≡ some s)

-- A text is empty, or it is the text of the value that it is parsed to.
abbrev pub IsJson : Library → String → Type 0
IsJson l s = (s ≡ "") ⊎ ((v : Json) × (l.loads s ≡ parsed v) × (l.dumps v ≡ s))

-- A message as the service's clients send it.
abbrev pub IsProper : Library → EventMessage → Type 0
IsProper l m =
    (m.id ≢ "")
    × IsId l m.id
    × All (λ s. l.parse s ≡ some s) m.entity_ids
    × IsId l m.matched_heuristic_id
    × IsId l m.episode_id
    × IsJson l m.structured_json
    × IsJson l m.evaluation_data_json
    × (length m.embedding % 4 ≡ 0)

abbrev event_of : Library → EventMessage → Option (List ℕ) → EpisodicEvent
event_of l m embedding = record {
  id = text_if m.id;
  timestamp = to_microseconds m.timestamp_ms;
  source = m.source;
  raw_text = m.raw_text;
  intent = m.intent;
  embedding = embedding;
  salience = some (salience_dict m.salience);
  structured = json_if l m.structured_json;
  evaluation_data = json_if l m.evaluation_data_json;
  entity_ids = m.entity_ids;
  predicted_success = score_if m.predicted_success;
  prediction_confidence = score_if m.prediction_confidence;
  response_id = text_if m.response_id;
  response_text = text_if m.response_text;
  llm_prompt_text = text_if m.llm_prompt_text;
  decision_path = text_if m.decision_path;
  matched_heuristic_id = text_if m.matched_heuristic_id;
  episode_id = text_if m.episode_id;
}
