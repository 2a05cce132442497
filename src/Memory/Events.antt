-- ===== src/Memory/Events.antt =====
-- grpc_server.py: the conversions between the messages of the memory service and its events.
-- Times of events are in microseconds, and the floats in between round. An embedding is its bytes.
use glady_s.Prelude.{ℕ, ◌%◌, String, Option, none, some, List, [], ◌∷◌, ◌==◌}
use glady_s.Prelude.Tests.{◌>>=◌, nat_eq, if◌then◌else◌}
use glady_s.Prelude.Lists.{length}
use glady_s.Prelude.Floats.{nearest, times_truncated, from_timestamp}
use glady_s.Prelude.Dict
use glady_s.Prelude.Dict.{Dict}
use glady_s.Event.{Score, Salience}
use glady_s.Json.{Json, object, no_fields, Parse, parsed, malformed}

-- `parse` is UUID(s) with its canonical text, none where it raises; `dumps` is json.dumps.
pub record Library : Type 0 where
  pub parse : String → Option String
  pub loads : String → Parse
  pub dumps : Json → String

-- The message of the service.
pub record EventMessage : Type 0 where
  pub id : String
  pub timestamp_ms : ℕ
  pub source : String
  pub raw_text : String
  pub embedding : List ℕ
  pub salience : Salience
  pub structured_json : String
  pub entity_ids : List String
  pub intent : String
  pub evaluation_data_json : String
  pub predicted_success : Score
  pub prediction_confidence : Score
  pub response_id : String
  pub response_text : String
  pub matched_heuristic_id : String
  pub llm_prompt_text : String
  pub decision_path : String
  pub episode_id : String

-- The dictionary of an event's salience: some keys, and the dimensions, in a dictionary of their own
-- or beside the others.
pub record SalienceDict : Type 0 where
  pub threat : Option Score
  pub salience : Option Score
  pub habituation : Option Score
  pub model_id : Option String
  pub vector : Option (Dict Score)
  pub flat : Dict Score

pub record EpisodicEvent : Type 0 where
  pub id : Option String
  pub timestamp : ℕ
  pub source : String
  pub raw_text : String
  pub intent : String
  pub embedding : Option (List ℕ)
  pub salience : Option SalienceDict
  pub structured : Option Json
  pub evaluation_data : Option Json
  pub entity_ids : List String
  pub predicted_success : Option Score
  pub prediction_confidence : Option Score
  pub response_id : Option String
  pub response_text : Option String
  pub llm_prompt_text : Option String
  pub decision_path : Option String
  pub matched_heuristic_id : Option String
  pub episode_id : Option String

abbrev pub score_or_zero : Option Score → Score
score_or_zero none = 0
score_or_zero (some x) = x

abbrev pub text_or_empty : Option String → String
text_or_empty none = ""
text_or_empty (some s) = s

-- The dimensions that a dictionary without a vector has beside the other keys.
abbrev flat_vector : List String → Dict Score → Dict Score
flat_vector [] d = []
flat_vector (k ∷ ks) d = elim (Dict.get k d) [
  | none ↦ flat_vector ks d
  | some x ↦ (k, x) ∷ flat_vector ks d
]

abbrev vector_of : Option (Dict Score) → Dict Score → Dict Score
vector_of (some v) flat = v
vector_of none flat =
    flat_vector ("novelty" ∷ "goal_relevance" ∷ "opportunity" ∷ "actionability" ∷ "social" ∷ [])
      flat

unfoldable pub salience_message : Option SalienceDict → Salience
salience_message none = record {
  threat = 0;
  salience = 0;
  habituation = 0;
  vector = [];
  model_id = "";
}
salience_message (some d) = record {
  threat = score_or_zero d.threat;
  salience = score_or_zero d.salience;
  habituation = score_or_zero d.habituation;
  vector = vector_of d.vector d.flat;
  model_id = text_or_empty d.model_id;
}

abbrev pub embedding_bytes : Option (List ℕ) → List ℕ
embedding_bytes none = []
embedding_bytes (some bytes) = bytes

abbrev pub json_text : Library → Option Json → String
json_text l none = ""
json_text l (some v) = l.dumps v

-- str(None) is "None".
abbrev pub id_text : Option String → String
id_text none = "None"
id_text (some id) = id

-- int(event.timestamp.timestamp() * 1000): the product is cut off, so a millisecond may be lost.
unfoldable pub to_milliseconds : ℕ → ℕ
unfolding nearest times_truncated
to_milliseconds t = times_truncated 1000 (nearest t 1000000)

-- datetime.fromtimestamp(proto.timestamp_ms / 1000)
unfoldable pub to_microseconds : ℕ → ℕ
unfolding nearest from_timestamp
to_microseconds t = from_timestamp (nearest t 1000)

unfoldable pub event_to_message : Library → EpisodicEvent → EventMessage
unfolding salience_message to_milliseconds
event_to_message l e = record {
  id = id_text e.id;
  timestamp_ms = to_milliseconds e.timestamp;
  source = e.source;
  raw_text = e.raw_text;
  embedding = embedding_bytes e.embedding;
  salience = salience_message e.salience;
  structured_json = json_text l e.structured;
  entity_ids = e.entity_ids;
  intent = e.intent;
  evaluation_data_json = json_text l e.evaluation_data;
  predicted_success = score_or_zero e.predicted_success;
  prediction_confidence = score_or_zero e.prediction_confidence;
  response_id = text_or_empty e.response_id;
  response_text = text_or_empty e.response_text;
  matched_heuristic_id = text_or_empty e.matched_heuristic_id;
  llm_prompt_text = text_or_empty e.llm_prompt_text;
  decision_path = text_or_empty e.decision_path;
  episode_id = text_or_empty e.episode_id;
}

-- What is empty, or zero, is none.
abbrev pub text_if : String → Option String
text_if s = if s == "" then none else some s

abbrev pub score_if : Score → Option Score
score_if x = if nat_eq x 0 then none else some x

-- A malformed text is an empty object.
abbrev pub parsed_or_empty : Parse → Json
parsed_or_empty (parsed v) = v
parsed_or_empty (malformed e) = object no_fields

abbrev pub json_if : Library → String → Option Json
json_if l s = if s == "" then none else some (parsed_or_empty (l.loads s))

abbrev wrapped : Option String → Option (Option String)
wrapped none = none
wrapped (some id) = some (some id)

-- None where the parsing raises.
abbrev pub uuid_if : Library → String → Option (Option String)
uuid_if l s = if s == "" then some none else wrapped (l.parse s)

unfoldable pub uuids : Library → List String → Option (List String)
uuids l [] = some []
uuids l (s ∷ ss) = do id ← l.parse s; ids ← uuids l ss; some (id ∷ ids)

-- np.frombuffer raises on bytes that are no whole floats.
abbrev pub embedding_if : List ℕ → Option (Option (List ℕ))
embedding_if [] = some none
embedding_if (b ∷ bs) = if nat_eq (length (b ∷ bs) % 4) 0 then some (some (b ∷ bs)) else none

abbrev pub salience_dict : Salience → SalienceDict
salience_dict s = record {
  threat = some s.threat;
  salience = some s.salience;
  habituation = some s.habituation;
  model_id = some s.model_id;
  vector = some s.vector;
  flat = [];
}

-- None where an id or the embedding raises.
unfoldable pub message_to_event : Library → EventMessage → Option EpisodicEvent
unfolding uuids to_microseconds
message_to_event l m = do
  id ← uuid_if l m.id
  embedding ← embedding_if m.embedding
  ids ← uuids l m.entity_ids
  matched ← uuid_if l m.matched_heuristic_id
  episode ← uuid_if l m.episode_id
  some (record {
    id = id;
    timestamp = to_microseconds m.timestamp_ms;
    source = m.source;
    raw_text = m.raw_text;
    intent = m.intent;
    embedding = embedding;
    salience = some (salience_dict m.salience);
    structured = json_if l m.structured_json;
    evaluation_data = json_if l m.evaluation_data_json;
    entity_ids = ids;
    predicted_success = score_if m.predicted_success;
    prediction_confidence = score_if m.prediction_confidence;
    response_id = text_if m.response_id;
    response_text = text_if m.response_text;
    llm_prompt_text = text_if m.llm_prompt_text;
    decision_path = text_if m.decision_path;
    matched_heuristic_id = matched;
    episode_id = episode;
  })
