-- ===== src/Memory/Episodes.antt =====
-- storage.py: the episodic events, and the queries by time and by id. The numbers of reads and the
-- times of creation are left out.
use glady_s.Prelude.{
  ℕ, String, Bool, true, false, not, ◌&&◌, Option, none, some, List, [], ◌∷◌, ◌++◌, map, ◌==◌, ◌-◌,
}
use glady_s.Prelude.Tests.{ltb, leb, nat_eq, if◌then◌else◌}
use glady_s.Prelude.Lists.{length, keep, exists, take}
use glady_s.Prelude.Sorting.{sort_by}
use glady_s.Prelude.Dict
use glady_s.Json.{Json, object, no_fields, is_falsy}
use glady_s.Memory.{FireRow, Tables}
use glady_s.Memory.Events.{SalienceDict, EpisodicEvent}

-- A row of episodic_events: its key, and the event with the salience and the structure that the
-- columns have.
pub record EventRow : Type 0 where
  pub id : String
  pub event : EpisodicEvent
  pub archived : Bool

-- The tables of heuristics and fires, the events in the order of their insertion, and the ids of
-- the episodes.
pub record EpisodicMemory : Type 0 where
  pub tables : Tables
  pub events : List EventRow
  pub episodes : List String

abbrev empty_salience : SalienceDict
empty_salience = record {
  threat = none;
  salience = none;
  habituation = none;
  model_id = none;
  vector = none;
  flat = [];
}

abbrev salience_or : Option SalienceDict → SalienceDict
salience_or none = empty_salience
salience_or (some d) = d

-- event.structured or {}
abbrev structured_or : Option Json → Json
structured_or none = object no_fields
structured_or (some v) = if is_falsy v then object no_fields else v

abbrev pub row_of : String → EpisodicEvent → EventRow
row_of id e = record {
  id = id;
  event = record e {
    salience = some (salience_or e.salience);
    structured = some (structured_or e.structured);
  };
  archived = false;
}

-- A vector has 384 floats of 4 bytes.
abbrev has_dimension : Option (List ℕ) → Bool
has_dimension none = true
has_dimension (some bytes) = nat_eq (length bytes) 1536

abbrev heuristic_known : Tables → Option String → Bool
heuristic_known t none = true
heuristic_known t (some id) = Dict.has id t.heuristics

abbrev episode_known : List String → Option String → Bool
episode_known ids none = true
episode_known ids (some id) = exists (λ j. j == id) ids

abbrev insert_event : EpisodicEvent → EpisodicMemory → Option String → Option EpisodicMemory
insert_event e m none = none
insert_event e m (some id) =
    if not (exists (λ (r : EventRow). r.id == id) m.events)
      && has_dimension e.embedding
      && heuristic_known m.tables e.matched_heuristic_id
      && episode_known m.episodes e.episode_id
    then some (record m { events = m.events ++ row_of id e ∷ [] })
    else none

-- None where the schema raises: no id, an id that is there, an embedding of another dimension, or a
-- heuristic or an episode that is not there.
unfoldable pub store_event : EpisodicEvent → EpisodicMemory → Option EpisodicMemory
store_event e m = insert_event e m e.id

abbrev is_listed : List String → String → Bool
is_listed ids id = exists (λ j. j == id) ids

-- ON DELETE SET NULL
abbrev detach : List String → FireRow → Option String → FireRow
detach ids f none = f
detach ids f (some id) = if is_listed ids id then record f { episodic_event_id = none } else f

-- The memory without the events, and their number.
unfoldable pub delete_events : List String → EpisodicMemory → EpisodicMemory × ℕ
delete_events ids m =
    let left = keep (λ (r : EventRow). not (is_listed ids r.id)) m.events in
    (
      record m {
        events = left;
        tables = record m.tables {
          heuristic_fires =
              map (λ (f : FireRow). detach ids f f.episodic_event_id) m.tables.heuristic_fires;
        };
      },
      length m.events - length left,
    )

-- The columns of the query, without those on the decision and the episode.
abbrev pub row_to_event : EventRow → EpisodicEvent
row_to_event r = record r.event {
  id = some r.id;
  llm_prompt_text = none;
  decision_path = none;
  matched_heuristic_id = none;
  episode_id = none;
}

-- No source and an empty one let every event pass.
abbrev pub from_source : Option String → EventRow → Bool
from_source none r = true
from_source (some source) r = if source == "" then true else r.event.source == source

abbrev pub in_range : ℕ → ℕ → Option String → EventRow → Bool
in_range start end source r =
    leb start r.event.timestamp
    && leb r.event.timestamp end
    && from_source source r
    && not r.archived

-- ORDER BY timestamp DESC
abbrev pub newer : EventRow → EventRow → Bool
newer a b = ltb b.event.timestamp a.event.timestamp

-- Of equal times, the event inserted first.
unfoldable pub query_by_time : ℕ → ℕ → Option String → ℕ → EpisodicMemory → List EpisodicEvent
query_by_time start end source limit m =
    map row_to_event (take limit (sort_by newer (keep (in_range start end source) m.events)))
