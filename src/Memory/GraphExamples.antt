-- ===== src/Memory/GraphExamples.antt =====
-- The theorems on the graph at a person, a room and a lamp in it.
use glady_s.Prelude.{◌≤◌, ◌≡◌, refl, none, some, [], ◌∷◌, map, String}
use glady_s.Prelude.Lists.{length, All}
use glady_s.Prelude.Sorting.{sort_by}
use glady_s.Prelude.Dict
use glady_s.Prelude.Dict.{Dict, Distinct}
use glady_s.Json.{no_fields}
use glady_s.Memory.Graph.{
  get_entity_by_id, get_relationships, store_entity, store_relationship, EntityRow, NewEntity,
  RelationshipRow, Graph,
}
use glady_s.Memory.Expand.{collect_frontier, expand_context}
use glady_s.Memory.Context.{IsMet, expand_context-IsMet}
use glady_s.Memory.Edges.{IsEdge, HasNoRepeats, expand_context-AreEdges}
use glady_s.Memory.Upsert.{find_relationship, merged, find_relationship-store_relationship}

abbrev thing : String → NewEntity
thing name = record {
  canonical_name = name;
  entity_type = "thing";
  aliases = [];
  attributes = no_fields;
  embedding = none;
  source = none;
}

abbrev relation : String → String → String → String → RelationshipRow
relation id a predicate b = record {
  id = id;
  subject_id = a;
  predicate = predicate;
  object_id = b;
  attributes = no_fields;
  confidence = 900000;
  source = none;
  source_event_id = none;
}

abbrev row : String → EntityRow
row name = record {
  canonical_name = name;
  aliases = [];
  entity_type = "thing";
  attributes = no_fields;
  embedding = none;
  source = none;
  mention_count = 1;
  merged_into = none;
}

abbrev empty_room : Graph
empty_room = record {
  entities = ("p", row "Ada") ∷ ("r", row "Study") ∷ [];
  relationships = relation "1" "p" "is in" "r" ∷ [];
}

abbrev home : Graph
home = record {
  entities = ("p", row "Ada") ∷ ("r", row "Study") ∷ ("l", row "Lamp") ∷ [];
  relationships = relation "1" "p" "is in" "r" ∷ relation "2" "l" "is in" "r" ∷ [];
}

stored_lamp : (store_entity "l" (thing "Lamp") empty_room).entities ≡ home.entities
unfolding store_entity Dict.put Dict.get
stored_lamp = refl

-- An end that is no entity.
refused : store_relationship (relation "3" "p" "owns" "x") home ≡ none
unfolding store_relationship Dict.has
refused = refl

-- The relationship from Ada to the study is there, under another id and with another confidence.
abbrev again : RelationshipRow
again = record (relation "9" "p" "is in" "r") { confidence = 100000; source = some "camera" }

find_relationship-store_relationship_example :
    find_relationship "p" "is in" "r" (
      record (relation "1" "p" "is in" "r") { confidence = 100000; source = some "camera" }
      ∷ relation "2" "l" "is in" "r"
      ∷ [])
    ≡ some (merged again (find_relationship "p" "is in" "r" home.relationships))
unfolding store_relationship Dict.has
find_relationship-store_relationship_example =
    (find_relationship-store_relationship again home
      (record home {
        relationships =
            record (relation "1" "p" "is in" "r") { confidence = 100000; source = some "camera" }
            ∷ relation "2" "l" "is in" "r"
            ∷ [];
      })
      refl).1

-- Two steps from the person: the room, and the lamp that is in it.
found_all :
    map (λ (x : String × EntityRow). x.0) (expand_context ("p" ∷ []) 2 20 500000 home).0
    ≡ "p" ∷ "r" ∷ "l" ∷ []
unfolding expand_context get_entity_by_id collect_frontier get_relationships store_entity
    store_relationship Dict.get Dict.put Dict.has sort_by
found_all = refl

found_relations :
    map (λ (r : RelationshipRow). r.id) (expand_context ("p" ∷ []) 2 20 500000 home).1
    ≡ "1" ∷ "2" ∷ []
unfolding expand_context get_entity_by_id collect_frontier get_relationships store_entity
    store_relationship Dict.get Dict.put Dict.has sort_by
found_relations = refl

expand_context-IsMet_example :
    let entities = (expand_context ("p" ∷ []) 2 20 500000 home).0 in
    All (IsMet home 500000 ("p" ∷ []) 2) entities × (length entities ≤ 20) × Distinct entities
expand_context-IsMet_example = expand_context-IsMet ("p" ∷ []) 2 20 500000 home

expand_context-AreEdges_example :
    let relationships = (expand_context ("p" ∷ []) 2 20 500000 home).1 in
    All (IsEdge home 500000) relationships × HasNoRepeats relationships
expand_context-AreEdges_example = expand_context-AreEdges ("p" ∷ []) 2 20 500000 home
