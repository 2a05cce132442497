-- ===== src/Memory/Graph.antt =====
-- storage.py: entities and the relationships between them, and the calls that read one of them.
-- The ids are UUIDs, here texts; columns of times are left out.
use glady_s.Prelude.{
  ℕ, suc, ◌-◌, String, Bool, true, ◌&&◌, Option, none, some, List, [], ◌∷◌, ◌++◌, ◌==◌,
}
use glady_s.Prelude.Tests.{ltb, leb, if◌then◌else◌}
use glady_s.Prelude.Lists.{length, exists, take}
use glady_s.Prelude.Sorting.{sort_by}
use glady_s.Prelude.Dict
use glady_s.Prelude.Dict.{Dict}
use glady_s.Json.{Fields}
use glady_s.Memory.Heuristics.{one, coalesce}

pub record EntityRow : Type 0 where
  pub canonical_name : String
  pub aliases : List String
  pub entity_type : String
  pub attributes : Fields
  pub embedding : Option (List ℕ)
  pub source : Option String
  pub mention_count : ℕ
  pub merged_into : Option String

pub record RelationshipRow : Type 0 where
  pub id : String
  pub subject_id : String
  pub predicate : String
  pub object_id : String
  pub attributes : Fields
  pub confidence : ℕ
  pub source : Option String
  pub source_event_id : Option String

-- The tables of the graph; the relationships in the order of their insertion.
pub record Graph : Type 0 where
  pub entities : Dict EntityRow
  pub relationships : List RelationshipRow

pub record NewEntity : Type 0 where
  pub canonical_name : String
  pub entity_type : String
  pub aliases : List String
  pub attributes : Fields
  pub embedding : Option (List ℕ)
  pub source : Option String

-- ON CONFLICT (id) DO UPDATE: the source and a merge stay as they are.
abbrev entity_row : NewEntity → Option EntityRow → EntityRow
entity_row e none = record {
  canonical_name = e.canonical_name;
  aliases = e.aliases;
  entity_type = e.entity_type;
  attributes = e.attributes;
  embedding = e.embedding;
  source = e.source;
  mention_count = 1;
  merged_into = none;
}
entity_row e (some old) = record old {
  canonical_name = e.canonical_name;
  aliases = e.aliases;
  entity_type = e.entity_type;
  attributes = e.attributes;
  embedding = coalesce e.embedding old.embedding;
  mention_count = suc old.mention_count;
}

unfoldable pub store_entity : String → NewEntity → Graph → Graph
store_entity id e g = record g {
  entities = Dict.put id (entity_row e (Dict.get id g.entities)) g.entities;
}

-- The unique key of a relationship.
abbrev pub same_key : RelationshipRow → RelationshipRow → Bool
same_key r q =
    r.subject_id == q.subject_id && r.predicate == q.predicate && r.object_id == q.object_id

-- ON CONFLICT (subject_id, predicate, object_id) DO UPDATE
abbrev pub updated : RelationshipRow → RelationshipRow → RelationshipRow
updated r old = record old {
  attributes = r.attributes;
  confidence = r.confidence;
  source = coalesce r.source old.source;
}

unfoldable pub update_relationship : RelationshipRow → List RelationshipRow → List RelationshipRow
update_relationship r [] = []
update_relationship r (q ∷ qs) =
    let rest = update_relationship r qs in if same_key q r then updated r q ∷ rest else q ∷ rest

-- The table of the schema: both ends are entities, and the confidence is at most 1.
unfoldable pub fits_schema : RelationshipRow → Graph → Bool
fits_schema r g =
    Dict.has r.subject_id g.entities && Dict.has r.object_id g.entities && leb r.confidence one

-- The primary key of the schema.
abbrev pub id_taken : RelationshipRow → List RelationshipRow → Bool
id_taken r rows = exists (λ (q : RelationshipRow). q.id == r.id) rows

-- The row that is there is updated, else the new one is inserted, if its id is new.
abbrev pub upsert_relationship :
    RelationshipRow → List RelationshipRow → Option (List RelationshipRow)
upsert_relationship r rows =
    if exists (λ q. same_key q r) rows
    then some (update_relationship r rows)
    else if id_taken r rows
    then none
    else some (rows ++ r ∷ [])

abbrev pub with_relationships : Graph → Option (List RelationshipRow) → Option Graph
with_relationships g none = none
with_relationships g (some rows) = some (record g { relationships = rows })

-- None where the schema raises.
unfoldable pub store_relationship : RelationshipRow → Graph → Option Graph
unfolding update_relationship fits_schema
store_relationship r g =
    if fits_schema r g then with_relationships g (upsert_relationship r g.relationships) else none

abbrev unmerged : EntityRow → Option String → Option EntityRow
unmerged e none = some e
unmerged e (some other) = none

abbrev if_unmerged : Option EntityRow → Option EntityRow
if_unmerged none = none
if_unmerged (some e) = unmerged e e.merged_into

-- WHERE id = $1 AND merged_into IS NULL
unfoldable pub get_entity_by_id : String → Graph → Option EntityRow
get_entity_by_id id g = if_unmerged (Dict.get id g.entities)

-- A relationship with the id and the columns of the entity at its other end.
pub record Related : Type 0 where
  pub relationship : RelationshipRow
  pub related_id : String
  pub related_entity : EntityRow

abbrev pub joined : RelationshipRow → String → Option EntityRow → List Related → List Related
joined r id none rest = rest
joined r id (some e) rest = record { relationship = r; related_id = id; related_entity = e } ∷ rest

-- JOIN entities e ON e.id = other r, WHERE the condition holds AND e.merged_into IS NULL
unfoldable pub select_related :
    (RelationshipRow → Bool)
    → (RelationshipRow → String)
    → Graph
    → List RelationshipRow
    → List Related
select_related condition other g [] = []
select_related condition other g (r ∷ rs) =
    let rest = select_related condition other g rs in
    if condition r then joined r (other r) (get_entity_by_id (other r) g) rest else rest

-- ORDER BY r.confidence DESC
abbrev pub more_confident : Related → Related → Bool
more_confident x y = ltb y.relationship.confidence x.relationship.confidence

-- No filter and an empty one let every predicate pass.
abbrev pub passes_filter : Option String → String → Bool
passes_filter none p = true
passes_filter (some wanted) p = if wanted == "" then true else p == wanted

abbrev pub meets : (RelationshipRow → String) → String → Option String → ℕ → RelationshipRow → Bool
meets this id predicate_filter min_confidence r =
    this r == id && passes_filter predicate_filter r.predicate && leb min_confidence r.confidence

-- One of the two queries. Of equal confidences, the one inserted first.
unfoldable pub query_related :
    (RelationshipRow → String)
    → (RelationshipRow → String)
    → String
    → Option String
    → ℕ
    → ℕ
    → Graph
    → List Related
unfolding select_related
query_related this other id predicate_filter min_confidence limit g = take limit (
    sort_by more_confident
      (select_related (meets this id predicate_filter min_confidence) other g g.relationships))

abbrev pub subject_end : RelationshipRow → String
subject_end r = r.subject_id

abbrev pub object_end : RelationshipRow → String
object_end r = r.object_id

-- The outgoing ones, and up to the limit the incoming ones.
unfoldable pub get_relationships :
    String → Option String → Bool → Bool → ℕ → ℕ → Graph → List Related
unfolding query_related
get_relationships id predicate_filter include_incoming include_outgoing min_confidence limit g =
    let out =
      if include_outgoing
      then query_related subject_end object_end id predicate_filter min_confidence limit g
      else [] in
    let remaining = limit - length out in
    if include_incoming && ltb 0 remaining
    then out ++ query_related object_end subject_end id predicate_filter min_confidence remaining g
    else out
