-- ===== src/Memory/Expand.antt =====
-- storage.py: expand_context, the breadth-first search from some entities. The entities and the
-- relationships that it met are in the order in which it met them.
use glady_s.Prelude.{
  ℕ, zero, suc, String, Bool, true, false, ◌||◌, Option, none, some, List, [], ◌∷◌, ◌++◌, ◌==◌,
}
use glady_s.Prelude.Tests.{leb, if◌then◌else◌}
use glady_s.Prelude.Lists.{length, exists}
use glady_s.Prelude.Dict.{Dict}
use glady_s.Memory.Graph.{
  EntityRow, RelationshipRow, Graph, Related, same_key, get_entity_by_id, get_relationships,
}

-- The set of visited ids, all_entities and all_relationships.
pub record Search : Type 0 where
  pub visited : List String
  pub entities : Dict EntityRow
  pub relationships : List RelationshipRow

abbrev pub is_visited : String → List String → Bool
is_visited id visited = exists (λ j. j == id) visited

abbrev pub visit : String → Option EntityRow → Search → Search
visit id none s = s
visit id (some e) s = record s { visited = id ∷ s.visited; entities = s.entities ++ (id, e) ∷ [] }

abbrev pub is_full : ℕ → Search → Bool
is_full max_entities s = leb max_entities (length s.entities)

-- The first inner loop: a visited id is skipped, and at the limit the loop ends.
unfoldable pub add_entities : Graph → ℕ → List String → Search → Search
add_entities g max_entities [] s = s
add_entities g max_entities (id ∷ ids) s =
    let seen = is_visited id s.visited in
    let s' = if seen then s else visit id (get_entity_by_id id g) s in
    let rest = add_entities g max_entities ids s' in
    if seen then rest else if is_full max_entities s then s else rest

abbrev pub add_relationship : RelationshipRow → List RelationshipRow → List RelationshipRow
add_relationship r all = if exists (λ q. same_key q r) all then all else all ++ r ∷ []

abbrev pub add_next : List String → String → List String → List String
add_next visited id next = if is_visited id visited then next else next ++ id ∷ []

-- all_relationships and next_frontier, after the relationships of one entity
unfoldable pub collect :
    List String
    → List Related
    → List RelationshipRow × List String
    → List RelationshipRow × List String
collect visited [] found = found
collect visited (x ∷ xs) (all, next) =
    collect visited xs (add_relationship x.relationship all, add_next visited x.related_id next)

-- The second inner loop, over the frontier: 10 relationships for each visited entity.
unfoldable pub collect_frontier :
    Graph
    → ℕ
    → List String
    → List String
    → List RelationshipRow × List String
    → List RelationshipRow × List String
unfolding collect
collect_frontier g min_confidence visited [] found = found
collect_frontier g min_confidence visited (id ∷ ids) found =
    collect_frontier g min_confidence visited ids (
      if is_visited id visited
      then collect visited (get_relationships id none true true min_confidence 10 g) found
      else found)

abbrev has_no_ids : List String → Bool
has_no_ids [] = true
has_no_ids (id ∷ ids) = false

abbrev pub is_over : ℕ → List String → Search → Bool
is_over max_entities frontier s = has_no_ids frontier || is_full max_entities s

abbrev pub next_round : Graph → ℕ → List String → Search → Search × List String
next_round g min_confidence frontier s =
    let (all, next) = collect_frontier g min_confidence s.visited frontier (s.relationships, []) in
    (record s { relationships = all }, next)

-- The rounds from `hop` on, by the number of those that follow it; the last one collects no
-- relationships.
unfoldable pub expand : Graph → ℕ → ℕ → ℕ → List String → Search → Search
unfolding add_entities
expand g max_entities min_confidence zero frontier s =
    if is_over max_entities frontier s then s else add_entities g max_entities frontier s
expand g max_entities min_confidence (suc hops) frontier s =
    let (s', next) =
      next_round g min_confidence frontier (add_entities g max_entities frontier s) in
    let rest = expand g max_entities min_confidence hops next s' in
    if is_over max_entities frontier s then s else rest

unfoldable pub expand_context :
    List String → ℕ → ℕ → ℕ → Graph → Dict EntityRow × List RelationshipRow
unfolding expand
expand_context entity_ids max_hops max_entities min_confidence g =
    let s =
      expand g max_entities min_confidence max_hops entity_ids
        (record { visited = []; entities = []; relationships = [] }) in
    (s.entities, s.relationships)
