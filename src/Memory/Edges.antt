-- ===== src/Memory/Edges.antt =====
-- The relationships of a context: where they come from, and that none comes twice.
use glady_s.Prelude.{
  ℕ, zero, suc, ◌≤◌, ◌≡◌, refl, ◌∙◌, inl, inr, String, false, Option, none, some, List, [], ◌∷◌,
  ◌++◌, arith, eq_iff,
}
use glady_s.Prelude.Tests.{if_both, Bool-cases}
use glady_s.Prelude.Lists.{In, exists, All, All-append}
use glady_s.Memory.Graph.{get_entity_by_id, EntityRow, RelationshipRow, Graph, Related, same_key}
use glady_s.Memory.Expand.{
  Search, visit, is_full, is_visited, add_relationship, collect, collect_frontier, add_entities,
  is_over, expand, expand_context,
}
use glady_s.Memory.Reach.{get_relationships-All}

-- No two with the same ends and predicate.
abbrev pub HasNoRepeats : List RelationshipRow → Type 0
HasNoRepeats [] = Unit {0}
HasNoRepeats (r ∷ rs) = (exists (λ q. same_key q r) rs ≡ false) × HasNoRepeats rs

append-key :
    (r q : RelationshipRow) (rs : List RelationshipRow)
    → exists (λ p. same_key p q) rs ≡ false
    → same_key q r ≡ false
    → exists (λ p. same_key p q) (rs ++ r ∷ []) ≡ false
append-key r q [] h e = ground (
  arith,
  eq_iff q.subject_id r.subject_id,
  eq_iff r.subject_id q.subject_id,
  eq_iff q.predicate r.predicate,
  eq_iff r.predicate q.predicate,
  eq_iff q.object_id r.object_id,
  eq_iff r.object_id q.object_id,
)
append-key r q (p ∷ rs) h e = ground (arith, append-key r q rs)

pub append-HasNoRepeats :
    (r : RelationshipRow) (rs : List RelationshipRow)
    → exists (λ q. same_key q r) rs ≡ false
    → HasNoRepeats rs
    → HasNoRepeats (rs ++ r ∷ [])
append-HasNoRepeats r [] new h = (refl, tt)
append-HasNoRepeats r (q ∷ rs) new h =
    (append-key r q rs h.0 (ground arith), append-HasNoRepeats r rs (ground arith) h.1)

visit-relationships :
    (id : String) (found : Option EntityRow) (s : Search)
    → (visit id found s).relationships ≡ s.relationships
visit-relationships id none s = refl
visit-relationships id (some e) s = refl

module _ (g : Graph) (min_confidence : ℕ) where
  abbrev pub IsEdge : RelationshipRow → Type 0
  IsEdge r = In r g.relationships × (min_confidence ≤ r.confidence)

  abbrev AreEdges : List RelationshipRow → Type 0
  AreEdges rs = All IsEdge rs × HasNoRepeats rs

  add_relationship-AreEdges :
      (r : RelationshipRow) (rs : List RelationshipRow)
      → IsEdge r
      → AreEdges rs
      → AreEdges (add_relationship r rs)
  add_relationship-AreEdges r rs edge h = elim (Bool-cases (exists (λ q. same_key q r) rs)) [
    | inl old ↦ rw old h
    | inr new ↦ rw new (All-append IsEdge rs _ h.0 (edge, tt), append-HasNoRepeats r rs new h.1)
  ]

  abbrev OnEdge : Related → Type 0
  OnEdge x = IsEdge x.relationship

  collect-AreEdges :
      (visited : List String) (xs : List Related) (rs : List RelationshipRow) (next : List String)
      → All OnEdge xs
      → AreEdges rs
      → AreEdges (collect visited xs (rs, next)).0
  unfolding collect
  collect-AreEdges visited [] rs next hx h = h
  collect-AreEdges visited (x ∷ xs) rs next hx h =
      collect-AreEdges visited xs _ _ hx.1 (add_relationship-AreEdges x.relationship rs hx.0 h)

  collect_frontier-AreEdges :
      (visited frontier : List String) (found : List RelationshipRow × List String)
      → AreEdges found.0
      → AreEdges (collect_frontier g min_confidence visited frontier found).0
  unfolding collect_frontier
  collect_frontier-AreEdges visited [] found h = h
  collect_frontier-AreEdges visited (id ∷ frontier) (rs, next) h =
      collect_frontier-AreEdges visited frontier _ (
        if_both (λ (f : List RelationshipRow × List String). AreEdges f.0) _
          (collect-AreEdges visited _ rs next
            (get_relationships-All g min_confidence OnEdge id 10 (λ r e here sure at. (here, sure))
              (λ r e here sure at. (here, sure)))
            h)
          h)

  add_entities-relationships :
      (max_entities : ℕ) (frontier : List String) (s : Search)
      → (add_entities g max_entities frontier s).relationships ≡ s.relationships
  unfolding add_entities
  add_entities-relationships max_entities [] s = refl
  add_entities-relationships max_entities (id ∷ frontier) s =
      elim (Bool-cases (is_visited id s.visited)) [
        | inl seen ↦ rw seen (add_entities-relationships max_entities frontier s)
        | inr new ↦ elim (Bool-cases (is_full max_entities s)) [
          | inl full ↦ rw (new, full) refl
          | inr room ↦
              rw (new, room)
                (add_entities-relationships max_entities frontier
                    (visit id (get_entity_by_id id g) s)
                  ∙ visit-relationships id (get_entity_by_id id g) s)
        ]
      ]

  expand-AreEdges :
      (max_entities hops : ℕ) (frontier : List String) (s : Search)
      → AreEdges s.relationships
      → AreEdges (expand g max_entities min_confidence hops frontier s).relationships
  unfolding expand
  expand-AreEdges max_entities zero frontier s h =
      if_both (λ (x : Search). AreEdges x.relationships) (is_over max_entities frontier s) h
        (rw (add_entities-relationships max_entities frontier s) h)
  expand-AreEdges max_entities (suc hops) frontier s h =
      if_both (λ (x : Search). AreEdges x.relationships) (is_over max_entities frontier s) h
        (expand-AreEdges max_entities hops _ _ (
          collect_frontier-AreEdges _ frontier _
            (rw (add_entities-relationships max_entities frontier s) h)))

-- The relationships of a context: each is in the graph and at least as confident as asked, and no
-- two have the same subject, predicate and object.
pub expand_context-AreEdges :
    (ids : List String) (max_hops max_entities min_confidence : ℕ) (g : Graph)
    → let relationships = (expand_context ids max_hops max_entities min_confidence g).1 in
      All (IsEdge g min_confidence) relationships × HasNoRepeats relationships
unfolding expand_context
expand_context-AreEdges ids max_hops max_entities min_confidence g =
    expand-AreEdges g min_confidence max_entities max_hops ids _ (tt, tt)
