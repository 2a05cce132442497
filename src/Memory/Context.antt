-- ===== src/Memory/Context.antt =====
-- The breadth-first search of the context: what expand_context returns.
use glady_s.Prelude.{
  ℕ, zero, suc, ◌+◌, ◌≤◌, ◌≡◌, refl, sym, ◌∙◌, inl, inr, String, true, false, Option, none, some,
  List, [], ◌∷◌, ◌++◌, arith, eq_iff,
}
use glady_s.Prelude.Tests.{if◌then◌else◌, if_both, Bool-cases}
use glady_s.Prelude.Lists.{length, All, All-append, All-imp, length-append}
use glady_s.Prelude.Dict
use glady_s.Prelude.Dict.{Dict, Distinct, has-put, put-Distinct}
use glady_s.Memory.Graph.{EntityRow, RelationshipRow, Graph, Related, get_entity_by_id}
use glady_s.Memory.Expand.{
  Search, is_visited, visit, is_full, add_entities, collect, collect_frontier, is_over, expand,
  expand_context,
}
use glady_s.Memory.Reach.{IsNear, Near, Near-later, LinkedTo, get_relationships-LinkedTo}

put_absent {ℓ} :
    {V : Type ℓ} (id : String) (v : V) (d : Dict V)
    → Dict.has id d ≡ false
    → d ++ (id, v) ∷ [] ≡ Dict.put id v d
unfolding Dict.has Dict.put
put_absent id v [] h = refl
put_absent id v ((j, w) ∷ d) h = ground (arith, put_absent id v d)

All-listed : (ids : List String) → All (λ j. is_visited j ids ≡ true) ids
All-listed [] = tt
All-listed (id ∷ ids) = (
  ground (arith, eq_iff id id),
  All-imp (λ j. is_visited j ids ≡ true) (λ j. is_visited j (id ∷ ids) ≡ true)
      (λ j h. ground (arith, h)) ids (All-listed ids),
)

-- An entity that is there, near enough.
abbrev pub IsMet : Graph → ℕ → List String → ℕ → String × EntityRow → Type 0
IsMet g min_confidence ids n x =
    (get_entity_by_id x.0 g ≡ some x.1) × IsNear g min_confidence ids n x.0

module _ (g : Graph) (max_entities min_confidence : ℕ) (ids : List String) where
  abbrev IsSound : ℕ → Search → Type 0
  IsSound n s =
      All (IsMet g min_confidence ids n) s.entities
      × (length s.entities ≤ max_entities)
      × ((j : String) → is_visited j s.visited ≡ Dict.has j s.entities)
      × Distinct s.entities

  visit-IsSound :
      (n : ℕ) (id : String) (s : Search) (found : Option EntityRow)
      → get_entity_by_id id g ≡ found
      → Near g min_confidence ids n id
      → is_visited id s.visited ≡ false
      → is_full max_entities s ≡ false
      → IsSound n s
      → IsSound n (visit id found s)
  visit-IsSound n id s none e near new room h = h
  visit-IsSound n id s (some row) e near new room (met, count, same, distinct) = (
    All-append (IsMet g min_confidence ids n) s.entities _ met ((e, near), tt),
    ground (arith, length-append s.entities ((id, row) ∷ [])),
    λ j.
        rw (put_absent id row s.entities absent, has-put id j row s.entities)
          (ground (arith, same j)),
    rw (put_absent id row s.entities absent) (put-Distinct id row s.entities distinct),
  )
    where
      absent : Dict.has id s.entities ≡ false
      absent = sym (same id) ∙ new

  add_entities-IsSound :
      (n : ℕ) (frontier : List String) (s : Search)
      → All (Near g min_confidence ids n) frontier
      → IsSound n s
      → IsSound n (add_entities g max_entities frontier s)
  unfolding add_entities
  add_entities-IsSound n [] s near h = h
  add_entities-IsSound n (id ∷ frontier) s near h = elim (Bool-cases (is_visited id s.visited)) [
    | inl seen ↦ rw seen (add_entities-IsSound n frontier s near.1 h)
    | inr new ↦ elim (Bool-cases (is_full max_entities s)) [
      | inl full ↦ rw (new, full) h
      | inr room ↦
          rw (new, room)
            (add_entities-IsSound n frontier _ near.1
              (visit-IsSound n id s _ refl near.0 new room h))
    ]
  ]

  collect-Near :
      (n : ℕ) (id : String) (visited : List String) (xs : List Related) (all : List RelationshipRow)
      (next : List String)
      → Near g min_confidence ids n id
      → All (LinkedTo g min_confidence ids id) xs
      → All (Near g min_confidence ids (suc n)) next
      → All (Near g min_confidence ids (suc n)) (collect visited xs (all, next)).1
  unfolding collect
  collect-Near n id visited [] all next near links h = h
  collect-Near n id visited (x ∷ xs) all next near links h =
      collect-Near n id visited xs _ _ near links.1 (
        if_both (All (Near g min_confidence ids (suc n))) (is_visited x.related_id visited) h
          (All-append (Near g min_confidence ids (suc n)) next _ h (inr (id, near, links.0), tt)))

  collect_frontier-Near :
      (n : ℕ) (visited frontier : List String) (found : List RelationshipRow × List String)
      → All (Near g min_confidence ids n) frontier
      → All (Near g min_confidence ids (suc n)) found.1
      → All
          (Near g min_confidence ids (suc n))
          (collect_frontier g min_confidence visited frontier found).1
  unfolding collect_frontier
  collect_frontier-Near n visited [] found near h = h
  collect_frontier-Near n visited (id ∷ frontier) (all, next) near h =
      collect_frontier-Near n visited frontier _ near.1 (
        if_both
          (λ (f : List RelationshipRow × List String). All (Near g min_confidence ids (suc n)) f.1)
          (is_visited id visited)
          (collect-Near n id visited _ all next near.0
            (get_relationships-LinkedTo g min_confidence ids id 10) h)
          h)

  later-IsSound : (k n : ℕ) (s : Search) → n ≤ k → IsSound n s → IsSound k s
  later-IsSound k n s le (met, count, same, distinct) = (
    All-imp (IsMet g min_confidence ids n) (IsMet g min_confidence ids k)
        (λ x m. (m.0, Near-later g min_confidence ids k n x.0 le m.1)) s.entities met,
    count,
    same,
    distinct,
  )

  expand-IsSound :
      (hops n k : ℕ) (frontier : List String) (s : Search)
      → hops + n ≡ k
      → All (Near g min_confidence ids n) frontier
      → IsSound n s
      → IsSound k (expand g max_entities min_confidence hops frontier s)
  unfolding expand
  expand-IsSound zero n k frontier s e near h =
      later-IsSound k n
        (if is_over max_entities frontier s then s else add_entities g max_entities frontier s)
        (omega (arith, e))
        (if_both (IsSound n) (is_over max_entities frontier s) h
          (add_entities-IsSound n frontier s near h))
  expand-IsSound (suc hops) n k frontier s e near h =
      if_both (IsSound k) (is_over max_entities frontier s)
        (later-IsSound k n s (omega (arith, e)) h)
        (expand-IsSound hops (suc n) k _ _ (omega (arith, e))
          (collect_frontier-Near n _ frontier _ near tt)
          (later-IsSound (suc n) n (add_entities g max_entities frontier s) (omega arith)
            (add_entities-IsSound n frontier s near h)))

-- The entities of a context: each is in the graph and not merged into another; from one of the
-- given ids at most `max_hops` relationships lead to it, each at least as confident as asked; there
-- are at most `max_entities`, and no id comes twice.
pub expand_context-IsMet :
    (ids : List String) (max_hops max_entities min_confidence : ℕ) (g : Graph)
    → let entities = (expand_context ids max_hops max_entities min_confidence g).0 in
      All (IsMet g min_confidence ids max_hops) entities
      × (length entities ≤ max_entities)
      × Distinct entities
unfolding expand_context Dict.has
expand_context-IsMet ids max_hops max_entities min_confidence g =
    let (met, count, same, distinct) =
      expand-IsSound g max_entities min_confidence ids max_hops 0 max_hops ids
        (record { visited = []; entities = []; relationships = [] }) (omega arith) (All-listed ids)
        (tt, omega arith, λ j. refl, tt) in
    (met, count, distinct)
