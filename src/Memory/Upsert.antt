-- ===== src/Memory/Upsert.antt =====
-- What a stored relationship is read back as.
use glady_s.Prelude.{
  ◌≡◌, refl, ap, inl, inr, String, Bool, true, false, ◌&&◌, Option, none, some, List, [], ◌∷◌, ◌++◌,
  ◌==◌, arith, eq_iff,
}
use mathlib.Core.Path.{subst}
use glady_s.Prelude.Tests.{Bool-cases, if_both}
use glady_s.Prelude.Lists.{first, exists}
use glady_s.Memory.Heuristics.{coalesce}
use glady_s.Memory.Graph.{
  RelationshipRow, Graph, same_key, updated, update_relationship, id_taken, upsert_relationship,
  with_relationships, fits_schema, store_relationship,
}

-- The relationship from one entity to another with a predicate.
abbrev pub is_between : String → String → String → RelationshipRow → Bool
is_between a p b q = q.subject_id == a && q.predicate == p && q.object_id == b

unfoldable pub find_relationship :
    String → String → String → List RelationshipRow → Option RelationshipRow
find_relationship a p b rows = first (is_between a p b) rows

abbrev newer_of : Option String → Option String → Option String
newer_of (some new) old = some new
newer_of none old = old

-- What is there keeps its id and the event that it came from; its attributes and its confidence are
-- the new ones, and so is its source where a new one is given.
abbrev pub merged : RelationshipRow → Option RelationshipRow → RelationshipRow
merged r none = r
merged r (some old) = record {
  id = old.id;
  subject_id = old.subject_id;
  predicate = old.predicate;
  object_id = old.object_id;
  attributes = r.attributes;
  confidence = r.confidence;
  source = newer_of r.source old.source;
  source_event_id = old.source_event_id;
}

coalesced : (new old : Option String) → coalesce new old ≡ newer_of new old
coalesced none old = refl
coalesced (some x) old = refl

updated-merged : (r q : RelationshipRow) → updated r q ≡ merged r (some q)
updated-merged r q = λ i. record {
  id = q.id;
  subject_id = q.subject_id;
  predicate = q.predicate;
  object_id = q.object_id;
  attributes = r.attributes;
  confidence = r.confidence;
  source = coalesced r.source q.source i;
  source_event_id = q.source_event_id;
}

-- The key of the stored relationship.
find_updated :
    (r : RelationshipRow) (rows : List RelationshipRow)
    → exists (λ q. same_key q r) rows ≡ true
    → let find = find_relationship r.subject_id r.predicate r.object_id in
      find (update_relationship r rows) ≡ some (merged r (find rows))
unfolding find_relationship update_relationship
find_updated r [] h = absurd (ground arith)
find_updated r (q ∷ rows) h = elim (Bool-cases (same_key q r)) [
  | inl e ↦ rw e (rw e (ap some (updated-merged r q)))
  | inr e ↦ rw e (rw e (find_updated r rows (rw e at h)))
]

find_appended :
    (r : RelationshipRow) (rows : List RelationshipRow)
    → exists (λ q. same_key q r) rows ≡ false
    → let find = find_relationship r.subject_id r.predicate r.object_id in
      find (rows ++ r ∷ []) ≡ some (merged r (find rows))
unfolding find_relationship
find_appended r [] h = ground (
  arith,
  eq_iff r.subject_id r.subject_id,
  eq_iff r.predicate r.predicate,
  eq_iff r.object_id r.object_id,
)
find_appended r (q ∷ rows) h = elim (Bool-cases (same_key q r)) [
  | inl e ↦ absurd (ground arith)
  | inr e ↦ rw e (find_appended r rows (rw e at h))
]

between_same :
    (a p b : String) (r q : RelationshipRow)
    → is_between a p b r ≡ false
    → same_key q r ≡ true
    → is_between a p b q ≡ false
between_same a p b r q other same = ground (
  arith,
  eq_iff q.subject_id r.subject_id,
  eq_iff q.predicate r.predicate,
  eq_iff q.object_id r.object_id,
)

-- Another key.
find_updated_other :
    (a p b : String) (r : RelationshipRow) (rows : List RelationshipRow)
    → is_between a p b r ≡ false
    → find_relationship a p b (update_relationship r rows) ≡ find_relationship a p b rows
unfolding find_relationship update_relationship
find_updated_other a p b r [] other = refl
find_updated_other a p b r (q ∷ rows) other = elim (Bool-cases (same_key q r)) [
  | inl e ↦ rw e (rw (between_same a p b r q other e) (find_updated_other a p b r rows other))
  | inr e ↦ rw e (elim (Bool-cases (is_between a p b q)) [
    | inl d ↦ rw d refl
    | inr d ↦ rw d (find_updated_other a p b r rows other)
  ])
]

find_appended_other :
    (a p b : String) (r : RelationshipRow) (rows : List RelationshipRow)
    → is_between a p b r ≡ false
    → find_relationship a p b (rows ++ r ∷ []) ≡ find_relationship a p b rows
unfolding find_relationship
find_appended_other a p b r [] other = rw other refl
find_appended_other a p b r (q ∷ rows) other = elim (Bool-cases (is_between a p b q)) [
  | inl d ↦ rw d refl
  | inr d ↦ rw d (find_appended_other a p b r rows other)
]

-- A statement that raises is read as nothing.
abbrev ReadsIn : RelationshipRow → Graph → Option Graph → Type 0
ReadsIn r g none = Unit {0}
ReadsIn r g (some g') =
    (g'.entities ≡ g.entities)
    × (find_relationship r.subject_id r.predicate r.object_id g'.relationships
        ≡ some (merged r (find_relationship r.subject_id r.predicate r.object_id g.relationships)))
    × ((a p b : String)
        → is_between a p b r ≡ false
        → find_relationship a p b g'.relationships ≡ find_relationship a p b g.relationships)

upsert_relationship-ReadsIn :
    (r : RelationshipRow) (g : Graph)
    → ReadsIn r g (with_relationships g (upsert_relationship r g.relationships))
upsert_relationship-ReadsIn r g = elim (Bool-cases (exists (λ q. same_key q r) g.relationships)) [
  | inl old ↦ rw old (
    refl,
    find_updated r g.relationships old,
    λ a p b. find_updated_other a p b r g.relationships,
  )
  | inr new ↦ elim (Bool-cases (id_taken r g.relationships)) [
    | inl taken ↦ rw (new, taken) tt
    | inr free ↦
        rw (new, free)
          (
            refl,
            find_appended r g.relationships new,
            λ a p b. find_appended_other a p b r g.relationships,
          )
  ]
]

store_relationship-ReadsIn :
    (r : RelationshipRow) (g : Graph) → ReadsIn r g (store_relationship r g)
unfolding store_relationship
store_relationship-ReadsIn r g =
    if_both (ReadsIn r g) (fits_schema r g) (upsert_relationship-ReadsIn r g) tt

-- Where the storing of a relationship does not raise, the relationship of its ends and its predicate
-- is the new one, or the old one with the new attributes, the new confidence and the new source, if
-- there is one; what is found of any other ends or predicate, and the entities, stay as they are.
pub find_relationship-store_relationship :
    (r : RelationshipRow) (g g' : Graph)
    → store_relationship r g ≡ some g'
    → (g'.entities ≡ g.entities)
      × (find_relationship r.subject_id r.predicate r.object_id g'.relationships
          ≡ some
              (merged r (find_relationship r.subject_id r.predicate r.object_id g.relationships)))
      × ((a p b : String)
          → is_between a p b r ≡ false
          → find_relationship a p b g'.relationships ≡ find_relationship a p b g.relationships)
find_relationship-store_relationship r g g' stored =
    subst (ReadsIn r g) stored (store_relationship-ReadsIn r g)
