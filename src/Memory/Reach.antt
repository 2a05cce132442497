-- ===== src/Memory/Reach.antt =====
-- The breadth-first search of the context: what it returns is near the entities that it starts from.
use glady_s.Prelude.{
  ℕ, zero, suc, ◌≤◌, ◌≡◌, refl, ◌⊎◌, inl, inr, String, Bool, true, Option, none, some, List, [],
  ◌∷◌, arith, eq_iff,
}
use mathlib.Core.Path.{subst}
use glady_s.Prelude.Tests.{leb, if_both, Bool-cases}
use glady_s.Prelude.Lists.{In, All-In_self, All, All-append, All-imp}
use glady_s.Prelude.Sorting.{All-sort_by, All-take}
use glady_s.Memory.Graph.{
  EntityRow, RelationshipRow, Graph, Related, get_entity_by_id, joined, select_related, meets,
  more_confident, query_related, subject_end, object_end, get_relationships,
}
use glady_s.Memory.Expand.{is_visited}

-- A relationship of the table that is sure enough has the two at its ends.
abbrev pub Linked : Graph → ℕ → String → String → Type 0
Linked g min_confidence a b =
    (r : RelationshipRow) × In r g.relationships
    × (min_confidence ≤ r.confidence)
    × (((r.subject_id ≡ a) × (r.object_id ≡ b)) ⊎ ((r.object_id ≡ a) × (r.subject_id ≡ b)))

-- At most so many relationships lead from one of the ids to this one.
abbrev pub IsNear : Graph → ℕ → List String → ℕ → String → Type 0
IsNear g min_confidence ids zero id = is_visited id ids ≡ true
IsNear g min_confidence ids (suc n) id =
    IsNear g min_confidence ids n id
    ⊎ ((a : String) × IsNear g min_confidence ids n a × Linked g min_confidence a id)

module _ (g : Graph) (min_confidence : ℕ) (ids : List String) where
  abbrev pub Near : ℕ → String → Type 0
  Near n id = IsNear g min_confidence ids n id

  pub Near-later : (k n : ℕ) (id : String) → n ≤ k → Near n id → Near k id
  Near-later zero n id le h = subst (λ j. Near j id) {y = zero} (ground arith) h
  Near-later (suc k) n id le h = elim (Bool-cases (leb n k)) [
    | inl e ↦ inl (Near-later k n id (ground arith) h)
    | inr e ↦ subst (λ j. Near j id) {y = suc k} (ground arith) h
  ]

  -- What a query returns for one entity is linked to it.
  abbrev pub LinkedTo : String → Related → Type 0
  LinkedTo id x = Linked g min_confidence id x.related_id

module _ (g : Graph) (min_confidence : ℕ) (P : Related → Type 0) where
  joined-All :
      (r : RelationshipRow) (other : String) (found : Option EntityRow) (rest : List Related)
      → ((e : EntityRow) → P (record { relationship = r; related_id = other; related_entity = e }))
      → All P rest
      → All P (joined r other found rest)
  joined-All r other none rest h hs = hs
  joined-All r other (some e) rest h hs = (h e, hs)

  select_related-All :
      (condition : RelationshipRow → Bool) (other : RelationshipRow → String)
      (rows : List RelationshipRow)
      → All
          (λ r.
            condition r ≡ true
            → (e : EntityRow)
            → P (record { relationship = r; related_id = other r; related_entity = e }))
          rows
      → All P (select_related condition other g rows)
  unfolding select_related
  select_related-All condition other [] h = tt
  select_related-All condition other (r ∷ rows) h = elim (Bool-cases (condition r)) [
    | inl e ↦ rw e (
        joined-All r (other r) (get_entity_by_id (other r) g) _ (h.0 e)
          (select_related-All condition other rows h.1))
    | inr e ↦ rw e (select_related-All condition other rows h.1)
  ]

  query_related-All :
      (id : String) (this other : RelationshipRow → String) (limit : ℕ)
      → ((r : RelationshipRow) (e : EntityRow)
          → In r g.relationships
          → min_confidence ≤ r.confidence
          → this r ≡ id
          → P (record { relationship = r; related_id = other r; related_entity = e }))
      → All P (query_related this other id none min_confidence limit g)
  unfolding query_related
  query_related-All id this other limit holds = All-take P limit _ (
      All-sort_by more_confident P _ (
        select_related-All (meets this id none min_confidence) other g.relationships (
          All-imp (λ r. In r g.relationships) _
            (λ r here c e.
              holds r e here (ground (arith, eq_iff (this r) id))
                (ground (arith, eq_iff (this r) id)))
            g.relationships
            (All-In_self (λ r. In r g.relationships) g.relationships (λ r here. here)))))

  -- What holds of each relationship of the table that starts or ends at the entity.
  pub get_relationships-All :
      (id : String) (limit : ℕ)
      → ((r : RelationshipRow) (e : EntityRow)
          → In r g.relationships
          → min_confidence ≤ r.confidence
          → r.subject_id ≡ id
          → P (record { relationship = r; related_id = r.object_id; related_entity = e }))
      → ((r : RelationshipRow) (e : EntityRow)
          → In r g.relationships
          → min_confidence ≤ r.confidence
          → r.object_id ≡ id
          → P (record { relationship = r; related_id = r.subject_id; related_entity = e }))
      → All P (get_relationships id none true true min_confidence limit g)
  unfolding get_relationships
  get_relationships-All id limit from to =
      let outgoing = query_related-All id subject_end object_end limit from in
      if_both (All P) _
        (All-append P (query_related subject_end object_end id none min_confidence limit g) _
          outgoing (query_related-All id object_end subject_end _ to))
        outgoing

pub get_relationships-LinkedTo :
    (g : Graph) (min_confidence : ℕ) (ids : List String) (id : String) (limit : ℕ)
    → All
        (LinkedTo g min_confidence ids id)
        (get_relationships id none true true min_confidence limit g)
get_relationships-LinkedTo g min_confidence ids id limit =
    get_relationships-All g min_confidence (LinkedTo g min_confidence ids id) id limit
      (λ r e here sure at. (r, here, sure, inl (at, refl)))
      (λ r e here sure at. (r, here, sure, inr (at, refl)))
