-- ===== src/Dispatch/Priority.antt =====
-- Which candidates of a batch are kept when the tokens do not suffice for all.
use glady_s.Prelude.{
  ℕ, suc, zero, ◌≤◌, ◌<◌, ◌≡◌, ◌⊎◌, refl, ◌∙◌, inl, inr, true, false, not, some, List, [], ◌∷◌, map,
  arith,
}
use glady_s.Prelude.Tests.{nat_eq, Bool-cases}
use glady_s.Prelude.Lists.{take, keep, All, All-imp}
use glady_s.Prelude.Sorting.{sort_by}
use glady_s.Dispatch.Batch.{
  SensorEvent, Scored, Indexed, select_by_priority, has_index, score, precedes, index_lt, unscored,
}
use glady_s.Prelude.Sorting.{
  All-sort_by, exists-sort_by, among, sort_by-Ordered, take-drop-Ordered, drop, All-take,
  All-unsort_by,
}
use glady_s.Dispatch.Indices.{index_of}
use glady_s.Dispatch.Choice.{place, exists-unscored}

-- Of a higher priority, or of the same and earlier.
abbrev pub Outranks : (SensorEvent → ℕ) → Indexed → Indexed → Type 0
Outranks priority x y =
    (priority y.1 < priority x.1) ⊎ ((priority y.1 ≡ priority x.1) × (x.0 ≤ y.0))

All-both :
    {A : Type 0} (P Q R : A → Type 0)
    → ((x : A) → P x → Q x → R x)
    → (xs : List A) → All P xs
    → All Q xs
    → All R xs
All-both P Q R f [] p q = tt
All-both P Q R f (x ∷ xs) p q = (f x p.0 q.0, All-both P Q R f xs p.1 q.1)

All-map :
    {A B : Type 0} (P : B → Type 0) (f : A → B) (xs : List A)
    → All (λ x. P (f x)) xs
    → All P (map f xs)
All-map P f [] h = tt
All-map P f (x ∷ xs) h = (h.0, All-map P f xs h.1)

mapped_All :
    {A B : Type 0} (P : B → Type 0) (f : A → B) (xs : List A)
    → All P (map f xs)
    → All (λ x. P (f x)) xs
mapped_All P f [] h = tt
mapped_All P f (x ∷ xs) h = (h.0, mapped_All P f xs h.1)

scored-right :
    (priority : SensorEvent → ℕ) (xs : List Indexed)
    → All (λ (x : Scored). x.2 ≡ priority x.1) (map (score priority) xs)
scored-right priority [] = tt
scored-right priority (x ∷ xs) = (refl, scored-right priority xs)

among_grown :
    (y : Scored) (ys : List Scored) (P : Scored → Type 0) (xs : List Scored)
    → All (λ x. (among place (place x) ys ≡ true) ⊎ P x) xs
    → All (λ x. (among place (place x) (y ∷ ys) ≡ true) ⊎ P x) xs
among_grown y ys P [] h = tt
among_grown y ys P (x ∷ xs) h =
    (elim h.0 [ inl e ↦ inl (ground arith) | inr k ↦ inr k ], among_grown y ys P xs h.1)

-- An element is among the first n, or has what the others have.
take_or_drop :
    (P : Scored → Type 0) (n : ℕ) (xs : List Scored)
    → All P (drop n xs)
    → All (λ x. (among place (place x) (take n xs) ≡ true) ⊎ P x) xs
take_or_drop P zero xs h = All-imp P _ (λ x k. inr k) xs h
take_or_drop P (suc n) [] h = tt
take_or_drop P (suc n) (x ∷ xs) h =
    (inl (ground arith), among_grown x (take n xs) P xs (take_or_drop P n xs h))

left_out :
    (P : Indexed → Type 0) (kept xs : List Indexed)
    → All (λ x. (has_index (index_of x) kept ≡ true) ⊎ P x) xs
    → All P (keep (λ x. not (has_index (index_of x) kept)) xs)
left_out P kept [] h = tt
left_out P kept (x ∷ xs) h = elim (Bool-cases (has_index (index_of x) kept)) [
  | inl e ↦ rw e (left_out P kept xs h.1)
  | inr e ↦ rw e (elim h.0 [ inl e' ↦ absurd (ground arith) | inr k ↦ k ], left_out P kept xs h.1)
]

precedes-asym : (x y : Scored) → precedes y x ≡ true → precedes x y ≡ false
precedes-asym (i, e, p) (j, f, q) h = ground arith

precedes-through :
    (x y z : Scored) → precedes z y ≡ false → precedes y x ≡ false → precedes z x ≡ false
precedes-through (i, e, p) (j, f, q) (k, g, r) h h' = ground arith

compare-cases : (a b : ℕ) → (a < b) ⊎ (b ≤ a)
compare-cases a b = ground arith

outranks :
    (priority : SensorEvent → ℕ) (x : Scored) (c : Indexed)
    → x.2 ≡ priority x.1
    → precedes (score priority c) x ≡ false
    → Outranks priority (unscored x) c
outranks priority (i, e, p) (j, f) same h = elim (compare-cases (priority f) p) [
  | inl lt ↦ inl (ground arith)
  | inr le ↦ inr (ground arith, ground arith)
]

-- With a priority function, each candidate that a batch keeps has a higher priority than each that
-- it leaves out, or the same priority and an earlier place.
pub select_by_priority-Outranks :
    (priority : SensorEvent → ℕ) (candidates : List Indexed) (budget : ℕ)
    → let kept = select_by_priority (some priority) candidates budget in
      All
        (λ x. All (Outranks priority x) (keep (λ c. not (has_index (index_of c) kept)) candidates))
        kept
unfolding select_by_priority
select_by_priority-Outranks priority candidates budget =
    All-map _ unscored (sort_by index_lt chosen) (
      All-sort_by index_lt _ chosen (
        All-both (λ x. All (λ y. precedes y x ≡ false) (drop budget scored))
          (λ x. x.2 ≡ priority x.1) _ better chosen
          (take-drop-Ordered precedes budget scored (
            sort_by-Ordered precedes precedes-asym precedes-through
              (map (score priority) candidates)))
          (All-take (λ x. x.2 ≡ priority x.1) budget scored
            (All-sort_by precedes (λ x. x.2 ≡ priority x.1) (map (score priority) candidates)
              (scored-right priority candidates)))))
  where
    scored : List Scored
    scored = sort_by precedes (map (score priority) candidates)

    chosen : List Scored
    chosen = take budget scored

    kept : List Indexed
    kept = map unscored (sort_by index_lt chosen)

    better :
        (x : Scored)
        → All (λ y. precedes y x ≡ false) (drop budget scored)
        → x.2 ≡ priority x.1
        → All
            (Outranks priority (unscored x))
            (keep (λ c. not (has_index (index_of c) kept)) candidates)
    better x first same = left_out (Outranks priority (unscored x)) kept candidates (
        All-imp
          (λ c. (among place (index_of c) chosen ≡ true) ⊎ (precedes (score priority c) x ≡ false))
          _
          (λ c h. elim h [
            | inl e ↦ inl (
                exists-unscored (index_of c) (sort_by index_lt chosen)
                ∙ exists-sort_by index_lt (λ y. nat_eq (place y) (index_of c)) chosen
                ∙ e)
            | inr k ↦ inr (outranks priority x c same k)
          ])
          candidates
          (mapped_All _ (score priority) candidates (
            All-unsort_by precedes _ (map (score priority) candidates)
              (take_or_drop (λ y. precedes y x ≡ false) budget scored first))))
