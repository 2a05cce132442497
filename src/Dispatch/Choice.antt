-- ===== src/Dispatch/Choice.antt =====
-- What a batch sends: how many of its events.
use glady_s.Prelude.{
  ℕ, suc, zero, ◌+◌, ◌≤◌, ◌<◌, ◌⊎◌, ◌≡◌, ◌≢◌, refl, sym, ap, ◌∙◌, inl, inr, Bool, false, not, ◌||◌,
  Option, none, some, List, [], ◌∷◌, map, arith,
}
use glady_s.Prelude.Tests.{nat_eq, leb, Bool-cases}
use glady_s.Prelude.Ints.{ℤ, pos, negsuc}
use glady_s.Prelude.Lists.{length, take, keep, All, length-map, length-keep-split}
use glady_s.FlowControl.{FlowStrategy, available_tokens}
use glady_s.Prelude.Sorting.{sort_by}
use glady_s.Dispatch.Batch.{
  SensorEvent, Scored, Indexed, enumerate, threat_at, partition_threats, select_by_priority,
  reorder_original, has_index, within_budget, selection, score, precedes, index_lt, unscored,
}
use glady_s.Dispatch.Indices.{index_of, keep-Distinct, enumerate-Distinct, reorder_keeps}
use glady_s.Prelude.Sorting.{
  length-sort_by, exists-sort_by, count-sort_by, Distinct, sort_by-Distinct, among, count-take,
}

count-or :
    (t q : Indexed → Bool) (xs : List Indexed)
    → length (keep (λ x. t x || q x) xs)
      ≡ length (keep t xs) + length (keep q (keep (λ x. not (t x)) xs))
count-or t q [] = refl
count-or t q (x ∷ xs) = ground (arith, count-or t q xs)

length-take : {A : Type 0} (n : ℕ) (xs : List A) → n ≤ length xs → length (take n xs) ≡ n
length-take zero xs h = refl
length-take (suc n) [] h = absurd (omega arith)
length-take (suc n) (x ∷ xs) h = ap suc (length-take n xs (omega arith))

take_all : {A : Type 0} (xs : List A) → take (length xs) xs ≡ xs
take_all [] = refl
take_all (x ∷ xs) = ap (◌∷◌ x) (take_all xs)

length-select_by_priority :
    (priority : Option (SensorEvent → ℕ)) (candidates : List Indexed) (budget : ℕ)
    → budget ≤ length candidates
    → length (select_by_priority priority candidates budget) ≡ budget
unfolding select_by_priority
length-select_by_priority none candidates budget h = length-take budget candidates h
length-select_by_priority (some priority) candidates budget h =
    let scored = sort_by precedes (map (score priority) candidates) in
    length-map unscored (sort_by index_lt (take budget scored))
    ∙ length-sort_by index_lt (take budget scored)
    ∙ length-take budget scored (
        omega (
          arith,
          length-sort_by precedes (map (score priority) candidates),
          length-map (score priority) candidates,
        ))

abbrev pub place : Scored → ℕ
place x = x.0

pub exists-unscored : (i : ℕ) (xs : List Scored) → has_index i (map unscored xs) ≡ among place i xs
exists-unscored i [] = refl
exists-unscored i (x ∷ xs) = ground (arith, exists-unscored i xs)

count-scored :
    (priority : SensorEvent → ℕ) (chosen : List Scored) (xs : List Indexed)
    → length (keep (λ x. among place (index_of x) chosen) xs)
      ≡ length (keep (λ x. among place (place x) chosen) (map (score priority) xs))
count-scored priority chosen [] = refl
count-scored priority chosen (x ∷ xs) = ground (arith, count-scored priority chosen xs)

scored-absent :
    (priority : SensorEvent → ℕ) (i : ℕ) (xs : List Indexed)
    → All (λ y. index_of y ≢ i) xs
    → All (λ y. place y ≢ i) (map (score priority) xs)
scored-absent priority i [] h = tt
scored-absent priority i (x ∷ xs) h = (h.0, scored-absent priority i xs h.1)

scored-Distinct :
    (priority : SensorEvent → ℕ) (xs : List Indexed)
    → Distinct index_of xs
    → Distinct place (map (score priority) xs)
unfolding Distinct
scored-Distinct priority [] d = tt
scored-Distinct priority (x ∷ xs) d =
    (scored-absent priority (index_of x) xs d.0, scored-Distinct priority xs d.1)

gt_of_not-leb : (a b : ℕ) → leb a b ≡ false → b < a
gt_of_not-leb a b h = ground arith

keep-same :
    {A : Type 0} (p q : A → Bool) (xs : List A) → ((x : A) → p x ≡ q x) → keep p xs ≡ keep q xs
keep-same p q [] h = refl
keep-same p q (x ∷ xs) h = rw (h x, keep-same p q xs h) refl

-- As many candidates have the index of a selected one as are selected.
count-select_by_priority :
    (priority : Option (SensorEvent → ℕ)) (candidates : List Indexed) (budget : ℕ)
    → Distinct index_of candidates
    → length (
        keep
          (λ x. has_index (index_of x) (select_by_priority priority candidates budget))
          candidates)
      ≡ length (select_by_priority priority candidates budget)
unfolding select_by_priority
count-select_by_priority none candidates budget d = count-take index_of budget candidates d
count-select_by_priority (some priority) candidates budget d =
    ap length (
      keep-same _ (λ x. among place (index_of x) chosen) candidates
        (λ x.
          exists-unscored (index_of x) (sort_by index_lt chosen)
          ∙ exists-sort_by index_lt (λ y. nat_eq (place y) (index_of x)) chosen))
    ∙ count-scored priority chosen candidates
    ∙ sym (
        count-sort_by precedes (λ x. among place (place x) chosen)
          (map (score priority) candidates))
    ∙ count-take place budget scored (
        sort_by-Distinct precedes place (map (score priority) candidates)
          (scored-Distinct priority candidates d))
    ∙ sym (length-sort_by index_lt chosen)
    ∙ sym (length-map unscored (sort_by index_lt chosen))
  where
    scored : List Scored
    scored = sort_by precedes (map (score priority) candidates)

    chosen : List Scored
    chosen = take budget scored

length-within_budget :
    (candidates : List Indexed) (priority : Option (SensorEvent → ℕ)) (tokens : FlowStrategy × ℤ)
    → Distinct index_of candidates
    → let (s, kept, suppressed) = within_budget candidates priority tokens in
      length (keep (λ x. has_index (index_of x) kept) candidates) + suppressed ≡ length candidates
unfolding within_budget
length-within_budget candidates priority (s, negsuc n) d =
    omega (arith, count-take index_of 0 candidates d)
length-within_budget candidates priority (s, pos n) d =
    elim (Bool-cases (leb (length candidates) n)) [
      | inl e ↦ rw e (
          omega (
            arith,
            rw (take_all candidates) at (count-take index_of (length candidates) candidates d),
          ))
      | inr e ↦ elim (Bool-cases (leb 1 n)) [
        | inl e' ↦
            rw (e, e')
              (omega (
                arith,
                count-select_by_priority priority candidates n d,
                length-select_by_priority priority candidates n (ground arith),
                gt_of_not-leb (length candidates) n e,
              ))
        | inr e' ↦ rw (e, e') (omega (arith, count-take index_of 0 candidates d))
      ]
    ]

length-enumerate : (n : ℕ) (es : List SensorEvent) → length (enumerate n es) ≡ length es
length-enumerate n [] = refl
length-enumerate n (e ∷ es) = ap suc (length-enumerate (suc n) es)

pub List-cases : {A : Type 0} (xs : List A) → (xs ≡ []) ⊎ ((y : A) × (ys : List A) × (xs ≡ y ∷ ys))
List-cases [] = inl refl
List-cases (x ∷ xs) = inr (x, xs, refl)

length-reorder_original :
    (events : List SensorEvent) (kept : List Indexed)
    → length (reorder_original events (partition_threats events).0 kept)
      ≡ length (partition_threats events).0
        + length (keep (λ x. has_index (index_of x) kept) (partition_threats events).1)
unfolding partition_threats
length-reorder_original events kept =
    ap length (reorder_keeps events kept)
    ∙ length-map (λ (x : Indexed). x.1) _
    ∙ count-or threat_at (λ x. has_index (index_of x) kept) (enumerate 0 events)

length-partition_threats :
    (events : List SensorEvent)
    → length (partition_threats events).0 + length (partition_threats events).1 ≡ length events
unfolding partition_threats
length-partition_threats events =
    length-keep-split threat_at (enumerate 0 events) ∙ length-enumerate 0 events

candidates-Distinct : (events : List SensorEvent) → Distinct index_of (partition_threats events).1
unfolding partition_threats
candidates-Distinct events = keep-Distinct _ (enumerate 0 events) (enumerate-Distinct 0 events)

-- A batch sends all but the events that it reports as suppressed.
pub length-selection :
    (now : ℕ) (events : List SensorEvent) (s : FlowStrategy) (priority : Option (SensorEvent → ℕ))
    → let (s', to_send, suppressed) = selection now events s priority in
      length to_send + suppressed ≡ length events
unfolding selection
length-selection now events s priority =
    let (threats, candidates) = partition_threats events in
    elim (List-cases candidates) [
      | inl none_there ↦
          rw (none_there, selection)
            (omega (
              arith,
              length-reorder_original events [],
              count-take index_of 0 candidates (candidates-Distinct events),
              length-partition_threats events,
              ap length none_there,
            ))
      | inr (c, cs, some_there) ↦
          rw (some_there, selection)
            (omega (
              arith,
              length-reorder_original events
                  (within_budget candidates priority (available_tokens now s)).1,
              length-within_budget candidates priority (available_tokens now s)
                  (candidates-Distinct events),
              length-partition_threats events,
            ))
    ]
