-- ===== src/Memory/Recent.antt =====
-- What a query by time returns.
use glady_s.Prelude.{
  ℕ, zero, suc, ◌≡◌, refl, ◌⊎◌, inl, inr, true, false, Option, none, some, String, List, [], ◌∷◌,
  map, arith, ◌≤◌, ◌==◌, eq_iff,
}
use glady_s.Prelude.Tests.{Bool-cases}
use glady_s.Prelude.Lists.{length, keep, take, All, All-imp, In, In-keep, All-In, length-take-le}
use glady_s.Prelude.Sorting.{
  drop, sort_by, Ordered, sort_by-Ordered, take-drop-Ordered, All-take, All-sort_by, In-sort_by,
  In-take-drop,
}
use glady_s.Memory.Episodes.{
  EventRow, EpisodicMemory, in_range, newer, row_to_event, query_by_time, from_source,
}

newer-asym : (x y : EventRow) → newer y x ≡ true → newer x y ≡ false
newer-asym x y h = ground arith

newer-through : (x y z : EventRow) → newer z y ≡ false → newer y x ≡ false → newer z x ≡ false
newer-through x y z h k = ground arith

-- Where a source is given, the event is from it.
abbrev pub IsFrom : Option String → String → Type 0
IsFrom none source = Unit {0}
IsFrom (some wanted) source = (wanted ≡ "") ⊎ (source ≡ wanted)

-- The event is one that the query asks for.
abbrev pub IsAsked : ℕ → ℕ → Option String → EventRow → Type 0
IsAsked start end source r =
    (start ≤ r.event.timestamp)
    × (r.event.timestamp ≤ end)
    × IsFrom source r.event.source
    × (r.archived ≡ false)

-- The times go down.
abbrev pub Descending : List EventRow → Type 0
Descending [] = Unit {0}
Descending (x ∷ xs) = All (λ y. y.event.timestamp ≤ x.event.timestamp) xs × Descending xs

from_source-IsFrom :
    (source : Option String) (r : EventRow)
    → (from_source source r ≡ true → IsFrom source r.event.source)
      × (IsFrom source r.event.source → from_source source r ≡ true)
from_source-IsFrom none r = (λ e. tt, λ h. refl)
from_source-IsFrom (some wanted) r = elim (Bool-cases (wanted == "")) [
  | inl e ↦ (λ k. inl ((eq_iff wanted "").0 e), λ h. rw e refl)
  | inr e ↦ (
    λ k. inr ((eq_iff r.event.source wanted).0 (rw e at k)),
    λ h. rw e (elim h [
      | inl empty ↦ absurd (ground (arith, eq_iff wanted ""))
      | inr same ↦ (eq_iff r.event.source wanted).1 same
    ]),
  )
]

in_range-IsAsked :
    (start end : ℕ) (source : Option String) (r : EventRow)
    → (in_range start end source r ≡ true → IsAsked start end source r)
      × (IsAsked start end source r → in_range start end source r ≡ true)
in_range-IsAsked start end source r =
    let (from, back) = from_source-IsFrom source r in
    (
      λ e. (ground arith, ground arith, from (ground arith), ground arith),
      λ (late, early, asked, active).
          let known = back asked in ground (arith, known, late, early, active),
    )

sorted_take : (n : ℕ) (xs : List EventRow) → Ordered newer xs → Descending (take n xs)
unfolding Ordered
sorted_take zero xs h = tt
sorted_take (suc n) [] h = tt
sorted_take (suc n) (x ∷ xs) h = (
  All-imp (λ y. newer y x ≡ false) _ (λ y e. ground arith) (take n xs)
      (All-take (λ y. newer y x ≡ false) n xs h.0),
  sorted_take n xs h.1,
)

-- Each event that the query returns is one of the memory, not archived, with a time between the two
-- bounds, and from the source where one is given that is not empty; the times go down, and there are
-- no more events than the limit. Any other such event of the memory is left out only where the limit
-- is reached, and then it is not newer than any event that is returned.
pub query_by_time-IsAsked :
    (start end : ℕ) (source : Option String) (limit : ℕ) (m : EpisodicMemory)
    → (shown : List EventRow) × (query_by_time start end source limit m ≡ map row_to_event shown)
      × All (λ r. In r m.events × IsAsked start end source r) shown
      × Descending shown
      × (length shown ≤ limit)
      × ((r : EventRow)
          → In r m.events
          → IsAsked start end source r
          → In r shown
            ⊎ ((length shown ≡ limit) × All (λ x. r.event.timestamp ≤ x.event.timestamp) shown))
unfolding query_by_time
query_by_time-IsAsked start end source limit m = (
  take limit sorted,
  refl,
  All-take (λ r. In r m.events × IsAsked start end source r) limit sorted
      (All-sort_by newer (λ r. In r m.events × IsAsked start end source r) found
        (asked m.events (λ r h. h))),
  sorted_take limit sorted ordered,
  length-take-le limit sorted,
  λ r here wanted.
      elim (In-take-drop r limit sorted (
        In-sort_by newer r found (
          In-keep (in_range start end source) r m.events
            ((in_range-IsAsked start end source r).1 wanted) here))) [
              | inl early ↦ inl early
              | inr (full, late) ↦ inr (
                full,
                All-imp (λ x. All (λ y. newer y x ≡ false) (drop limit sorted)) _
                    (λ x older.
                      let last = All-In (λ y. newer y x ≡ false) r (drop limit sorted) older late in
                      ground (arith, last))
                    (take limit sorted) (take-drop-Ordered newer limit sorted ordered),
              )
            ],
)
  where
    found : List EventRow
    found = keep (in_range start end source) m.events

    sorted : List EventRow
    sorted = sort_by newer found

    ordered : Ordered newer sorted
    ordered = sort_by-Ordered newer newer-asym newer-through _

    asked :
        (rows : List EventRow)
        → ((r : EventRow) → In r rows → In r m.events)
        → All
            (λ r. In r m.events × IsAsked start end source r)
            (keep (in_range start end source) rows)
    asked [] h = tt
    asked (r ∷ rows) h = elim (Bool-cases (in_range start end source r)) [
      | inl e ↦ rw e (
        (h r (inl refl), (in_range-IsAsked start end source r).0 e),
        asked rows (λ q k. h q (inr k)),
      )
      | inr e ↦ rw e (asked rows (λ q k. h q (inr k)))
    ]
