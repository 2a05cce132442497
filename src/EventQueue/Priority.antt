-- ===== src/EventQueue/Priority.antt =====
-- The queue as a stable priority list: what waits, in the order in which it will be taken.
use glady_s.Prelude.{
  ℕ, ◌<◌, String, ◌≡◌, refl, sym, inl, inr, true, false, Option, none, some, List, [], ◌∷◌, eq_iff,
  arith,
}
use glady_s.Prelude.Tests.{ltb, Bool-cases, Option-cases, if◌then◌else◌}
use glady_s.Prelude.Lists.{All, All-imp}
use glady_s.Prelude.Dict
use glady_s.Prelude.Dict.{Dict, get-put, get-remove}
use glady_s.EventQueue.{EventQueue, QueuedEvent, HeapEntry, before, heappush, dequeue_from}
use glady_s.EventQueue.Heap.{Sorted, Unique, in_heap}

-- The events that wait, first to be taken first: the heap without its stale entries.
unfoldable pub waiting_in : List HeapEntry → Dict QueuedEvent → List QueuedEvent
waiting_in [] pending = []
waiting_in (a ∷ heap) pending = elim (Dict.get a.event_id pending) [
  | none ↦ waiting_in heap pending
  | some e ↦ e ∷ waiting_in heap pending
]

abbrev pub waiting : EventQueue → List QueuedEvent
waiting q = waiting_in q.heap q.pending

-- The specification of a push: behind everything at least as salient, before the rest.
unfoldable pub insert_stable : QueuedEvent → List QueuedEvent → List QueuedEvent
insert_stable e [] = e ∷ []
insert_stable e (x ∷ xs) =
    let later = insert_stable e xs in if ltb x.salience e.salience then e ∷ x ∷ xs else x ∷ later

-- The entry of a pending event carries its salience and its id.
abbrev pub Matches : Dict QueuedEvent → HeapEntry → Type 0
Matches pending a =
    (e : QueuedEvent)
    → Dict.get a.event_id pending ≡ some e
    → (a.salience ≡ e.salience) × (a.event_id ≡ e.event_id)

pub record IsFaithful (q : EventQueue) : Type 0 where
  pub sorted : Sorted q.heap
  pub newest : All (λ a. a.counter < q.counter) q.heap
  pub unique : Unique q.heap
  pub matches : All (Matches q.pending) q.heap
  pub covered : (id : String) → Dict.has id q.pending ≡ true → in_heap id q.heap ≡ true

insert_stable_front :
    (e : QueuedEvent) (xs : List QueuedEvent)
    → All (λ x. x.salience < e.salience) xs
    → insert_stable e xs ≡ e ∷ xs
unfolding insert_stable
insert_stable_front e [] h = refl
insert_stable_front e (x ∷ xs) h = ground (arith, h.0)

-- What waits behind an entry is no more salient than it.
waiting-All :
    (n : ℕ) (heap : List HeapEntry) (pending : Dict QueuedEvent)
    → All (λ a. a.salience < n) heap
    → All (Matches pending) heap
    → All (λ x. x.salience < n) (waiting_in heap pending)
unfolding waiting_in
waiting-All n [] pending b m = tt
waiting-All n (a ∷ heap) pending b m = elim (Option-cases (Dict.get a.event_id pending)) [
  | inl e ↦ rw (e, waiting_in) (waiting-All n heap pending b.1 m.1)
  | inr (x, e) ↦
      let (same, _) = m.0 x e in
      rw (e, waiting_in) (ground (arith, b.0), waiting-All n heap pending b.1 m.1)
]

-- Only the entries' own events matter to what waits.
pub waiting-congr :
    (heap : List HeapEntry) (p q : Dict QueuedEvent)
    → All (λ a. Dict.get a.event_id p ≡ Dict.get a.event_id q) heap
    → waiting_in heap p ≡ waiting_in heap q
unfolding waiting_in
waiting-congr [] p q h = refl
waiting-congr (a ∷ heap) p q h = ground (arith, h.0, waiting-congr heap p q h.1)

pub All-get-put :
    (id : String) (v : QueuedEvent) (pending : Dict QueuedEvent) (heap : List HeapEntry)
    → in_heap id heap ≡ false
    → All (λ a. Dict.get a.event_id (Dict.put id v pending) ≡ Dict.get a.event_id pending) heap
All-get-put id v pending [] n = tt
All-get-put id v pending (a ∷ heap) n = (
  rw get-put (ground (arith, eq_iff id a.event_id, eq_iff a.event_id id)),
  All-get-put id v pending heap (ground arith),
)

lower : (b z : HeapEntry) (n : ℕ) → b.salience < n → before b z ≡ true → z.salience < n
lower b z n low h = ground arith

pub waiting-heappush :
    (a : HeapEntry) (x : QueuedEvent) (heap : List HeapEntry) (pending : Dict QueuedEvent)
    → Dict.get a.event_id pending ≡ some x
    → a.salience ≡ x.salience
    → All (λ b. b.counter < a.counter) heap
    → Sorted heap
    → All (Matches pending) heap
    → waiting_in (heappush a heap) pending ≡ insert_stable x (waiting_in heap pending)
unfolding heappush waiting_in insert_stable
waiting-heappush a x [] pending g s c o m = rw (g, waiting_in) refl
waiting-heappush a x (b ∷ heap) pending g s c o m =
    let ih = waiting-heappush a x heap pending g s c.1 o.1 m.1 in
    elim (Bool-cases (before b a)) [
      | inl e ↦ rw e (elim (Option-cases (Dict.get b.event_id pending)) [
        | inl n ↦ rw (n, waiting_in) ih
        | inr (y, n) ↦ let (same, _) = m.0 y n in rw (n, waiting_in) (ground (arith, ih))
      ])
      | inr e ↦
          let low : b.salience < x.salience = ground (arith, c.0) in
          let front = insert_stable_front x (waiting_in (b ∷ heap) pending) (
            waiting-All x.salience (b ∷ heap) pending
              (low, All-imp _ _ (λ z h. lower b z x.salience low h) heap o.0) m) in
          rw e (rw (g, waiting_in) (sym front))
    ]

All-get-remove :
    (id : String) (pending : Dict QueuedEvent) (heap : List HeapEntry)
    → in_heap id heap ≡ false
    → All (λ a. Dict.get a.event_id (Dict.remove id pending) ≡ Dict.get a.event_id pending) heap
All-get-remove id pending [] n = tt
All-get-remove id pending (a ∷ heap) n = (
  rw get-remove (ground (arith, eq_iff id a.event_id, eq_iff a.event_id id)),
  All-get-remove id pending heap (ground arith),
)

-- `dequeue` on the specification: the front of what waits, and the rest.
waiting-remove_absent :
    (id : String) (pending : Dict QueuedEvent) (heap : List HeapEntry)
    → in_heap id heap ≡ false
    → waiting_in heap (Dict.remove id pending) ≡ waiting_in heap pending
waiting-remove_absent id pending heap n =
    waiting-congr heap (Dict.remove id pending) pending (All-get-remove id pending heap n)

abbrev pub Takes : List QueuedEvent → EventQueue × Option QueuedEvent → Type 0
Takes [] (q, taken) = (taken ≡ none) × (waiting q ≡ [])
Takes (e ∷ rest) (q, taken) = (taken ≡ some e) × (waiting q ≡ rest)

pub dequeue_from-Takes :
    (heap : List HeapEntry) (q : EventQueue)
    → Unique heap
    → Takes (waiting_in heap q.pending) (dequeue_from heap q)
unfolding dequeue_from waiting_in
dequeue_from-Takes [] q u = (refl, refl)
dequeue_from-Takes (a ∷ heap) q u = elim (Option-cases (Dict.get a.event_id q.pending)) [
  | inl n ↦ rw (n, waiting_in, dequeue_from) (dequeue_from-Takes heap q u.1)
  | inr (e, n) ↦
      rw (n, waiting_in, dequeue_from) (refl, waiting-remove_absent a.event_id q.pending heap u.0)
]
