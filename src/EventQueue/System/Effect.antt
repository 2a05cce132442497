-- ===== src/EventQueue/System/Effect.antt =====
-- What `dequeue` does to the rest of the queue.
use glady_s.Prelude.{String, ◌≡◌, refl, inl, inr, true, Option, none, some, List, [], ◌∷◌, arith}
use glady_s.Prelude.Tests.{Option-cases}
use glady_s.Prelude.Lists.{All}
use glady_s.Prelude.Dict
use glady_s.Prelude.Dict.{Dict, has-put, has-remove, has-get}
use glady_s.EventQueue.{EventQueue, QueuedEvent, HeapEntry, dequeue_from}
use glady_s.EventQueue.Heap.{in_heap}
use glady_s.EventQueue.Priority.{Matches}

-- What `dequeue` does to the pending events, by what it returns.
abbrev pub Effect : List HeapEntry → EventQueue → EventQueue × Option QueuedEvent → Type 0
Effect heap q (q', none) =
    (q'.pending ≡ q.pending)
    × ((id : String) → in_heap id q'.heap ≡ true → in_heap id heap ≡ true)
    × (q'.total_queued ≡ q.total_queued)
    × (q'.total_timed_out ≡ q.total_timed_out)
Effect heap q (q', some e) =
    (Dict.has e.event_id q.pending ≡ true)
    × (q'.pending ≡ Dict.remove e.event_id q.pending)
    × ((id : String) → in_heap id q'.heap ≡ true → in_heap id heap ≡ true)
    × (q'.total_queued ≡ q.total_queued)
    × (q'.total_timed_out ≡ q.total_timed_out)

Effect-cons :
    (a : HeapEntry) (heap : List HeapEntry) (q : EventQueue) (r : EventQueue × Option QueuedEvent)
    → Effect heap q r
    → Effect (a ∷ heap) q r
Effect-cons a heap q (q', none) e = (e.0, λ id h. ground (arith, e.1 id), e.2, e.3)
Effect-cons a heap q (q', some x) e = (e.0, e.1, λ id h. ground (arith, e.2 id), e.3, e.4)

pub dequeue_from-Effect :
    (heap : List HeapEntry) (q : EventQueue)
    → All (Matches q.pending) heap
    → Effect heap q (dequeue_from heap q)
unfolding dequeue_from
dequeue_from-Effect [] q m = (refl, λ id h. h, refl, refl)
dequeue_from-Effect (a ∷ heap) q m = elim (Option-cases (Dict.get a.event_id q.pending)) [
  | inl n ↦
      rw (n, dequeue_from)
        (Effect-cons a heap q (dequeue_from heap q) (dequeue_from-Effect heap q m.1))
  | inr (x, n) ↦
      let (_, same) = m.0 x n in
      rw (n, dequeue_from)
        (
          rw (← same) (has-get a.event_id q.pending x n),
          rw (← same) refl,
          λ id h. ground arith,
          refl,
          refl,
        )
]
