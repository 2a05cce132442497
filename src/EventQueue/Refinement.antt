-- ===== src/EventQueue/Refinement.antt =====
-- The queue refines a stable priority list.
use glady_s.Prelude.{
  ℕ, String, ◌≡◌, ◌↔◌, refl, ap, inl, inr, false, not, none, some, List, [], ◌∷◌, ◌==◌, eq_iff,
  arith, ◌∙◌,
}
use glady_s.Prelude.Tests.{Bool-cases, Option-cases}
use glady_s.Prelude.Lists.{All, keep}
use glady_s.Prelude.Dict
use glady_s.Prelude.Dict.{
  get_of_not-has, Dict, get-put, get-remove, get_of_has, has-get, remove_absent, not-has_of_none,
}
use glady_s.Event.{Event, Score}
use glady_s.EventQueue.{
  dequeue_from, EventQueue, QueuedEvent, HeapEntry, Context, queued_event, enqueue, dequeue,
}
use glady_s.EventQueue.Process.{Callbacks}
use glady_s.EventQueue.Timeout.{expire}
use glady_s.EventQueue.Heap.{in_heap, entry_of_in_heap}
use glady_s.EventQueue.Priority.{
  waiting_in, waiting, insert_stable, Matches, IsFaithful, waiting-congr, All-get-put,
  waiting-heappush, Takes, dequeue_from-Takes,
}
use glady_s.EventQueue.Faithful.{put-Matches}

-- In a queue whose heap and pending events agree, an event with an id that is new to the heap is
-- put behind all events that are at least as salient and before the rest.
pub waiting-enqueue :
    (event : Event) (salience : Score) (c : Context) (now : ℕ) (q : EventQueue)
    → in_heap event.id q.heap ≡ false
    → IsFaithful q
    → waiting (enqueue event salience c now q)
      ≡ insert_stable (queued_event event salience c now) (waiting q)
unfolding enqueue
waiting-enqueue event salience c now q new f =
    waiting-heappush _ queued q.heap pending here refl f.newest f.sorted
      (put-Matches event.id queued q.pending q.heap new f.matches)
    ∙ ap (insert_stable queued)
        (waiting-congr q.heap pending q.pending (All-get-put event.id queued q.pending q.heap new))
  where
    queued : QueuedEvent
    queued = queued_event event salience c now

    pending : Dict QueuedEvent
    pending = Dict.put event.id queued q.pending

    here : Dict.get event.id pending ≡ some queued
    here = rw get-put (ground (arith, eq_iff event.id event.id))

-- In a queue whose heap and pending events agree, `dequeue` returns the first event that waits and
-- leaves the others in their order, and returns nothing only when none waits.
pub dequeue-Takes : (q : EventQueue) → IsFaithful q → Takes (waiting q) (dequeue q)
unfolding dequeue
dequeue-Takes q f = dequeue_from-Takes q.heap q f.unique

keep-waiting :
    (id : String) (heap : List HeapEntry) (pending : Dict QueuedEvent)
    → All (Matches pending) heap
    → waiting_in heap (Dict.remove id pending)
      ≡ keep (λ e. not (e.event_id == id)) (waiting_in heap pending)
unfolding waiting_in
keep-waiting id [] pending m = refl
keep-waiting id (a ∷ heap) pending m = elim (Option-cases (Dict.get a.event_id pending)) [
  | inl n ↦ ground (arith, n, get-remove id a.event_id pending, keep-waiting id heap pending m.1)
  | inr (e, n) ↦
      let (_, same) = m.0 e n in
      ground (
        arith,
        get-remove id a.event_id pending,
        eq_iff id a.event_id,
        eq_iff e.event_id id,
        keep-waiting id heap pending m.1,
      )
]

-- In a queue whose heap and pending events agree, a timeout takes out the event with its id and
-- leaves the others in their order.
pub waiting-expire :
    (cb : Callbacks) (now : ℕ) (id : String) (q : EventQueue)
    → IsFaithful q
    → waiting (expire cb now id q).0 ≡ keep (λ e. not (e.event_id == id)) (waiting q)
unfolding expire
waiting-expire cb now id q f = elim (Option-cases (Dict.get id q.pending)) [
  | inl n ↦
      let same = remove_absent id q.pending (not-has_of_none id q.pending n) in
      rw (n, expire) (rw same at (keep-waiting id q.heap q.pending f.matches))
  | inr (x, n) ↦ rw (n, expire) (keep-waiting id q.heap q.pending f.matches)
]

dequeue_from-none :
    (heap : List HeapEntry) (q : EventQueue)
    → All (λ a. Dict.get a.event_id q.pending ≡ none) heap
    → (dequeue_from heap q).1 ≡ none
unfolding dequeue_from
dequeue_from-none [] q h = refl
dequeue_from-none (a ∷ heap) q h = rw (h.0, dequeue_from) (dequeue_from-none heap q h.1)

none-dequeue_from :
    (heap : List HeapEntry) (q : EventQueue)
    → (dequeue_from heap q).1 ≡ none
    → All (λ a. Dict.get a.event_id q.pending ≡ none) heap
unfolding dequeue_from
none-dequeue_from [] q h = tt
none-dequeue_from (a ∷ heap) q h = elim (Option-cases (Dict.get a.event_id q.pending)) [
  | inl n ↦ (n, none-dequeue_from heap q (rw (n, dequeue_from) at h))
  | inr (x, n) ↦ absurd (ground (arith, rw (n, dequeue_from) at h))
]

-- In a queue whose heap and pending events agree, `dequeue` returns nothing exactly when no event
-- is pending.
pub dequeue-eq-none_iff :
    (q : EventQueue)
    → IsFaithful q
    → ((dequeue q).1 ≡ none) ↔ ((id : String) → Dict.has id q.pending ≡ false)
unfolding dequeue
dequeue-eq-none_iff q f = (forth, λ h. dequeue_from-none q.heap q (gone h q.heap))
  where
    gone :
        ((id : String) → Dict.has id q.pending ≡ false)
        → (heap : List HeapEntry) → All (λ a. Dict.get a.event_id q.pending ≡ none) heap
    gone h [] = tt
    gone h (a ∷ heap) = (get_of_not-has a.event_id q.pending (h a.event_id), gone h heap)

    forth : (dequeue_from q.heap q).1 ≡ none → (id : String) → Dict.has id q.pending ≡ false
    forth h id = elim (Bool-cases (Dict.has id q.pending)) [
      | inl there ↦
          let (a, e, n) =
            entry_of_in_heap (λ a. Dict.get a.event_id q.pending ≡ none) id q.heap
              (none-dequeue_from q.heap q h) (f.covered id there) in
          not-has_of_none id q.pending (rw e at n)
      | inr gone' ↦ gone'
    ]
