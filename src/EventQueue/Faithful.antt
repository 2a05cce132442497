-- ===== src/EventQueue/Faithful.antt =====
-- The heap and the pending events agree, whatever happens, as long as no id comes twice.
use glady_s.Prelude.{ℕ, ◌+◌, ◌<◌, String, ◌≡◌, inl, inr, false, List, [], ◌∷◌, eq_iff, arith}
use glady_s.Prelude.Tests.{Option-cases}
use glady_s.Prelude.Lists.{All, All-imp}
use glady_s.Prelude.Dict
use glady_s.Prelude.Dict.{Dict, get-put, get-remove, has-put, has-remove, get_of_has}
use glady_s.Event.{Event, Score}
use glady_s.EventQueue.{
  EventQueue, QueuedEvent, HeapEntry, Context, empty, queued_event, enqueue, dequeue_from, dequeue,
}
use glady_s.EventQueue.Process.{Callbacks, process_event, process_event_cases}
use glady_s.EventQueue.Timeout.{expire}
use glady_s.EventQueue.Heap.{
  in_heap, in_heap-heappush, All-heappush, heappush-Sorted, heappush-Unique,
}
use glady_s.EventQueue.Priority.{Matches, IsFaithful}

pub empty-IsFaithful : IsFaithful empty
empty-IsFaithful = record {
  sorted = tt;
  newest = tt;
  unique = tt;
  matches = tt;
  covered = λ id h. absurd (unfold Dict.has in ground arith);
}

pub put-Matches :
    (id : String) (v : QueuedEvent) (pending : Dict QueuedEvent) (heap : List HeapEntry)
    → in_heap id heap ≡ false
    → All (Matches pending) heap
    → All (Matches (Dict.put id v pending)) heap
put-Matches id v pending [] n m = tt
put-Matches id v pending (a ∷ heap) n m = (
  λ e g.
      m.0 e (
        ground
          (arith, get-put id a.event_id v pending, eq_iff id a.event_id, eq_iff a.event_id id)),
  put-Matches id v pending heap (ground arith) m.1,
)

remove-Matches :
    (id : String) (pending : Dict QueuedEvent) (heap : List HeapEntry)
    → All (Matches pending) heap
    → All (Matches (Dict.remove id pending)) heap
remove-Matches id pending =
    All-imp _ _ λ a m e g. m e (ground (arith, get-remove id a.event_id pending))

-- An event with an id that is new to the heap keeps the queue faithful.
pub enqueue-IsFaithful :
    (event : Event) (salience : Score) (c : Context) (now : ℕ) (q : EventQueue)
    → in_heap event.id q.heap ≡ false
    → IsFaithful q
    → IsFaithful (enqueue event salience c now q)
unfolding enqueue
enqueue-IsFaithful event salience c now q new f = record {
  sorted = heappush-Sorted _ q.heap f.newest f.sorted;
  newest =
      All-heappush (λ a. a.counter < q.counter + 1) _ q.heap (omega arith)
        (All-imp _ _ (λ a h. omega arith) q.heap f.newest);
  unique = heappush-Unique _ q.heap new f.unique;
  matches =
      All-heappush (Matches (Dict.put event.id queued q.pending)) _ q.heap
        (λ e g.
          ground (arith, get-put event.id event.id queued q.pending, eq_iff event.id event.id))
        (put-Matches event.id queued q.pending q.heap new f.matches);
  covered = λ id h. ground (
    arith,
    in_heap-heappush id (record { salience = salience; counter = q.counter; event_id = event.id })
        q.heap,
    has-put event.id id queued q.pending,
    f.covered id,
  );
}
  where
    queued : QueuedEvent
    queued = queued_event event salience c now

-- `dequeue` drops entries and takes an event; what is left agrees.
dequeue_from-IsFaithful :
    (heap : List HeapEntry) (q : EventQueue)
    → IsFaithful (record q { heap = heap })
    → IsFaithful (dequeue_from heap q).0
unfolding dequeue_from
dequeue_from-IsFaithful [] q f = f
dequeue_from-IsFaithful (a ∷ heap) q f = elim (Option-cases (Dict.get a.event_id q.pending)) [
  | inl n ↦
      rw (n, dequeue_from)
        (dequeue_from-IsFaithful heap q (record {
          sorted = f.sorted.1;
          newest = f.newest.1;
          unique = f.unique.1;
          matches = f.matches.1;
          covered = λ id h.
              let (x, g) = get_of_has id q.pending h in
              ground (arith, f.covered id h, eq_iff a.event_id id);
        }))
  | inr (x, n) ↦
      rw (n, dequeue_from)
        (record {
          sorted = f.sorted.1;
          newest = f.newest.1;
          unique = f.unique.1;
          matches = remove-Matches a.event_id q.pending heap f.matches.1;
          covered = λ id h.
              ground
                (arith, f.covered id, has-remove a.event_id id q.pending, eq_iff a.event_id id);
        })
]

pub dequeue-IsFaithful : (q : EventQueue) → IsFaithful q → IsFaithful (dequeue q).0
unfolding dequeue
dequeue-IsFaithful q f = dequeue_from-IsFaithful q.heap q f

pub expire-IsFaithful :
    (cb : Callbacks) (now : ℕ) (id : String) (q : EventQueue)
    → IsFaithful q
    → IsFaithful (expire cb now id q).0
unfolding expire
expire-IsFaithful cb now id q f = elim (Option-cases (Dict.get id q.pending)) [
  | inl n ↦ rw (n, expire) f
  | inr (x, n) ↦
      rw (n, expire)
        (record {
          sorted = f.sorted;
          newest = f.newest;
          unique = f.unique;
          matches = remove-Matches id q.pending q.heap f.matches;
          covered = λ j h. f.covered j (ground (arith, has-remove id j q.pending));
        })
]

pub process_event-IsFaithful :
    (cb : Callbacks) (now : ℕ) (e : QueuedEvent) (q : EventQueue)
    → IsFaithful q
    → IsFaithful (process_event cb now e q).0
process_event-IsFaithful cb now e q f = process_event_cases IsFaithful cb now e q f (record {
  sorted = f.sorted;
  newest = f.newest;
  unique = f.unique;
  matches = f.matches;
  covered = f.covered;
})
