-- ===== src/EventQueue/System/Accounts.antt =====
-- Every event ends in one place: still pending, taken by the worker, or timed out.
use glady_s.EventQueue.System.Effect.{Effect, dequeue_from-Effect}
use glady_s.EventQueue.Timeout.{expire_state}
use glady_s.EventQueue.Process.{process_event_cases}
use glady_s.EventQueue.Faithful.{
  expire-IsFaithful, empty-IsFaithful, enqueue-IsFaithful, dequeue-IsFaithful,
}
use glady_s.Prelude.{
  eq_iff, ℕ, ◌+◌, ◌≤◌, String, ◌≡◌, refl, inl, inr, Bool, true, Option, none, some, List, [], ◌∷◌,
  ◌==◌, arith,
}
use glady_s.Prelude.Tests.{Bool-cases, if◌then◌else◌}
use glady_s.Prelude.Lists.{length}
use glady_s.Prelude.Dict
use glady_s.Prelude.Dict.{Dict, has-put, has-remove, has-get}
use glady_s.EventQueue.{
  false, enqueue, queued_event, Context, dequeue, Score, Event, EventQueue, QueuedEvent, HeapEntry,
}
use glady_s.EventQueue.Heap.{in_heap-heappush, in_heap}
use glady_s.EventQueue.Priority.{IsFaithful}
use glady_s.EventQueue.System.{
  finishes, takes, scans, expires, arrives, run, init, step, Move, expire_one, begin_round,
  finish_if_busy, Callbacks, after_take, take_if_idle, System,
}

abbrev pub count : String → List String → ℕ
count id [] = 0
count id (j ∷ ids) = if j == id then count id ids + 1 else count id ids

abbrev pub one_if : Bool → ℕ
one_if b = if b then 1 else 0

pub record IsAccounted (s : System) : Type 0 where
  pub faithful : IsFaithful s.queue
  pub known : (id : String) → in_heap id s.queue.heap ≡ true → 1 ≤ count id s.arrived
  pub once : (id : String) → count id s.arrived ≤ 1
  pub places :
      (id : String)
      → count id s.arrived
        ≡ one_if (Dict.has id s.queue.pending) + count id s.taken + count id s.expired
  pub queued_total : s.queue.total_queued ≡ length s.arrived
  pub timed_out_total : s.queue.total_timed_out ≡ length s.expired

arrive-IsAccounted :
    (event : Event) (salience : Score) (c : Context) (now : ℕ) (s : System)
    → count event.id s.arrived ≡ 0
    → IsAccounted s
    → IsAccounted
        (record s { queue = enqueue event salience c now s.queue; arrived = event.id ∷ s.arrived })
arrive-IsAccounted event salience c now s new i = record {
  faithful = enqueue-IsFaithful event salience c now s.queue unknown i.faithful;
  known =
      λ id h. unfold enqueue in ground (arith, i.known id, in_heap-heappush id entry s.queue.heap);
  once = λ id. ground (arith, i.once id, eq_iff event.id id);
  places = λ id.
      unfold enqueue in
      ground (
        arith,
        i.places id,
        eq_iff event.id id,
        has-put event.id id (queued_event event salience c now) s.queue.pending,
      );
  queued_total = unfold enqueue in omega (arith, i.queued_total);
  timed_out_total = unfold enqueue in i.timed_out_total;
}
  where
    entry : HeapEntry
    entry = record { salience = salience; counter = s.queue.counter; event_id = event.id }

    unknown : in_heap event.id s.queue.heap ≡ false
    unknown = elim (Bool-cases (in_heap event.id s.queue.heap)) [
      | inl there ↦ absurd (omega (arith, i.known event.id there))
      | inr n ↦ n
    ]

taken-IsAccounted :
    (s : System) (r : EventQueue × Option QueuedEvent)
    → Effect s.queue.heap s.queue r
    → IsFaithful r.0
    → IsAccounted s
    → IsAccounted (after_take s r)
taken-IsAccounted s (q, none) e f i = record {
  faithful = record {
    sorted = f.sorted;
    newest = f.newest;
    unique = f.unique;
    matches = f.matches;
    covered = f.covered;
  };
  known = λ id h. i.known id (e.1 id h);
  once = i.once;
  places = λ id. rw e.0 (i.places id);
  queued_total = ground (arith, i.queued_total, e.2);
  timed_out_total = ground (arith, i.timed_out_total, e.3);
}
taken-IsAccounted s (q, some x) e f i = record {
  faithful = f;
  known = λ id h. i.known id (e.2 id h);
  once = i.once;
  places = λ id. rw e.1 (
      ground
        (arith, e.0, i.places id, eq_iff x.event_id id, has-remove x.event_id id s.queue.pending));
  queued_total = ground (arith, i.queued_total, e.3);
  timed_out_total = ground (arith, i.timed_out_total, e.4);
}

take-IsAccounted :
    (s : System) (working : Option QueuedEvent)
    → IsAccounted s
    → IsAccounted (take_if_idle s working)
take-IsAccounted s (some e) i = i
take-IsAccounted s none i =
    taken-IsAccounted s (dequeue s.queue)
      (unfold dequeue in dequeue_from-Effect s.queue.heap s.queue i.faithful.matches)
      (dequeue-IsFaithful s.queue i.faithful) i

finish-IsAccounted :
    (cb : Callbacks) (now : ℕ) (s : System) (working : Option QueuedEvent)
    → IsAccounted s
    → IsAccounted (finish_if_busy cb now s working)
finish-IsAccounted cb now s none i = i
finish-IsAccounted cb now s (some e) i =
    process_event_cases (λ q. IsAccounted (record s { queue = q; working = none })) cb now e s.queue
      (record {
        faithful = i.faithful;
        known = i.known;
        once = i.once;
        places = i.places;
        queued_total = i.queued_total;
        timed_out_total = i.timed_out_total;
      })
      (record {
        faithful = record {
          sorted = i.faithful.sorted;
          newest = i.faithful.newest;
          unique = i.faithful.unique;
          matches = i.faithful.matches;
          covered = i.faithful.covered;
        };
        known = i.known;
        once = i.once;
        places = i.places;
        queued_total = i.queued_total;
        timed_out_total = i.timed_out_total;
      })

scan-IsAccounted :
    (timeout now : ℕ) (s : System) (ids : List String)
    → IsAccounted s
    → IsAccounted (begin_round timeout now s ids)
scan-IsAccounted timeout now s [] i = record {
  faithful = i.faithful;
  known = i.known;
  once = i.once;
  places = i.places;
  queued_total = i.queued_total;
  timed_out_total = i.timed_out_total;
}
scan-IsAccounted timeout now s (id ∷ ids) i = i

expire-IsAccounted :
    (cb : Callbacks) (now : ℕ) (s : System) (ids : List String)
    → IsAccounted s
    → IsAccounted (expire_one cb now s ids)
expire-IsAccounted cb now s [] i = i
expire-IsAccounted cb now s (id ∷ ids) i = elim (Bool-cases (Dict.has id s.queue.pending)) [
  | inl there ↦
      let f =
        rw (expire_state cb now id s.queue, there) at
          (expire-IsFaithful cb now id s.queue i.faithful) in
      rw (expire_state cb now id s.queue, there)
        (record {
          faithful = f;
          known = i.known;
          once = i.once;
          places = λ j. ground (arith, i.places j, eq_iff id j, has-remove id j s.queue.pending);
          queued_total = i.queued_total;
          timed_out_total = omega (arith, i.timed_out_total);
        })
  | inr gone ↦
      rw (expire_state cb now id s.queue, gone)
        (record {
          faithful = i.faithful;
          known = i.known;
          once = i.once;
          places = i.places;
          queued_total = i.queued_total;
          timed_out_total = i.timed_out_total;
        })
]

-- An event that arrives has an id that never arrived before.
abbrev pub Fresh : System → Move → Type 0
Fresh s (arrives event salience context now) = count event.id s.arrived ≡ 0
Fresh s m = Unit {0}

abbrev pub AllFresh : Callbacks → ℕ → System → List Move → Type 0
AllFresh cb timeout s [] = Unit {0}
AllFresh cb timeout s (m ∷ moves) = Fresh s m × AllFresh cb timeout (step cb timeout s m) moves

step-IsAccounted :
    (cb : Callbacks) (timeout : ℕ) (s : System) (m : Move)
    → Fresh s m
    → IsAccounted s
    → IsAccounted (step cb timeout s m)
unfolding step
step-IsAccounted cb timeout s (arrives event salience c now) new i =
    arrive-IsAccounted event salience c now s new i
step-IsAccounted cb timeout s takes new i = take-IsAccounted s s.working i
step-IsAccounted cb timeout s (finishes now) new i = finish-IsAccounted cb now s s.working i
step-IsAccounted cb timeout s (scans now) new i = scan-IsAccounted timeout now s s.expiring i
step-IsAccounted cb timeout s (expires now) new i = expire-IsAccounted cb now s s.expiring i

run-IsAccounted :
    (cb : Callbacks) (timeout : ℕ) (s : System) (moves : List Move)
    → AllFresh cb timeout s moves
    → IsAccounted s
    → IsAccounted (run cb timeout s moves)
unfolding run
run-IsAccounted cb timeout s [] new i = i
run-IsAccounted cb timeout s (m ∷ moves) new i =
    run-IsAccounted cb timeout (step cb timeout s m) moves new.1
      (step-IsAccounted cb timeout s m new.0 i)

init-IsAccounted : IsAccounted init
init-IsAccounted = record {
  faithful = empty-IsFaithful;
  known = λ id h. absurd (ground arith);
  once = λ id. omega arith;
  places = λ id. unfold Dict.has in refl;
  queued_total = refl;
  timed_out_total = refl;
}

-- From the empty queue, in every interleaving of arrivals, worker and scanner in which no id
-- arrives twice: each id that arrived is in exactly one place (pending, taken by the worker, or
-- timed out) and each other id is in none; the heap and the pending events agree; and the two
-- totals count the arrivals and the timeouts.
pub run-init-IsAccounted :
    (cb : Callbacks) (timeout : ℕ) (moves : List Move)
    → AllFresh cb timeout init moves
    → IsAccounted (run cb timeout init moves)
run-init-IsAccounted cb timeout moves new =
    run-IsAccounted cb timeout init moves new init-IsAccounted
