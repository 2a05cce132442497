-- ===== src/EventQueue/Stale.antt =====
-- An id that comes again while an entry of its first visit is still on the heap.
use glady_s.Prelude.{◌<◌, ℕ, ◌≡◌, ◌≢◌, some, eq_iff, arith}
use glady_s.Prelude.Dict
use glady_s.Prelude.Dict.{Dict, get-put, get-remove}
use glady_s.Event.{Event, Score}
use glady_s.EventQueue.{Context, queued_event, enqueue, dequeue, dequeue_from, heappush, empty}
use glady_s.EventQueue.Process.{Callbacks}
use glady_s.EventQueue.Timeout.{expire}

-- An event `a` is queued with salience `hi` and times out. When `b` and then `a` again are queued,
-- with `lo < mid < hi`, `dequeue` takes `a` although `b` is more salient: the entry of the first
-- visit is still on the heap.
pub dequeue-stale :
    (a b : Event) (lo mid hi : Score) (c d e : Context) (cb : Callbacks) (t0 t1 t2 t3 : ℕ)
    → a.id ≢ b.id
    → lo < mid
    → mid < hi
    → (dequeue
        (enqueue a lo e t3 (enqueue b mid d t2 (expire cb t1 a.id (enqueue a hi c t0 empty)).0))).1
      ≡ some (queued_event a lo e t3)
unfolding enqueue dequeue dequeue_from heappush expire Dict.get Dict.put Dict.remove
dequeue-stale a b lo mid hi c d e cb t0 t1 t2 t3 ne h k =
    ground (arith, eq_iff a.id b.id, eq_iff b.id a.id, eq_iff a.id a.id, eq_iff b.id b.id)
