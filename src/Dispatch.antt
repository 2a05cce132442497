-- ===== src/Dispatch.antt =====
-- EventDispatcher of events.py in the Python SDK: when a sensor's events are sent, kept for the next
-- flush, or filtered. The client is a parameter; the dispatcher keeps a list of the calls to it.
pub mod Batch
pub mod Indices
pub mod Choice
pub mod Order
pub mod Priority
pub mod Totals
pub mod Runs
mod Examples
use glady_s.Prelude.{
  ℕ, suc, ◌+◌, String, Bool, true, false, not, ◌&&◌, Option, none, some, List, [], ◌∷◌, ◌++◌,
}
use glady_s.Prelude.Tests.{nat_eq, if◌then◌else◌}
use glady_s.Prelude.Lists.{length, keep}
use glady_s.Outcome.{Outcome, returned, raised}
use glady_s.FlowControl
use glady_s.FlowControl.{FlowStrategy}
use Batch.{SensorEvent, is_threat, selection}

-- A call of publish_event or of publish_events.
pub data Publication : Type 0 where
  one : SensorEvent → Publication
  many : List SensorEvent → Publication

-- The answer to a call may depend on the calls before it.
pub record GladysClient : Type 0 where
  pub answer : List Publication → Publication → Outcome {0} Unit

pub record EventDispatcher : Type 0 where
  pub flush_interval_ms : ℕ
  pub immediate_on_threat : Bool
  pub strategy : FlowStrategy
  pub priority_fn : Option (SensorEvent → ℕ)
  pub buffer : List SensorEvent
  pub events_filtered : ℕ
  pub events_published : ℕ
  -- the calls to the client, the last at the end
  pub calls : List Publication

pub record EmitResult : Type 0 where
  pub sent : ℕ
  pub suppressed : ℕ

abbrev pub is_immediate : EventDispatcher → Bool
is_immediate d = nat_eq d.flush_interval_ms 0

abbrev pub is_scheduled : EventDispatcher → Bool
is_scheduled d = not (is_immediate d)

unfoldable pub buffered_count : EventDispatcher → ℕ
buffered_count d = length d.buffer

-- An exception ends the method; the state stays as it is then.
abbrev pub and_then :
    {A B : Type 0}
    → EventDispatcher × Outcome A
    → (EventDispatcher → A → EventDispatcher × Outcome B)
    → EventDispatcher × Outcome B
and_then (d, raised) k = (d, raised)
and_then (d, returned a) k = k d a

unfoldable pub publish :
    GladysClient → Publication → EventDispatcher → EventDispatcher × Outcome {0} Unit
publish c p d = (record d { calls = d.calls ++ p ∷ [] }, c.answer d.calls p)

abbrev pub count_published : ℕ → EventDispatcher → EventDispatcher
count_published n d = record d { events_published = d.events_published + n }

abbrev pub count_filtered : ℕ → EventDispatcher → EventDispatcher
count_filtered n d = record d { events_filtered = d.events_filtered + n }

abbrev pub publish_now :
    GladysClient → SensorEvent → EventDispatcher → EventDispatcher × Outcome Bool
unfolding publish
publish_now c e d = and_then (publish c (one e) d) (λ d' _. (count_published 1 d', returned true))

abbrev pub dispatch : GladysClient → SensorEvent → EventDispatcher → EventDispatcher × Outcome Bool
dispatch c e d =
    if is_immediate d
    then publish_now c e d
    else (count_published 1 (record d { buffer = d.buffer ++ e ∷ [] }), returned true)

abbrev pub ask :
    GladysClient
    → SensorEvent
    → EventDispatcher
    → FlowStrategy × Bool
    → EventDispatcher × Outcome Bool
ask c e d (s, true) = dispatch c e (record d { strategy = s })
ask c e d (s, false) = (count_filtered 1 (record d { strategy = s }), returned false)

unfoldable pub emit :
    GladysClient → ℕ → SensorEvent → EventDispatcher → EventDispatcher × Outcome Bool
emit c now e d =
    if is_scheduled d && d.immediate_on_threat && is_threat e
    then publish_now c e d
    else if is_threat e
    then dispatch c e d
    else ask c e d (FlowControl.should_publish now d.strategy)

unfoldable pub set_strategy : FlowStrategy → EventDispatcher → EventDispatcher
set_strategy s d = record d { strategy = s }

-- Threats are published at once, one by one; the others are kept for the buffer.
unfoldable pub send_each :
    GladysClient
    → List SensorEvent
    → List SensorEvent
    → EventDispatcher
    → EventDispatcher × Outcome (List SensorEvent)
send_each c [] buffered d = (d, returned buffered)
send_each c (e ∷ es) buffered d = elim (is_threat e) [
  | true ↦ and_then (publish c (one e) d) (λ d' _. send_each c es buffered d')
  | false ↦ send_each c es (buffered ++ e ∷ []) d
]

abbrev pub publication : SensorEvent → List SensorEvent → Publication
publication e [] = one e
publication e (f ∷ es) = many (e ∷ f ∷ es)

abbrev pub extend_buffer : List SensorEvent → EventDispatcher → EventDispatcher
extend_buffer es d = record d { buffer = d.buffer ++ es }

unfoldable pub send :
    GladysClient → List SensorEvent → EventDispatcher → EventDispatcher × Outcome {0} Unit
send c [] d = (d, returned tt)
send c (e ∷ es) d =
    if is_immediate d
    then publish c (publication e es) d
    else if d.immediate_on_threat
    then and_then (send_each c (e ∷ es) [] d) (λ d' kept. (extend_buffer kept d', returned tt))
    else (extend_buffer (e ∷ es) d, returned tt)

abbrev pub send_counted :
    GladysClient → EventDispatcher → List SensorEvent → ℕ → EventDispatcher × Outcome EmitResult
send_counted c d to_send suppressed = and_then (send c to_send d) (λ d' _. (
  count_published (length to_send) d',
  returned (record { sent = length to_send; suppressed = suppressed }),
))

unfoldable pub emit_batch :
    GladysClient → ℕ → List SensorEvent → EventDispatcher → EventDispatcher × Outcome EmitResult
emit_batch c now [] d = (d, returned (record { sent = 0; suppressed = 0 }))
emit_batch c now (e ∷ es) d =
    let (s, to_send, suppressed) = selection now (e ∷ es) d.strategy d.priority_fn in
    send_counted c (count_filtered suppressed (record d { strategy = s })) to_send suppressed

-- The buffer is cleared before the call.
unfoldable pub flush : GladysClient → EventDispatcher → EventDispatcher × Outcome {0} Unit
flush c d = elim d.buffer [
  | [] ↦ (d, returned tt)
  | e ∷ es ↦ publish c (publication e es) (record d { buffer = [] })
]

-- One round of `_flush_loop` logs an exception and goes on.
unfoldable pub flush_round : GladysClient → EventDispatcher → EventDispatcher
unfolding flush
flush_round c d = (flush c d).0
