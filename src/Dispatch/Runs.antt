-- ===== src/Dispatch/Runs.antt =====
-- Runs of the dispatcher's methods, and what a flush does with the buffer.
use mathlib.Core.List.{append_assoc, append-nil}
use glady_s.Prelude.{
  ℕ, ◌+◌, ◌≡◌, refl, sym, ap, ◌∙◌, Bool, true, false, ◌&&◌, List, [], ◌∷◌, ◌++◌, arith,
}
use glady_s.Prelude.Tests.{if_both}
use glady_s.Prelude.Lists.{length, length-append}
use glady_s.Outcome.{Outcome}
use glady_s.FlowControl
use glady_s.FlowControl.{FlowStrategy}
use glady_s.Dispatch.{
  Publication, one, many, GladysClient, EventDispatcher, is_immediate, is_scheduled, publish, emit,
  set_strategy, publication, emit_batch, flush, flush_round, publish_now, dispatch, ask,
}
use glady_s.Dispatch.Batch.{SensorEvent, is_threat}
use glady_s.Dispatch.Totals.{
  delivered-append, handled, IsReliable, emit_batch-EmitResult, size-publication,
}

pub data Action : Type 0 where
  emits : ℕ → SensorEvent → Action
  batches : ℕ → List SensorEvent → Action
  flushes : Action
  replaces : FlowStrategy → Action

unfoldable pub step : GladysClient → Action → EventDispatcher → EventDispatcher
step c (emits now e) d = (emit c now e d).0
step c (batches now es) d = (emit_batch c now es d).0
step c flushes d = flush_round c d
step c (replaces s) d = set_strategy s d

unfoldable pub run : GladysClient → List Action → EventDispatcher → EventDispatcher
unfolding step
run c [] d = d
run c (a ∷ actions) d = run c actions (step c a d)

abbrev pub offered : Action → ℕ
offered (emits now e) = 1
offered (batches now es) = length es
offered flushes = 0
offered (replaces s) = 0

abbrev pub all_offered : List Action → ℕ
all_offered [] = 0
all_offered (a ∷ actions) = offered a + all_offered actions

-- n events more are published or filtered, and the published ones are handled.
abbrev Accounts : ℕ → EventDispatcher → EventDispatcher → Type 0
Accounts n d d' =
    (d'.events_published + d'.events_filtered ≡ d.events_published + d.events_filtered + n)
    × (d'.events_published + handled d ≡ handled d' + d.events_published)

publish_now-Accounts :
    (c : GladysClient) (e : SensorEvent) (d : EventDispatcher)
    → IsReliable c
    → Accounts 1 d (publish_now c e d).0
unfolding publish
publish_now-Accounts c e d h =
    rw (h d.calls (one e)) (omega arith, omega (arith, delivered-append d.calls (one e ∷ [])))

dispatch-Accounts :
    (c : GladysClient) (e : SensorEvent) (d : EventDispatcher)
    → IsReliable c
    → Accounts 1 d (dispatch c e d).0
dispatch-Accounts c e d h =
    if_both (λ (r : EventDispatcher × Outcome Bool). Accounts 1 d r.0) (is_immediate d)
      (publish_now-Accounts c e d h) (omega arith, omega (arith, length-append d.buffer (e ∷ [])))

ask-Accounts :
    (c : GladysClient) (e : SensorEvent) (d : EventDispatcher) (answer : FlowStrategy × Bool)
    → IsReliable c
    → Accounts 1 d (ask c e d answer).0
ask-Accounts c e d (s, true) h = dispatch-Accounts c e (record d { strategy = s }) h
ask-Accounts c e d (s, false) h = (omega arith, omega arith)

emit-Accounts :
    (c : GladysClient) (now : ℕ) (e : SensorEvent) (d : EventDispatcher)
    → IsReliable c
    → Accounts 1 d (emit c now e d).0
unfolding emit
emit-Accounts c now e d h =
    if_both (λ (r : EventDispatcher × Outcome Bool). Accounts 1 d r.0)
      (is_scheduled d && d.immediate_on_threat && is_threat e) (publish_now-Accounts c e d h)
      (if_both (λ (r : EventDispatcher × Outcome Bool). Accounts 1 d r.0) (is_threat e)
        (dispatch-Accounts c e d h)
        (ask-Accounts c e d (FlowControl.should_publish now d.strategy) h))

flush-Accounts :
    (c : GladysClient) (b : List SensorEvent) (d : EventDispatcher)
    → Accounts 0 (record d { buffer = b }) (flush_round c (record d { buffer = b }))
unfolding flush_round flush publish
flush-Accounts c [] d = (omega arith, omega arith)
flush-Accounts c (e ∷ es) d = (
  omega arith,
  omega (arith, delivered-append d.calls (publication e es ∷ []), size-publication e es),
)

step-Accounts :
    (c : GladysClient) (a : Action) (d : EventDispatcher)
    → IsReliable c
    → Accounts (offered a) d (step c a d)
unfolding step set_strategy
step-Accounts c (emits now e) d h = emit-Accounts c now e d h
step-Accounts c (batches now es) d h =
    let (r, ret, total, published, filtered, handled_now) = emit_batch-EmitResult c now es d h in
    (omega (arith, total, published, filtered), omega (arith, published, handled_now))
step-Accounts c flushes d h = flush-Accounts c d.buffer d
step-Accounts c (replaces s) d h = (omega arith, omega arith)

-- With a client that answers, in every run of the methods: published and filtered events are
-- together those offered, and the events counted as published are, one for one, with the client or
-- in the buffer.
pub run-Accounts :
    (c : GladysClient) (actions : List Action) (d : EventDispatcher)
    → IsReliable c
    → d.events_published ≡ handled d
    → let d' = run c actions d in
      (d'.events_published + d'.events_filtered
        ≡ d.events_published + d.events_filtered + all_offered actions)
      × (d'.events_published ≡ handled d')
unfolding run
run-Accounts c [] d h e = (omega arith, e)
run-Accounts c (a ∷ actions) d h e =
    let (total, counted) = step-Accounts c a d h in
    let (all, balanced) = run-Accounts c actions (step c a d) h (omega (arith, total, counted)) in
    (omega (arith, all, total), balanced)

-- The events in the calls to the client.
abbrev pub all_events : List Publication → List SensorEvent
all_events [] = []
all_events (one e ∷ ps) = e ∷ all_events ps
all_events (many es ∷ ps) = es ++ all_events ps

all_events-append :
    (ps qs : List Publication) → all_events (ps ++ qs) ≡ all_events ps ++ all_events qs
all_events-append [] qs = refl
all_events-append (one e ∷ ps) qs = ap (◌∷◌ e) (all_events-append ps qs)
all_events-append (many es ∷ ps) qs =
    rw (all_events-append ps qs) (sym (append_assoc es (all_events ps) (all_events qs)))

all_events-publication :
    (e : SensorEvent) (es : List SensorEvent) → all_events (publication e es ∷ []) ≡ e ∷ es
all_events-publication e [] = refl
all_events-publication e (f ∷ es) = append-nil (e ∷ f ∷ es)

flush_of :
    (c : GladysClient) (b : List SensorEvent) (d : EventDispatcher)
    → let (d', answer) = flush c (record d { buffer = b }) in
      (d'.buffer ≡ [])
      × (all_events d'.calls ≡ all_events d.calls ++ b)
      × (d'.events_published ≡ d.events_published)
unfolding flush publish
flush_of c [] d = (refl, sym (append-nil (all_events d.calls)), refl)
flush_of c (e ∷ es) d = (
  refl,
  all_events-append d.calls (publication e es ∷ [])
      ∙ ap (◌++◌ (all_events d.calls)) (all_events-publication e es),
  refl,
)

-- Whatever the client does, also when it raises, a flush leaves nothing in the buffer: its events
-- went to the client, in order and behind those of earlier calls. The count stays.
pub flush-buffer :
    (c : GladysClient) (d : EventDispatcher)
    → let (d', answer) = flush c d in
      (d'.buffer ≡ [])
      × (all_events d'.calls ≡ all_events d.calls ++ d.buffer)
      × (d'.events_published ≡ d.events_published)
flush-buffer c d = flush_of c d.buffer d
