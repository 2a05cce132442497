-- ===== src/Dispatch/Totals.antt =====
-- The dispatcher's counters against what the client got and what the buffer holds.
use glady_s.Prelude.{ℕ, ◌+◌, ◌≡◌, refl, ap, inl, inr, List, [], ◌∷◌, ◌++◌, arith}
use glady_s.Prelude.Tests.{if_both, Bool-cases}
use glady_s.Prelude.Lists.{length, length-append}
use glady_s.Outcome.{Outcome, returned}
use glady_s.Dispatch.{
  Publication, one, many, GladysClient, EventDispatcher, EmitResult, is_immediate, publish,
  send_each, publication, send, emit_batch, and_then, extend_buffer, count_filtered,
}
use glady_s.Dispatch.Batch.{SensorEvent, is_threat, selection}
use glady_s.Dispatch.Choice.{length-selection}

abbrev pub size : Publication → ℕ
size (one e) = 1
size (many es) = length es

-- The events in the calls to the client.
abbrev pub delivered : List Publication → ℕ
delivered [] = 0
delivered (p ∷ ps) = size p + delivered ps

pub delivered-append :
    (ps qs : List Publication) → delivered (ps ++ qs) ≡ delivered ps + delivered qs
delivered-append [] qs = omega arith
delivered-append (p ∷ ps) qs = omega (arith, delivered-append ps qs)

-- What the client got and what waits in the buffer.
abbrev pub handled : EventDispatcher → ℕ
handled d = delivered d.calls + length d.buffer

-- The client answers every call.
abbrev pub IsReliable : GladysClient → Type 0
IsReliable c = (calls : List Publication) (p : Publication) → c.answer calls p ≡ returned tt

-- The method returned, and took n events more: they are handled, and none is counted yet.
abbrev Handles : {A : Type 0} → ℕ → EventDispatcher → EventDispatcher × Outcome A → Type 0
Handles {A} n d (d', answer) =
    (a : A) × (answer ≡ returned a)
    × (handled d' ≡ handled d + n)
    × (d'.events_published ≡ d.events_published)
    × (d'.events_filtered ≡ d.events_filtered)

publish-Handles :
    (c : GladysClient) (p : Publication) (d : EventDispatcher)
    → IsReliable c
    → Handles {A = Unit} (size p) d (publish c p d)
unfolding publish
publish-Handles c p d h =
    (tt, h d.calls p, omega (arith, delivered-append d.calls (p ∷ [])), refl, refl)

-- `send_each` hands on the events that it does not publish.
send_each-Handles :
    (c : GladysClient) (es buffered : List SensorEvent) (d : EventDispatcher)
    → IsReliable c
    → let (d', answer) = send_each c es buffered d in
      (kept : List SensorEvent) × (answer ≡ returned kept)
      × (handled d' + length kept ≡ handled d + length buffered + length es)
      × (d'.buffer ≡ d.buffer)
      × (d'.events_published ≡ d.events_published)
      × (d'.events_filtered ≡ d.events_filtered)
unfolding send_each publish
send_each-Handles c [] buffered d h = (buffered, refl, omega arith, refl, refl, refl)
send_each-Handles c (e ∷ es) buffered d h = elim (Bool-cases (is_threat e)) [
  | inl t ↦
      rw (t, send_each, h d.calls (one e))
        (let (kept, ret, sum, buf, pub_same, fil_same) =
            send_each-Handles c es buffered (record d { calls = d.calls ++ one e ∷ [] }) h in
          (
            kept,
            ret,
            omega (arith, sum, delivered-append d.calls (one e ∷ [])),
            buf,
            pub_same,
            fil_same,
          ))
  | inr t ↦
      rw (t, send_each)
        (let (kept, ret, sum, buf, pub_same, fil_same) =
            send_each-Handles c es (buffered ++ e ∷ []) d h in
          (kept, ret, omega (arith, sum, length-append buffered (e ∷ [])), buf, pub_same, fil_same))
]

threats_sent :
    (c : GladysClient) (es : List SensorEvent) (d : EventDispatcher)
    → IsReliable c
    → Handles {A = Unit}
        (length es)
        d
        (and_then (send_each c es [] d) (λ d' kept. (extend_buffer kept d', returned tt)))
threats_sent c es d h =
    let (kept, ret, sum, buf, pub_same, fil_same) = send_each-Handles c es [] d h in
    rw ret (
      tt,
      refl,
      omega (arith, sum, length-append (send_each c es [] d).0.buffer kept, ap length buf),
      pub_same,
      fil_same,
    )

pub size-publication :
    (e : SensorEvent) (es : List SensorEvent) → size (publication e es) ≡ length (e ∷ es)
size-publication e [] = refl
size-publication e (f ∷ es) = refl

send-Handles :
    (c : GladysClient) (es : List SensorEvent) (d : EventDispatcher)
    → IsReliable c
    → Handles {A = Unit} (length es) d (send c es d)
unfolding send
send-Handles c [] d h = (tt, refl, omega arith, refl, refl)
send-Handles c (e ∷ es) d h =
    if_both (Handles {A = Unit} (length (e ∷ es)) d) (is_immediate d)
      (rw (size-publication e es) at (publish-Handles c (publication e es) d h))
      (if_both (Handles {A = Unit} (length (e ∷ es)) d) d.immediate_on_threat
        (threats_sent c (e ∷ es) d h)
        (tt, refl, omega (arith, length-append d.buffer (e ∷ es)), refl, refl))

-- With a client that answers, a batch returns how many of its events it sent and how many it
-- suppressed, all of them together, and counts both; the ones sent are with the client or in the
-- buffer.
pub emit_batch-EmitResult :
    (c : GladysClient) (now : ℕ) (events : List SensorEvent) (d : EventDispatcher)
    → IsReliable c
    → let (d', answer) = emit_batch c now events d in
      (r : EmitResult) × (answer ≡ returned r)
      × (r.sent + r.suppressed ≡ length events)
      × (d'.events_published ≡ d.events_published + r.sent)
      × (d'.events_filtered ≡ d.events_filtered + r.suppressed)
      × (handled d' ≡ handled d + r.sent)
unfolding emit_batch
emit_batch-EmitResult c now [] d h = (_, refl, refl, omega arith, omega arith, omega arith)
emit_batch-EmitResult c now (e ∷ es) d h =
    let (s, to_send, suppressed) = selection now (e ∷ es) d.strategy d.priority_fn in
    let (a, ret, sum, pub_same, fil_same) =
      send-Handles c to_send (count_filtered suppressed (record d { strategy = s })) h in
    rw ret (
      record { sent = length to_send; suppressed = suppressed },
      refl,
      length-selection now (e ∷ es) d.strategy d.priority_fn,
      omega (arith, pub_same),
      fil_same,
      omega (arith, sum),
    )
