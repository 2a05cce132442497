-- ===== src/EventQueue/Storing.antt =====
-- What one run of `_process_event` calls.
use glady_s.Prelude.{
  ℕ, ◌+◌, Bool, ◌&&◌, true, false, ◌≡◌, refl, List, [], ◌∷◌, ◌++◌, Option, none, some, inl, inr,
  arith,
}
use glady_s.Prelude.Tests.{if◌then◌else◌, Option-cases}
use glady_s.EventQueue.{EventQueue, QueuedEvent}
use glady_s.EventQueue.Process.{
  Callbacks, Outcome, returned, raised, Action, processes, broadcasts, stores, Response,
  call_process, process_actions, broadcast_part, store_part, after_answer, process_event,
  Outcome-cases,
}

-- How often the store callback is called.
abbrev pub stores_in : List Action → ℕ
stores_in [] = 0
stores_in (stores e r ∷ actions) = stores_in actions + 1
stores_in (_ ∷ actions) = stores_in actions

abbrev pub is_returned {ℓ} : {A : Type ℓ} → Outcome A → Bool
is_returned raised = false
is_returned (returned a) = true

abbrev pub has_store : Callbacks → Bool
has_store cb = elim cb.store [ none ↦ false | some f ↦ true ]

-- The broadcast of the answer, if there is an answer and a callback, comes back.
abbrev pub broadcast_returns : Callbacks → QueuedEvent → ℕ → Outcome (Option Response) → Bool
broadcast_returns cb e now raised = false
broadcast_returns cb e now (returned response) = is_returned (broadcast_part cb e now response).1

stores_in-append : (xs ys : List Action) → stores_in (xs ++ ys) ≡ stores_in xs + stores_in ys
stores_in-append [] ys = ground arith
stores_in-append (stores e r ∷ xs) ys = ground (arith, stores_in-append xs ys)
stores_in-append (processes e s c ∷ xs) ys = stores_in-append xs ys
stores_in-append (broadcasts b ∷ xs) ys = stores_in-append xs ys

stores_in-process_actions :
    (cb : Callbacks) (e : QueuedEvent) → stores_in (process_actions cb e) ≡ 0
stores_in-process_actions cb e = elim (Option-cases cb.process) [
  | inl n ↦ rw (n, process_actions) refl
  | inr (f, n) ↦ rw (n, process_actions) refl
]

stores_in-broadcast_part :
    (cb : Callbacks) (e : QueuedEvent) (now : ℕ) (response : Option Response)
    → stores_in (broadcast_part cb e now response).0 ≡ 0
unfolding broadcast_part
stores_in-broadcast_part cb e now none = refl
stores_in-broadcast_part cb e now (some r) = elim (Option-cases cb.broadcast) [
  | inl n ↦ rw (n, broadcast_part) refl
  | inr (f, n) ↦ rw (n, broadcast_part) refl
]

stores_in-store_part :
    (cb : Callbacks) (e : QueuedEvent) (response : Option Response)
    → stores_in (store_part cb e response) ≡ (if has_store cb then 1 else 0)
unfolding store_part
stores_in-store_part cb e response = elim (Option-cases cb.store) [
  | inl n ↦ rw (n, store_part) refl
  | inr (f, n) ↦ rw (n, store_part) refl
]

stores_in-after_answer :
    (cb : Callbacks) (e : QueuedEvent) (now : ℕ) (o : Outcome (Option Response)) (q : EventQueue)
    → stores_in (after_answer cb e now o q).1
      ≡ (if broadcast_returns cb e now o && has_store cb then 1 else 0)
unfolding after_answer
stores_in-after_answer cb e now raised q = refl
stores_in-after_answer cb e now (returned response) q =
    let zero_sent = stores_in-broadcast_part cb e now response in
    elim (Outcome-cases (broadcast_part cb e now response).1) [
      | inl p ↦ rw (p, after_answer) zero_sent
      | inr (_, p) ↦
          rw (p, after_answer)
            (ground (
              arith,
              stores_in-append (broadcast_part cb e now response).0 (store_part cb e response),
              stores_in-store_part cb e response,
            ))
    ]

-- A run of `_process_event` stores the event once if there is a store callback, the process
-- callback does not raise and the broadcast, if one is due, does not raise; else it stores nothing.
pub stores_in-process_event :
    (cb : Callbacks) (now : ℕ) (e : QueuedEvent) (q : EventQueue)
    → stores_in (process_event cb now e q).1
      ≡ (if broadcast_returns cb e now (call_process cb e) && has_store cb then 1 else 0)
unfolding process_event
stores_in-process_event cb now e q = ground (
  arith,
  stores_in-append (process_actions cb e) (after_answer cb e now (call_process cb e) q).1,
  stores_in-process_actions cb e,
  stores_in-after_answer cb e now (call_process cb e) q,
)
