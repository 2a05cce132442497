-- ===== src/Watcher/Resolution.antt =====
-- What registered fires and events make of the expectations.
use mathlib.Core.List.{map-append}
use glady_s.Prelude.{
  false, String, Bool, true, not, ◌≡◌, ◌≢◌, refl, ap, inl, inr, Option, none, some, List, [], ◌∷◌,
  ◌++◌, ◌==◌, eq_iff, arith,
}
use glady_s.Prelude.Tests.{if◌then◌else◌, Bool-cases}
use glady_s.Prelude.Lists.{first, keep}
use glady_s.MemoryClient.{updates, MemoryClient}
use glady_s.Watcher.{
  feedback, contains, PendingOutcome, OutcomeWatcher, Fire, expectation, register_fire, resolves,
  feedback_calls, check_event,
}

pub keep_none_left {ℓ} :
    {A : Type ℓ} (p : A → Bool) (xs : List A) → keep p (keep (λ x. not (p x)) xs) ≡ []
keep_none_left p [] = refl
keep_none_left p (x ∷ xs) = elim (Bool-cases (p x)) [
  | inl e ↦ rw e (keep_none_left p xs)
  | inr e ↦ rw e (rw e (keep_none_left p xs))
]

complement_twice {ℓ} :
    {A : Type ℓ} (p : A → Bool) (xs : List A)
    → keep (λ x. not (p x)) (keep (λ x. not (p x)) xs) ≡ keep (λ x. not (p x)) xs
complement_twice p [] = refl
complement_twice p (x ∷ xs) = elim (Bool-cases (p x)) [
  | inl e ↦ rw e (complement_twice p xs)
  | inr e ↦ rw e (rw e (ap (◌∷◌ x) (complement_twice p xs)))
]

feedback_calls-nil : (client : Option MemoryClient) → feedback_calls client [] ≡ []
feedback_calls-nil none = refl
feedback_calls-nil (some c) = refl

-- An expectation gives feedback once: after `check_event`, a second event with the same text
-- changes nothing, resolves no heuristic and sends no feedback.
pub check_event-check_event :
    (client : Option MemoryClient) (raw_text : String) (w : OutcomeWatcher)
    → check_event client raw_text (check_event client raw_text w).0
      ≡ ((check_event client raw_text w).0, [], [])
unfolding check_event
check_event-check_event client raw_text w = elim (Bool-cases (raw_text == "")) [
  | inl e ↦ rw e refl
  | inr e ↦ rw e (
      rw
        (
          keep_none_left (resolves raw_text) w.pending,
          complement_twice (resolves raw_text) w.pending,
          feedback_calls-nil client,
        )
        refl)
]

-- A fire of a named heuristic with a known condition always leaves one more expectation, the last.
pub register_fire-pending :
    (client : Option MemoryClient) (f : Fire) (condition : String) (w : OutcomeWatcher)
    → f.heuristic_id ≢ ""
    → condition ≢ ""
    → register_fire client f condition w
      ≡ (record w { pending = w.pending ++ expectation f condition w ∷ [] }, true)
unfolding register_fire
register_fire-pending client f condition w named known =
    ground (arith, eq_iff f.heuristic_id "", eq_iff condition "")

pub keep-append {ℓ} :
    {A : Type ℓ} (p : A → Bool) (xs ys : List A) → keep p (xs ++ ys) ≡ keep p xs ++ keep p ys
keep-append p [] ys = refl
keep-append p (x ∷ xs) ys = elim (Bool-cases (p x)) [
  | inl e ↦ rw e (ap (◌∷◌ x) (keep-append p xs ys))
  | inr e ↦ rw e (keep-append p xs ys)
]

feedback_calls-append :
    (client : Option MemoryClient) (xs ys : List PendingOutcome)
    → feedback_calls client (xs ++ ys) ≡ feedback_calls client xs ++ feedback_calls client ys
feedback_calls-append none xs ys = refl
feedback_calls-append (some c) xs ys = map-append (λ p. updates (feedback p)) xs ys

abbrev pub only_if {ℓ} : {A : Type ℓ} → Bool → A → List A
only_if b x = if b then x ∷ [] else []

-- An event that follows the fire of a named heuristic with a known condition does what it did
-- before, and beside: if it shows the fire's expected text, the expectation is gone and its feedback
-- is the last one sent; if not, the expectation stays, the last, and no feedback is added.
pub check_event-register_fire :
    (client : Option MemoryClient) (f : Fire) (condition raw_text : String) (w : OutcomeWatcher)
    → f.heuristic_id ≢ ""
    → condition ≢ ""
    → raw_text ≢ ""
    → let e = expectation f condition w in
      let alone = check_event client raw_text w in
      let both = check_event client raw_text (register_fire client f condition w).0 in
      (both.0.pending ≡ alone.0.pending ++ only_if (not (resolves raw_text e)) e)
      × (both.2 ≡ alone.2 ++ feedback_calls client (only_if (resolves raw_text e) e))
unfolding check_event
check_event-register_fire client f condition raw_text w named known shown =
    rw (register_fire-pending client f condition w named known)
      (elim (Bool-cases (raw_text == "")) [
        | inl e ↦ absurd (shown ((eq_iff raw_text "").0 e))
        | inr e ↦ rw e (
          keep-append (λ p. not (resolves raw_text p)) w.pending _,
          rw (keep-append (resolves raw_text) w.pending (expectation f condition w ∷ []))
              (feedback_calls-append client (keep (resolves raw_text) w.pending) _),
        )
      ])

-- Where no trigger fits, the expectation waits for its timeout: no event resolves it.
pub resolves-expectation_default :
    (f : Fire) (condition raw_text : String) (w : OutcomeWatcher)
    → first (λ p. contains p.trigger_pattern condition) w.patterns ≡ none
    → resolves raw_text (expectation f condition w) ≡ false
unfolding expectation
resolves-expectation_default f condition raw_text w no_trigger =
    rw (no_trigger, expectation) (ground (arith, eq_iff "" ""))
