-- ===== src/Commands/Reports.antt =====
-- What heartbeats report: the dispatcher's state, and each error once.
use glady_s.Prelude.{
  ℕ, zero, suc, ◌≡◌, ◌≢◌, refl, sym, ap, ◌∙◌, ◌↔◌, inl, inr, String, Bool, true, Option, none, some,
  List, [], ◌∷◌, ◌++◌, arith, eq_iff,
}
use mathlib.Core.Option.{some-injective}
use glady_s.Prelude.Tests.{if◌then◌else◌, Option-cases, if_both}
use glady_s.Outcome.{Outcome, returned, raised}
use glady_s.Commands.{
  ComponentState, Command, unspecified, start, stop, pause, resume, reload, health_check, recover,
  command_value, Answer, exception, dispatch,
}
use glady_s.Commands.Transitions.{dispatch-Agrees}
use glady_s.Commands.Lifecycle.{
  SensorLifecycle, PendingCommand, Report, command_of, set_state, handle_pending_command,
  handle_all, heartbeat_round, heartbeat_loop, report_of, sent, with_error,
}

command_of-command_value : (c : Command) → command_of (command_value c) ≡ some c
command_of-command_value unspecified = refl
command_of-command_value start = refl
command_of-command_value stop = refl
command_of-command_value pause = refl
command_of-command_value resume = refl
command_of-command_value reload = refl
command_of-command_value health_check = refl
command_of-command_value recover = refl

command_value-command_of : (n : ℕ) (c : Command) → command_of n ≡ some c → command_value c ≡ n
command_value-command_of zero c e = ap command_value (sym (some-injective _ _ e))
command_value-command_of (suc zero) c e = ap command_value (sym (some-injective _ _ e))
command_value-command_of (suc (suc zero)) c e = ap command_value (sym (some-injective _ _ e))
command_value-command_of (suc (suc (suc zero))) c e = ap command_value (sym (some-injective _ _ e))
command_value-command_of (suc (suc (suc (suc zero)))) c e =
    ap command_value (sym (some-injective _ _ e))
command_value-command_of (suc (suc (suc (suc (suc zero))))) c e =
    ap command_value (sym (some-injective _ _ e))
command_value-command_of (suc (suc (suc (suc (suc (suc zero)))))) c e =
    ap command_value (sym (some-injective _ _ e))
command_value-command_of (suc (suc (suc (suc (suc (suc (suc zero))))))) c e =
    ap command_value (sym (some-injective _ _ e))
command_value-command_of (suc (suc (suc (suc (suc (suc (suc (suc n)))))))) c e =
    absurd (ground arith)

-- The numbers of commands and their decoding are inverse to each other: a number is decoded to a
-- command exactly when it is the command's number.
pub command_of_iff : (n : ℕ) (c : Command) → (command_of n ≡ some c) ↔ (command_value c ≡ n)
command_of_iff n c =
    (command_value-command_of n c, λ e. ap command_of (sym e) ∙ command_of-command_value c)

abbrev pub repeated {ℓ} : {A : Type ℓ} → ℕ → A → List A → List A
repeated zero x rest = rest
repeated (suc n) x rest = x ∷ repeated n x rest

second_if {ℓ κ} :
    {A : Type ℓ} {B : Type κ} (b : Bool) (x y : A × B) → b ≡ true → (if b then x else y).1 ≡ x.1
second_if b x y e = rw e refl

module _ {Raw : Type 0} where
  -- The state that the manager reports is the dispatcher's.
  abbrev pub IsCurrent : SensorLifecycle Raw → Type 0
  IsCurrent l = l.heartbeat_manager.current_state ≡ l.dispatcher.current_state

  handle_pending_command-IsCurrent :
      (p : PendingCommand Raw) (l : SensorLifecycle Raw)
      → IsCurrent l
      → IsCurrent (handle_pending_command p l)
  unfolding handle_pending_command set_state
  handle_pending_command-IsCurrent p l h = elim (Option-cases (command_of p.command)) [
    | inl e ↦ rw (e, handle_pending_command) h
    | inr (c, e) ↦ rw (e, handle_pending_command) (dispatch-Agrees c p.args l.dispatcher).0
  ]

  handle_all-IsCurrent :
      (ps : List (PendingCommand Raw)) (l : SensorLifecycle Raw)
      → IsCurrent l
      → IsCurrent (handle_all ps l)
  unfolding handle_all
  handle_all-IsCurrent [] l h = h
  handle_all-IsCurrent (p ∷ ps) l h =
      handle_all-IsCurrent ps (handle_pending_command p l) (handle_pending_command-IsCurrent p l h)

  heartbeat_round-IsCurrent :
      (o : Outcome (List (PendingCommand Raw))) (l : SensorLifecycle Raw)
      → IsCurrent l
      → IsCurrent (heartbeat_round o l).0
  unfolding heartbeat_round
  heartbeat_round-IsCurrent raised l h = h
  heartbeat_round-IsCurrent (returned ps) l h =
      handle_all-IsCurrent ps (with_error (sent l.heartbeat_manager.error_message) l) h

  -- Where the manager has the dispatcher's state, it has it after any rounds of the loop, whatever
  -- the orchestrator answers.
  pub heartbeat_loop-IsCurrent :
      (os : List (Outcome (List (PendingCommand Raw)))) (l : SensorLifecycle Raw)
      → IsCurrent l
      → IsCurrent (heartbeat_loop os l).0
  unfolding heartbeat_loop
  heartbeat_loop-IsCurrent [] l h = h
  heartbeat_loop-IsCurrent (o ∷ os) l h =
      if_both (λ (x : SensorLifecycle Raw × List (Option Report)). IsCurrent x.0)
        l.heartbeat_manager.running
        (heartbeat_loop-IsCurrent os (heartbeat_round o l).0 (heartbeat_round-IsCurrent o l h)) h

  abbrev pub state_and_message : Answer Raw → Report
  state_and_message (d, state, message) = (state, message)

  handle_all-append :
      (ps qs : List (PendingCommand Raw)) (l : SensorLifecycle Raw)
      → handle_all (ps ++ qs) l ≡ handle_all qs (handle_all ps l)
  unfolding handle_all
  handle_all-append [] qs l = refl
  handle_all-append (p ∷ ps) qs l = handle_all-append ps qs (handle_pending_command p l)

  handle_known :
      (p : PendingCommand Raw) (l : SensorLifecycle Raw) (c : Command)
      → command_of p.command ≡ some c
      → report_of (handle_pending_command p l) ≡ state_and_message (dispatch c p.args l.dispatcher)
  unfolding handle_pending_command set_state
  handle_known p l c e = rw (e, handle_pending_command) refl

  -- After several commands that came with one heartbeat, the next report is the answer to the last
  -- of them alone: the errors of the commands before it are not reported.
  pub handle_all-report_of :
      (ps : List (PendingCommand Raw)) (p : PendingCommand Raw) (l : SensorLifecycle Raw)
      (c : Command)
      → command_of p.command ≡ some c
      → report_of (handle_all (ps ++ p ∷ []) l)
        ≡ state_and_message (dispatch c p.args (handle_all ps l).dispatcher)
  unfolding handle_all
  handle_all-report_of ps p l c e =
      ap report_of (handle_all-append ps (p ∷ []) l) ∙ handle_known p (handle_all ps l) c e

  loop_step :
      (o : Outcome (List (PendingCommand Raw))) (os : List (Outcome (List (PendingCommand Raw))))
      (l : SensorLifecycle Raw)
      → l.heartbeat_manager.running ≡ true
      → (heartbeat_loop (o ∷ os) l).1
        ≡ (heartbeat_round o l).1 ∷ (heartbeat_loop os (heartbeat_round o l).0).1
  unfolding heartbeat_loop
  loop_step o os l running = second_if l.heartbeat_manager.running _ _ running

  abbrev quiet : SensorLifecycle Raw → SensorLifecycle Raw
  quiet l = with_error (sent l.heartbeat_manager.error_message) l

  -- While the manager runs, an error message that is not empty outlives every heartbeat that raises,
  -- is reported by the first that arrives, and is not reported again.
  pub heartbeat_loop-once :
      (n : ℕ) (message : String) (l : SensorLifecycle Raw)
      → l.heartbeat_manager.running ≡ true
      → l.heartbeat_manager.error_message ≡ some (exception message)
      → message ≢ ""
      → (heartbeat_loop (repeated n raised (returned [] ∷ returned [] ∷ [])) l).1
        ≡ repeated n none (
            some (l.heartbeat_manager.current_state, some (exception message))
            ∷ some (l.heartbeat_manager.current_state, none)
            ∷ [])
  unfolding heartbeat_loop heartbeat_round handle_all
  heartbeat_loop-once zero message l running failed named =
      loop_step (returned []) (returned [] ∷ []) l running
      ∙ ap (◌∷◌ (some (report_of l)))
          (loop_step (returned []) [] (quiet l) running ∙ ap (λ m. some (state, m) ∷ []) silent)
      ∙ ap (λ m. some (state, m) ∷ some (state, none) ∷ []) failed
    where
      state : ComponentState
      state = l.heartbeat_manager.current_state

      silent : sent l.heartbeat_manager.error_message ≡ none
      silent = ap sent failed ∙ ground (arith, eq_iff message "")
  heartbeat_loop-once (suc n) message l running failed named =
      loop_step raised (repeated n raised (returned [] ∷ returned [] ∷ [])) l running
      ∙ ap (◌∷◌ none) (heartbeat_loop-once n message l running failed named)
