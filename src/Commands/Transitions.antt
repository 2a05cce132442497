-- ===== src/Commands/Transitions.antt =====
-- The states that commands lead to.
use glady_s.Prelude.{
  ℕ, ◌≡◌, ◌≢◌, ◌⊎◌, refl, inl, inr, String, true, false, Option, none, some, List, [], ◌∷◌, arith,
}
use glady_s.Prelude.Tests.{nat_eq, Bool-cases, Option-cases, if◌then◌else◌}
use glady_s.Commands.{
  ComponentState, error, Command, health_check, command_value, command_eq, CommandArgs, Handled,
  finishes, raises, Handler, ErrorHandler, CommandDispatcher, default_transition, set_handler,
  handler_of, register_handler, parse_args, Answer, or_current, default_error, error_answer,
  on_error, after_handler, dispatch, no_handler, exception,
}

module _ {Raw : Type 0} where
  -- The answer tells the state that the dispatcher is in; the handlers stay.
  abbrev pub Agrees : CommandDispatcher Raw → Answer Raw → Type 0
  Agrees d (d', s, message) =
      (s ≡ d'.current_state) × (d'.handlers ≡ d.handlers) × (d'.error_handler ≡ d.error_handler)

  default_error-Agrees :
      (c : Command) (message : String) (d : CommandDispatcher Raw)
      → Agrees d (default_error c message d)
  default_error-Agrees c message d = elim (Bool-cases (command_eq c health_check)) [
    | inl e ↦ rw e (refl, refl, refl)
    | inr e ↦ rw e (refl, refl, refl)
  ]

  error_answer-Agrees :
      (c : Command) (message : String) (d : CommandDispatcher Raw) (r : Handled)
      → Agrees d (error_answer c message d r)
  error_answer-Agrees c message d (finishes (some s)) = (refl, refl, refl)
  error_answer-Agrees c message d (finishes none) = default_error-Agrees c message d
  error_answer-Agrees c message d (raises other) = default_error-Agrees c message d

  on_error-Agrees :
      (o : Option (ErrorHandler Raw)) (c : Command) (message : String) (d : CommandDispatcher Raw)
      → Agrees d (on_error o c message d)
  on_error-Agrees none c message d = default_error-Agrees c message d
  on_error-Agrees (some h) c message d =
      error_answer-Agrees c message d (h c message d.current_state)

  after_handler-Agrees :
      (c : Command) (d : CommandDispatcher Raw) (r : Handled) → Agrees d (after_handler c d r)
  after_handler-Agrees c d (finishes s) = (refl, refl, refl)
  after_handler-Agrees c d (raises message) = on_error-Agrees d.error_handler c message d

  -- On every branch, the state that `dispatch` returns is the one that the dispatcher is in
  -- afterwards, and all handlers stay registered.
  pub dispatch-Agrees :
      (c : Command) (raw : Raw) (d : CommandDispatcher Raw) → Agrees d (dispatch c raw d)
  unfolding dispatch
  dispatch-Agrees c raw d = elim (Option-cases (handler_of c d.handlers)) [
    | inl n ↦ rw (n, dispatch) (refl, refl, refl)
    | inr (h, n) ↦ rw (n, dispatch) (after_handler-Agrees c d (h (parse_args c raw)))
  ]

-- The handler leaves the state to the command.
abbrev pub NamesNone : Handled → Type 0
NamesNone r = (s : ComponentState) → r ≢ finishes (some s)

nat_eq_left : (a b c : ℕ) → nat_eq a b ≡ true → nat_eq a c ≡ nat_eq b c
nat_eq_left a b c h = ground arith

nat_eq_apart : (a b c : ℕ) → nat_eq a b ≡ false → nat_eq b c ≡ true → nat_eq a c ≡ false
nat_eq_apart a b c h k = ground arith

module _ {Raw : Type 0} where
  -- No handler, the one for errors included, names a state.
  pub record IsPlain (d : CommandDispatcher Raw) : Type 0 where
    pub handlers_plain :
        (c : Command) (h : Handler Raw) (args : Option (CommandArgs Raw))
        → handler_of c d.handlers ≡ some h
        → NamesNone (h args)
    pub errors_plain :
        (h : ErrorHandler Raw) (c : Command) (message : String) (s : ComponentState)
        → d.error_handler ≡ some h
        → NamesNone (h c message s)

  -- What a command answers where the handlers name no state.
  abbrev pub Plainly : Command → ComponentState → Answer Raw → Type 0
  Plainly c current (d', s, message) =
      ((message ≡ none) × (s ≡ or_current (default_transition c) current))
      ⊎ ((message ≡ some (no_handler c)) × (s ≡ current))
      ⊎ ((text : String) × (message ≡ some (exception text))
          × (s ≡ (if command_eq c health_check then current else error)))

  default_error-Plainly :
      (c : Command) (message : String) (d : CommandDispatcher Raw)
      → Plainly c d.current_state (default_error c message d)
  default_error-Plainly c message d = elim (Bool-cases (command_eq c health_check)) [
    | inl e ↦ rw e (inr (inr (message, refl, refl)))
    | inr e ↦ rw e (inr (inr (message, refl, refl)))
  ]

  error_answer-Plainly :
      (c : Command) (message : String) (d : CommandDispatcher Raw) (r : Handled)
      → NamesNone r
      → Plainly c d.current_state (error_answer c message d r)
  error_answer-Plainly c message d (finishes (some s)) plain = absurd (plain s refl)
  error_answer-Plainly c message d (finishes none) plain = default_error-Plainly c message d
  error_answer-Plainly c message d (raises other) plain = default_error-Plainly c message d

  on_error-Plainly :
      (o : Option (ErrorHandler Raw)) (c : Command) (message : String) (d : CommandDispatcher Raw)
      → ((h : ErrorHandler Raw) → o ≡ some h → NamesNone (h c message d.current_state))
      → Plainly c d.current_state (on_error o c message d)
  on_error-Plainly none c message d plain = default_error-Plainly c message d
  on_error-Plainly (some h) c message d plain =
      error_answer-Plainly c message d (h c message d.current_state) (plain h refl)

  after_handler-Plainly :
      (c : Command) (d : CommandDispatcher Raw) (r : Handled)
      → IsPlain d
      → NamesNone r
      → Plainly c d.current_state (after_handler c d r)
  after_handler-Plainly c d (finishes (some s)) plain names_none = absurd (names_none s refl)
  after_handler-Plainly c d (finishes none) plain names_none = inl (refl, refl)
  after_handler-Plainly c d (raises message) plain names_none =
      on_error-Plainly d.error_handler c message d
        (λ h there. plain.errors_plain h c message d.current_state there)

  -- Where the handlers name no state, a command has one of three answers: without a message, the
  -- state that the command leads to by default; without a handler, the state as it was; and with an
  -- exception, ERROR, but for a health check the state as it was.
  pub dispatch-Plainly :
      (c : Command) (raw : Raw) (d : CommandDispatcher Raw)
      → IsPlain d
      → Plainly c d.current_state (dispatch c raw d)
  unfolding dispatch
  dispatch-Plainly c raw d plain = elim (Option-cases (handler_of c d.handlers)) [
    | inl n ↦ rw (n, dispatch) (inr (inl (refl, refl)))
    | inr (h, n) ↦
        rw (n, dispatch)
          (after_handler-Plainly c d (h (parse_args c raw)) plain
            (plain.handlers_plain c h (parse_args c raw) n))
  ]

  handler_of-set_handler :
      (c j : Command) (h : Handler Raw) (hs : List (Command × Handler Raw))
      → handler_of j (set_handler c h hs) ≡ (if command_eq c j then some h else handler_of j hs)
  unfolding handler_of set_handler
  handler_of-set_handler c j h [] = refl
  handler_of-set_handler c j h ((i, k) ∷ hs) = elim (Bool-cases (command_eq i c)) [
    | inl same ↦
        let renamed = nat_eq_left (command_value i) (command_value c) (command_value j) same in
        rw same (elim (Bool-cases (command_eq c j)) [
          | inl e ↦ rw (renamed, e) refl
          | inr e ↦ rw (renamed, e) refl
        ])
    | inr other ↦
        rw (other, handler_of-set_handler c j h hs)
          (elim (Bool-cases (command_eq c j)) [
            | inl e ↦
                let elsewhere =
                  nat_eq_apart (command_value i) (command_value c) (command_value j) other e in
                rw (e, elsewhere) refl
            | inr e ↦ rw e refl
          ])
  ]

  -- A command goes to the handler that was registered last for it, and the handlers of other
  -- commands stay: after the registration, `dispatch` runs the new handler for its command and does
  -- for any other command what the old one says.
  pub dispatch-register_handler :
      (c j : Command) (h : Handler Raw) (raw : Raw) (d : CommandDispatcher Raw)
      → let d' = register_handler c h d in
        dispatch j raw d' ≡ (
          if command_eq c j
          then after_handler j d' (h (parse_args j raw))
          else elim (handler_of j d.handlers) [
            | none ↦ (d', d.current_state, some (no_handler j))
            | some k ↦ after_handler j d' (k (parse_args j raw))
          ])
  unfolding dispatch register_handler
  dispatch-register_handler c j h raw d = elim (Bool-cases (command_eq c j)) [
    | inl e ↦ rw (handler_of-set_handler c j h d.handlers, dispatch) (rw e refl)
    | inr e ↦ rw (handler_of-set_handler c j h d.handlers, dispatch) (rw e refl)
  ]
