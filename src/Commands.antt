-- ===== src/Commands.antt =====
-- dispatcher.py and state.py of the Python SDK: lifecycle commands, their handlers, and the states
-- that they lead to. The arguments' dictionary is of any type; a handler gets it with the class that
-- the command parses it to.
pub mod Transitions
pub mod Args
pub mod Lifecycle
pub mod Reports
mod Examples
use glady_s.Prelude.{ℕ, String, Bool, true, false, Option, none, some, List, [], ◌∷◌}
use glady_s.Prelude.Tests.{nat_eq, if◌then◌else◌}

pub data ComponentState : Type 0 where
  unknown starting active paused stopping stopped error dead : ComponentState

pub data Command : Type 0 where
  unspecified start stop pause resume reload health_check recover : Command

-- The members' numbers, by which they are equal.
abbrev pub command_value : Command → ℕ
command_value unspecified = 0
command_value start = 1
command_value stop = 2
command_value pause = 3
command_value resume = 4
command_value reload = 5
command_value health_check = 6
command_value recover = 7

abbrev pub command_eq : Command → Command → Bool
command_eq a b = nat_eq (command_value a) (command_value b)

pub data CommandArgs (Raw : Type 0) : Type 0 where
  start_args stop_args recover_args health_check_args : Raw → CommandArgs Raw

-- A handler returns a state to go to, or none for the default, or it raises with a message.
pub data Handled : Type 0 where
  finishes : Option ComponentState → Handled
  raises : String → Handled

-- The error message: for a missing handler it names the command.
pub data Message : Type 0 where
  no_handler : Command → Message
  exception : String → Message

module _ (Raw : Type 0) where
  abbrev pub Handler : Type 0
  Handler = Option (CommandArgs Raw) → Handled

  -- command, message of the exception, current state
  abbrev pub ErrorHandler : Type 0
  ErrorHandler = Command → String → ComponentState → Handled

  pub record CommandDispatcher : Type 0 where
    pub component_id : String
    pub current_state : ComponentState
    pub handlers : List (Command × Handler)
    pub error_handler : Option ErrorHandler

  abbrev pub Answer : Type 0
  Answer = CommandDispatcher × ComponentState × Option Message

abbrev pub default_transition : Command → Option ComponentState
default_transition unspecified = none
default_transition start = some active
default_transition stop = some stopped
default_transition pause = some paused
default_transition resume = some active
default_transition reload = some active
default_transition health_check = none
default_transition recover = some active

abbrev pub or_current : Option ComponentState → ComponentState → ComponentState
or_current none current = current
or_current (some s) current = s

-- The handler's state, or the default of the command, or the current one.
abbrev pub state_after : Command → Option ComponentState → ComponentState → ComponentState
state_after c none current = or_current (default_transition c) current
state_after c (some s) current = s

module _ {Raw : Type 0} where
  unfoldable pub set_handler :
      Command → Handler Raw → List (Command × Handler Raw) → List (Command × Handler Raw)
  set_handler c h [] = (c, h) ∷ []
  set_handler c h ((d, k) ∷ hs) =
      let later = set_handler c h hs in if command_eq d c then (d, h) ∷ hs else (d, k) ∷ later

  unfoldable pub handler_of : Command → List (Command × Handler Raw) → Option (Handler Raw)
  handler_of c [] = none
  handler_of c ((d, k) ∷ hs) = if command_eq d c then some k else handler_of c hs

  unfoldable pub register_handler :
      Command → Handler Raw → CommandDispatcher Raw → CommandDispatcher Raw
  register_handler c h d = record d { handlers = set_handler c h d.handlers }

  unfoldable pub register_error_handler :
      ErrorHandler Raw → CommandDispatcher Raw → CommandDispatcher Raw
  register_error_handler h d = record d { error_handler = some h }

  -- PAUSE, RESUME and RELOAD have no arguments.
  unfoldable pub parse_args : Command → Raw → Option (CommandArgs Raw)
  parse_args start raw = some (start_args raw)
  parse_args stop raw = some (stop_args raw)
  parse_args recover raw = some (recover_args raw)
  parse_args health_check raw = some (health_check_args raw)
  parse_args unspecified raw = none
  parse_args pause raw = none
  parse_args resume raw = none
  parse_args reload raw = none

  abbrev pub go_to : ComponentState → Option Message → CommandDispatcher Raw → Answer Raw
  go_to s message d = (record d { current_state = s }, s, message)

  -- A failed health check changes no state; any other failure leads to ERROR.
  abbrev pub default_error : Command → String → CommandDispatcher Raw → Answer Raw
  default_error c message d =
      if command_eq c health_check
      then (d, d.current_state, some (exception message))
      else go_to error (some (exception message)) d

  abbrev pub error_answer : Command → String → CommandDispatcher Raw → Handled → Answer Raw
  error_answer c message d (finishes (some s)) = go_to s (some (exception message)) d
  error_answer c message d (finishes none) = default_error c message d
  error_answer c message d (raises other) = default_error c message d

  abbrev pub on_error :
      Option (ErrorHandler Raw) → Command → String → CommandDispatcher Raw → Answer Raw
  on_error none c message d = default_error c message d
  on_error (some h) c message d = error_answer c message d (h c message d.current_state)

  abbrev pub after_handler : Command → CommandDispatcher Raw → Handled → Answer Raw
  after_handler c d (finishes s) = go_to (state_after c s d.current_state) none d
  after_handler c d (raises message) = on_error d.error_handler c message d

  unfoldable pub dispatch : Command → Raw → CommandDispatcher Raw → Answer Raw
  unfolding parse_args handler_of
  dispatch c raw d = elim (handler_of c d.handlers) [
    | none ↦ (d, d.current_state, some (no_handler c))
    | some h ↦ after_handler c d (h (parse_args c raw))
  ]
