-- ===== src/Commands/Lifecycle.antt =====
-- heartbeat.py and lifecycle.py of the Python SDK: the loop that reports a sensor's state to the
-- orchestrator and gives the commands that come back to the dispatcher.
use glady_s.Prelude.{
  zero, suc, suc, ℕ, String, Bool, true, false, Option, none, some, List, [], ◌∷◌, ◌==◌,
}
use glady_s.Prelude.Tests.{if◌then◌else◌}
use glady_s.Outcome.{Outcome, returned, raised}
use glady_s.Commands.{
  ComponentState, starting, unknown, Command, unspecified, start, stop, pause, resume, reload,
  health_check, recover, CommandDispatcher, Message, no_handler, exception, Answer, dispatch,
}

pub record HeartbeatManager : Type 0 where
  pub running : Bool
  pub current_state : ComponentState
  pub error_message : Option Message

abbrev pub new_manager : HeartbeatManager
new_manager = record { running = false; current_state = unknown; error_message = none }

unfoldable pub set_state : ComponentState → Option Message → HeartbeatManager → HeartbeatManager
set_state state message m = record m { current_state = state; error_message = message }

-- Command(value), none where the number is no member's
abbrev pub command_of : ℕ → Option Command
command_of zero = some unspecified
command_of (suc zero) = some start
command_of (suc (suc zero)) = some stop
command_of (suc (suc (suc zero))) = some pause
command_of (suc (suc (suc (suc zero)))) = some resume
command_of (suc (suc (suc (suc (suc zero))))) = some reload
command_of (suc (suc (suc (suc (suc (suc zero)))))) = some health_check
command_of (suc (suc (suc (suc (suc (suc (suc zero))))))) = some recover
command_of (suc (suc (suc (suc (suc (suc (suc (suc n)))))))) = none

-- What a heartbeat reports.
abbrev pub Report : Type 0
Report = ComponentState × Option Message

module _ (Raw : Type 0) where
  -- A command of the answer; the arguments are a dictionary already.
  pub record PendingCommand : Type 0 where
    pub command_id : String
    pub command : ℕ
    pub args : Raw

  pub record SensorLifecycle : Type 0 where
    pub dispatcher : CommandDispatcher Raw
    pub heartbeat_manager : HeartbeatManager
    pub has_event_dispatcher : Bool
    pub events_running : Bool
    pub registered : Bool
    pub connected : Bool

-- `if self._error_message`
abbrev pub sent : Option Message → Option Message
sent none = none
sent (some (no_handler c)) = none
sent (some (exception message)) = if message == "" then some (exception message) else none

module _ {Raw : Type 0} where
  abbrev answered : Answer Raw → SensorLifecycle Raw → SensorLifecycle Raw
  answered (d, state, message) l = record l {
    dispatcher = d;
    heartbeat_manager = set_state state message l.heartbeat_manager;
  }

  -- A number that is no command is only logged.
  unfoldable pub handle_pending_command :
      PendingCommand Raw → SensorLifecycle Raw → SensorLifecycle Raw
  unfolding set_state
  handle_pending_command p l = elim (command_of p.command) [
    | none ↦ l
    | some c ↦ answered (dispatch c p.args l.dispatcher) l
  ]

  unfoldable pub handle_all : List (PendingCommand Raw) → SensorLifecycle Raw → SensorLifecycle Raw
  handle_all [] l = l
  handle_all (p ∷ ps) l = handle_all ps (handle_pending_command p l)

  abbrev pub with_error : Option Message → SensorLifecycle Raw → SensorLifecycle Raw
  with_error message l = record l {
    heartbeat_manager = record l.heartbeat_manager { error_message = message };
  }

  abbrev pub report_of : SensorLifecycle Raw → Report
  report_of l = (l.heartbeat_manager.current_state, l.heartbeat_manager.error_message)

  -- One round of the loop: what was reported, if the call did not raise, and the state after it.
  unfoldable pub heartbeat_round :
      Outcome (List (PendingCommand Raw))
      → SensorLifecycle Raw
      → SensorLifecycle Raw × Option Report
  unfolding handle_all
  heartbeat_round raised l = (l, none)
  heartbeat_round (returned ps) l =
      (handle_all ps (with_error (sent l.heartbeat_manager.error_message) l), some (report_of l))

  -- The loop, as long as the manager runs: one answer for each round.
  unfoldable pub heartbeat_loop :
      List (Outcome (List (PendingCommand Raw)))
      → SensorLifecycle Raw
      → SensorLifecycle Raw × List (Option Report)
  heartbeat_loop [] l = (l, [])
  heartbeat_loop (o ∷ os) l =
      let (l', report) = heartbeat_round o l in
      let (l'', reports) = heartbeat_loop os l' in
      if l.heartbeat_manager.running then (l'', report ∷ reports) else (l, [])

  -- None where the registration is refused: the method raises, with the connection left open.
  unfoldable pub start_lifecycle : Bool → SensorLifecycle Raw → Option (SensorLifecycle Raw)
  unfolding set_state
  start_lifecycle accepted l =
      if accepted
      then some (record l {
        connected = true;
        registered = true;
        heartbeat_manager = record (set_state starting none l.heartbeat_manager) { running = true };
        events_running = if l.has_event_dispatcher then true else l.events_running;
      })
      else none

  unfoldable pub stop_lifecycle : SensorLifecycle Raw → SensorLifecycle Raw
  stop_lifecycle l = record l {
    events_running = if l.has_event_dispatcher then false else l.events_running;
    heartbeat_manager = record l.heartbeat_manager { running = false };
    registered = false;
    connected = false;
  }
