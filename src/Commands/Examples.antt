-- ===== src/Commands/Examples.antt =====
-- The dispatcher's theorems at a sensor with two handlers.
use glady_s.Prelude.{
  false, true, refl, ◌++◌, ◌≢◌, eq_iff, String, ◌≡◌, ap, Option, none, some, [], ◌∷◌, inl, inr,
  arith,
}
use glady_s.Prelude.Tests.{Bool-cases}
use glady_s.Commands.{
  pause, exception, Command, CommandDispatcher, raises, health_check, active, dispatch, handler_of,
  Handler, CommandArgs, command_eq,
}
use glady_s.Outcome.{returned, raised}
use glady_s.Commands.Lifecycle.{
  SensorLifecycle, PendingCommand, handle_all, report_of, heartbeat_loop,
}
use glady_s.Commands.Reports.{state_and_message, handle_all-report_of, heartbeat_loop-once}
use glady_s.Commands.Transitions.{NamesNone, IsPlain, Plainly, dispatch-Plainly}

abbrev sensor : CommandDispatcher String
sensor = record {
  component_id = "sensor";
  current_state = active;
  handlers = (health_check, λ args. raises "no signal") ∷ [];
  error_handler = none;
}

only_handler :
    (c : Command) (h : Handler String) (args : Option (CommandArgs String))
    → handler_of c sensor.handlers ≡ some h
    → NamesNone (h args)
unfolding handler_of
only_handler c h args there s e = elim (Bool-cases (command_eq health_check c)) [
  | inl same ↦
      let found : some (λ (a : Option (CommandArgs String)). raises "no signal") ≡ some h =
        rw same at there in
      let raised : raises "no signal" ≡ h args =
        ap (λ (o : Option (Handler String)). elim o [ none ↦ raises "no signal" | some k ↦ k args ])
          found in
      absurd (ground arith)
  | inr other ↦ absurd (let missing : none ≡ some h = rw other at there in ground arith)
]

sensor-IsPlain : IsPlain sensor
sensor-IsPlain = record {
  handlers_plain = λ c h args there s e. only_handler c h args there s e;
  errors_plain = λ h c message s there t e. absurd (ground arith);
}

dispatch-Plainly_example : Plainly health_check active (dispatch health_check "deep" sensor)
dispatch-Plainly_example = dispatch-Plainly health_check "deep" sensor sensor-IsPlain

abbrev lifecycle : SensorLifecycle String
lifecycle = record {
  dispatcher = sensor;
  heartbeat_manager = record {
    running = true;
    current_state = active;
    error_message = some (exception "no signal");
  };
  has_event_dispatcher = false;
  events_running = false;
  registered = true;
  connected = true;
}

abbrev check : PendingCommand String
check = record { command_id = "c1"; command = 6; args = "deep" }

handle_all-report_of_example :
    report_of (handle_all (check ∷ [] ++ record check { command = 3 } ∷ []) lifecycle)
    ≡ state_and_message (dispatch pause "deep" (handle_all (check ∷ []) lifecycle).dispatcher)
handle_all-report_of_example =
    handle_all-report_of (check ∷ []) (record check { command = 3 }) lifecycle pause refl

signal_named : ◌≢◌ {A = String} "no signal" ""
signal_named = ground (arith, eq_iff "no signal" "")

heartbeat_loop-once_example :
    (heartbeat_loop (raised ∷ returned [] ∷ returned [] ∷ []) lifecycle).1
    ≡ none ∷ some (active, some (exception "no signal")) ∷ some (active, none) ∷ []
heartbeat_loop-once_example = heartbeat_loop-once 1 "no signal" lifecycle refl refl signal_named
