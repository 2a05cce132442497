-- ===== src/Registry/Ops.antt =====
-- The calls of the registry as data, and the case rules of the methods that look a component up.
use glady_s.Prelude.{ℕ, String, ◌≡◌, inl, inr, some, List, [], ◌∷◌, ◌++◌}
use glady_s.Prelude.Tests.{Option-cases}
use glady_s.Prelude.Dict
use glady_s.Prelude.Dict.{Dict}
use glady_s.Registry.{
  Registry, ComponentInfo, CommandDict, register, drop_from_type, unregister, set_component,
  update_heartbeat, get_pending_commands, queue_command,
}

pub data Op : Type 0 where
  registers : String → String → String → Dict String → ℕ → Op
  unregisters : String → Op
  beats : String → ℕ → ℕ → Op
  takes : String → Op
  queues : String → CommandDict → Op

unfoldable pub step : Registry → Op → Registry
step r (registers id t address capabilities now) = (register id t address capabilities now r).0
step r (unregisters id) = (unregister id r).0
step r (beats id state now) = (update_heartbeat id state now r).0
step r (takes id) = (get_pending_commands id r).0
step r (queues id command) = (queue_command id command r).0

unfoldable pub run : Registry → List Op → Registry
run r [] = r
run r (op ∷ ops) = run (step r op) ops

-- What the methods that look a component up do to a predicate: nothing when the id is unknown.
module _ {ℓ} (P : Registry → Type ℓ) (id : String) (r : Registry) (unknown : P r) where
  pub unregister_cases :
      ((info : ComponentInfo)
        → Dict.get id r.components ≡ some info
        → P (record {
          components = Dict.remove id r.components;
          by_type = drop_from_type info.component_type id r.by_type;
        }))
      → P (unregister id r).0
  unfolding unregister
  unregister_cases known = elim (Option-cases (Dict.get id r.components)) [
    | inl e ↦ rw (e, unregister) unknown
    | inr (info, e) ↦ rw (e, unregister) (known info e)
  ]

  pub update_heartbeat_cases :
      (state now : ℕ)
      → ((info : ComponentInfo)
          → Dict.get id r.components ≡ some info
          → P (set_component id (record info { last_heartbeat_ms = now; state = state }) r))
      → P (update_heartbeat id state now r).0
  unfolding update_heartbeat
  update_heartbeat_cases state now known = elim (Option-cases (Dict.get id r.components)) [
    | inl e ↦ rw (e, update_heartbeat) unknown
    | inr (info, e) ↦ rw (e, update_heartbeat) (known info e)
  ]

  pub get_pending_commands_cases :
      ((info : ComponentInfo)
        → Dict.get id r.components ≡ some info
        → P (set_component id (record info { pending_commands = [] }) r))
      → P (get_pending_commands id r).0
  unfolding get_pending_commands
  get_pending_commands_cases known = elim (Option-cases (Dict.get id r.components)) [
    | inl e ↦ rw (e, get_pending_commands) unknown
    | inr (info, e) ↦ rw (e, get_pending_commands) (known info e)
  ]

  pub queue_command_cases :
      (command : CommandDict)
      → ((info : ComponentInfo)
          → Dict.get id r.components ≡ some info
          → P (
              set_component id
                (record info { pending_commands = info.pending_commands ++ command ∷ [] })
                r))
      → P (queue_command id command r).0
  unfolding queue_command
  queue_command_cases command known = elim (Option-cases (Dict.get id r.components)) [
    | inl e ↦ rw (e, queue_command) unknown
    | inr (info, e) ↦ rw (e, queue_command) (known info e)
  ]
