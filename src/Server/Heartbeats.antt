-- ===== src/Server/Heartbeats.antt =====
-- The heartbeat call: the commands that waited for a component go out with its next heartbeat.
use glady_s.Prelude.{
  sym, ◌++◌, ◌∷◌, none, ap, List, false, ℕ, ◌≡◌, refl, ◌∙◌, String, some, [], map, ◌==◌, arith,
  eq_iff,
}
use glady_s.Prelude.Tests.{if◌then◌else◌}
use mathlib.Core.List.{map-append}
use glady_s.Prelude.Dict
use glady_s.Prelude.Dict.{get-put, get-remove}
use glady_s.Registry
use glady_s.Registry.Commands.{queue_all, get-queue_all}
use glady_s.Registry.{Registry, ComponentInfo, CommandDict, set_component}
use glady_s.Server.{PendingCommand, OrchestratorServicer, pending_command, heartbeat}

heartbeat_info :
    (id : String) (state now : ℕ) (s : OrchestratorServicer) (info : ComponentInfo)
    → Dict.get id s.registry.components ≡ some info
    → heartbeat id state now s ≡ (
      record s {
        registry =
            set_component id
              (record info { last_heartbeat_ms = now; state = state; pending_commands = [] })
              (Registry.update_heartbeat id state now s.registry).0;
      },
      map pending_command info.pending_commands,
    )
unfolding heartbeat Registry.update_heartbeat Registry.get_pending_commands
heartbeat_info id state now s info e =
    rw (e, Registry.update_heartbeat)
      (rw (get-put id id _ s.registry.components ∙ found, Registry.get_pending_commands) refl)
  where
    beating : ComponentInfo
    beating = record info { last_heartbeat_ms = now; state = state }

    found : (if id == id then some beating else Dict.get id s.registry.components) ≡ some beating
    found = ground (arith, eq_iff id id)

abbrev pub with_queue : String → List CommandDict → OrchestratorServicer → OrchestratorServicer
with_queue id cs s = record s { registry = queue_all id cs s.registry }

heartbeat_sends :
    (id : String) (state now : ℕ) (s : OrchestratorServicer) (info : ComponentInfo)
    → Dict.get id s.registry.components ≡ some info
    → (heartbeat id state now s).1 ≡ map pending_command info.pending_commands
heartbeat_sends id state now s info e =
    ap (λ (x : OrchestratorServicer × List PendingCommand). x.1)
      (heartbeat_info id state now s info e)

heartbeat_leaves :
    (id : String) (state now : ℕ) (s : OrchestratorServicer) (info : ComponentInfo)
    → Dict.get id s.registry.components ≡ some info
    → Dict.get id (heartbeat id state now s).0.registry.components
      ≡ some (record info { last_heartbeat_ms = now; state = state; pending_commands = [] })
heartbeat_leaves id state now s info e =
    rw (heartbeat_info id state now s info e) (get-put id id _ _ ∙ ground (arith, eq_iff id id))

-- Commands that are queued for a registered component go out, each once and in order after those
-- that waited, with its next heartbeat; and the heartbeat after that brings none.
pub heartbeat-queue_all :
    (id : String) (cs : List CommandDict) (state now state' later : ℕ) (s : OrchestratorServicer)
    (info : ComponentInfo)
    → Dict.get id s.registry.components ≡ some info
    → let (s', sent) = heartbeat id state now (with_queue id cs s) in
      (sent ≡ map pending_command (info.pending_commands ++ cs))
      × ((heartbeat id state' later s').1 ≡ [])
heartbeat-queue_all id cs state now state' later s info e =
    let queued = get-queue_all id cs s.registry info e in
    (
      heartbeat_sends id state now (with_queue id cs s) _ queued,
      heartbeat_sends id state' later (heartbeat id state now (with_queue id cs s)).0 _
          (heartbeat_leaves id state now (with_queue id cs s) _ queued),
    )

pending_command-remove :
    (c : CommandDict) → pending_command (Dict.remove "args" c) ≡ pending_command c
pending_command-remove c =
    rw
      (
        get-remove "args" "command_id" c
            ∙ other "command_id" (ground (arith, eq_iff "args" "command_id")),
        get-remove "args" "command" c ∙ other "command" (ground (arith, eq_iff "args" "command")),
      )
      refl
  where
    other :
        (k : String)
        → ("args" == k) ≡ false
        → (if "args" == k then none else Dict.get k c) ≡ Dict.get k c
    other k e = rw e refl

-- The arguments of commands do not reach the component: a heartbeat sends for the queued commands
-- what it would send if none of them had arguments.
pub heartbeat-remove :
    (id : String) (cs : List CommandDict) (state now : ℕ) (s : OrchestratorServicer)
    (info : ComponentInfo)
    → Dict.get id s.registry.components ≡ some info
    → (heartbeat id state now (with_queue id cs s)).1
      ≡ (heartbeat id state now (with_queue id (map (Dict.remove "args") cs) s)).1
heartbeat-remove id cs state now s info e =
    heartbeat_sends id state now (with_queue id cs s) _ (get-queue_all id cs s.registry info e)
    ∙ map-append pending_command info.pending_commands cs
    ∙ ap (◌++◌ (map pending_command info.pending_commands)) (sym (map_removed cs))
    ∙ sym (map-append pending_command info.pending_commands (map (Dict.remove "args") cs))
    ∙ sym (
        heartbeat_sends id state now (with_queue id (map (Dict.remove "args") cs) s) _
          (get-queue_all id (map (Dict.remove "args") cs) s.registry info e))
  where
    map_removed :
        (ds : List CommandDict)
        → map pending_command (map (Dict.remove "args") ds) ≡ map pending_command ds
    map_removed [] = refl
    map_removed (d ∷ ds) = rw (pending_command-remove d, map_removed ds) refl
