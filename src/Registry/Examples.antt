-- ===== src/Registry/Examples.antt =====
-- The registry's theorems at concrete histories.
use glady_s.Prelude.{String, ◌≡◌, refl, ◌≢◌, some, List, [], ◌∷◌, eq_iff, arith}
use glady_s.Prelude.Dict
use glady_s.Registry.{
  Registry, ComponentInfo, CommandDict, empty, new_info, register, unregister, update_heartbeat,
  queue_command, get_by_id, get_by_type,
}
use glady_s.Registry.Ops.{Op, registers, unregisters, beats, queues, step, run}
use glady_s.Registry.TypeIndex.{IsComplete, run-IsComplete}
use glady_s.Registry.Soundness.{IsSound, KeepTypes, run-IsSound}

empty-IsComplete : IsComplete empty
empty-IsComplete = record { at = λ id info h. absurd (unfold Dict.get in ground arith) }

empty-IsSound : IsSound empty
empty-IsSound = record { at = λ id t h. absurd (unfold Dict.get in ground arith) }

abbrev reload : CommandDict
reload = ("command", "reload") ∷ []

-- Two sensors and a skill; the first sensor pauses, and the skill goes away.
abbrev history : List Op
history =
    registers "s1" "sensor" "a:1" [] 10
    ∷ registers "s2" "sensor" "a:2" [] 11
    ∷ registers "k1" "skill" "a:3" [] 12
    ∷ beats "s1" 3 20
    ∷ queues "s2" reload
    ∷ unregisters "k1"
    ∷ []

abbrev after : Registry
after = run empty history

run-IsComplete_example : IsComplete (run empty history)
run-IsComplete_example = run-IsComplete empty history empty-IsComplete

abbrev s2_info : ComponentInfo
s2_info = record (new_info "s2" "sensor" "a:2" [] 11) { pending_commands = reload ∷ [] }

history-KeepTypes : KeepTypes empty history
unfolding step register update_heartbeat queue_command Dict.get Dict.put
history-KeepTypes = (
  λ info h. absurd (ground arith),
  (λ info h. absurd (ground arith), (λ info h. absurd (ground arith), (tt, (tt, (tt, tt))))),
)

run-IsSound_example : IsSound (run empty history)
run-IsSound_example = run-IsSound empty history empty-IsSound history-KeepTypes

get-s2 : get_by_id "s2" after ≡ some s2_info
unfolding run step register unregister update_heartbeat queue_command Dict.get Dict.put Dict.remove
get-s2 = refl

get-sensor : get_by_type "sensor" after ≡ some s2_info
unfolding run step register unregister update_heartbeat queue_command get_by_type Dict.get Dict.put
    Dict.remove
get-sensor = refl

sensor≢skill : ◌≢◌ {A = String} "sensor" "skill"
sensor≢skill = ground (arith, eq_iff "sensor" "skill")
