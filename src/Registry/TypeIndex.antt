-- ===== src/Registry/TypeIndex.antt =====
-- The index by type against the components that are registered.
use glady_s.Prelude.{
  ℕ, String, ◌≡◌, inl, inr, refl, Bool, true, false, not, some, List, [], ◌∷◌, ◌++◌, ◌==◌, eq_iff,
  arith,
}
use glady_s.Prelude.Tests.{if◌then◌else◌, Bool-cases, Option-cases}
use glady_s.Prelude.Lists.{keep}
use glady_s.Prelude.Dict
use glady_s.Prelude.Dict.{Dict, get-put, get-remove}
use glady_s.Registry.{
  Registry, ComponentInfo, listed, ids_of, add_id, index_type, register, drop_from_type,
  set_component,
}
use glady_s.Registry.Ops.{
  Op, registers, unregisters, beats, takes, queues, step, run, unregister_cases,
  update_heartbeat_cases, get_pending_commands_cases, queue_command_cases,
}

listed-append :
    (j id : String) (ids : List String)
    → listed j (ids ++ id ∷ []) ≡ (if id == j then true else listed j ids)
listed-append j id [] = ground arith
listed-append j id (i ∷ ids) = ground (arith, listed-append j id ids)

listed-add_id :
    (j id : String) (ids : List String)
    → listed j (add_id id ids) ≡ (if id == j then true else listed j ids)
listed-add_id j id ids = elim (Bool-cases (listed id ids)) [
  | inl e ↦ rw e (ground (arith, eq_iff id j))
  | inr e ↦ rw e (listed-append j id ids)
]

listed-keep :
    (j id : String) (ids : List String)
    → listed j (keep (λ i. not (i == id)) ids) ≡ (if id == j then false else listed j ids)
listed-keep j id [] = ground arith
listed-keep j id (i ∷ ids) =
    ground (arith, eq_iff i id, eq_iff id j, eq_iff i j, listed-keep j id ids)

-- The ids that the index shows for type `u`.
abbrev pub shown : String → String → Dict (List String) → Bool
shown j u index = listed j (ids_of (Dict.get u index))

pub shown-index_type :
    (j u t id : String) (index : Dict (List String))
    → shown j u (index_type t id index)
      ≡ (if t == u then (if id == j then true else shown j u index) else shown j u index)
shown-index_type j u t id index =
    rw get-put (ground (arith, eq_iff t u, listed-add_id j id (ids_of (Dict.get t index))))

pub shown-drop_from_type :
    (j u t id : String) (index : Dict (List String))
    → shown j u (drop_from_type t id index)
      ≡ (if t == u then (if id == j then false else shown j u index) else shown j u index)
shown-drop_from_type j u t id index = elim (Option-cases (Dict.get t index)) [
  | inl e ↦ rw (e, drop_from_type) (ground (arith, eq_iff t u))
  | inr (ids, e) ↦
      rw (e, drop_from_type) (rw get-put (ground (arith, eq_iff t u, listed-keep j id ids)))
]

-- Every registered component is shown under its type.
pub record IsComplete (r : Registry) : Type 0 where
  pub at :
      (id : String) (info : ComponentInfo)
      → Dict.get id r.components ≡ some info
      → shown id info.component_type r.by_type ≡ true

set_component-IsComplete :
    (id : String) (old info : ComponentInfo) (r : Registry)
    → Dict.get id r.components ≡ some old
    → info.component_type ≡ old.component_type
    → IsComplete r
    → IsComplete (set_component id info r)
set_component-IsComplete id old info r found same h = record {
  at = λ j x. rw get-put (ground (arith, eq_iff id j, h.at id old, h.at j x));
}

register-IsComplete :
    (id t address : String) (capabilities : Dict String) (now : ℕ) (r : Registry)
    → IsComplete r
    → IsComplete (register id t address capabilities now r).0
unfolding register
register-IsComplete id t address capabilities now r h = record {
  at = λ j x.
      rw get-put
        (rw shown-index_type (ground (arith, eq_iff id j, eq_iff t x.component_type, h.at j x)));
}

step-IsComplete : (r : Registry) (op : Op) → IsComplete r → IsComplete (step r op)
unfolding step
step-IsComplete r (registers id t address capabilities now) h =
    register-IsComplete id t address capabilities now r h
step-IsComplete r (unregisters id) h = unregister_cases IsComplete id r h λ info e. record {
  at = λ j x. rw get-remove (
      rw shown-drop_from_type
        (ground (arith, eq_iff id j, eq_iff info.component_type x.component_type, h.at j x)));
}
step-IsComplete r (beats id state now) h =
    update_heartbeat_cases IsComplete id r h state now
      λ info e. set_component-IsComplete id info _ r e refl h
step-IsComplete r (takes id) h =
    get_pending_commands_cases IsComplete id r h
      λ info e. set_component-IsComplete id info _ r e refl h
step-IsComplete r (queues id command) h =
    queue_command_cases IsComplete id r h command
      λ info e. set_component-IsComplete id info _ r e refl h

-- Whatever the calls, every registered component is listed under its type.
pub run-IsComplete : (r : Registry) (ops : List Op) → IsComplete r → IsComplete (run r ops)
unfolding run
run-IsComplete r [] h = h
run-IsComplete r (op ∷ ops) h = run-IsComplete (step r op) ops (step-IsComplete r op h)
