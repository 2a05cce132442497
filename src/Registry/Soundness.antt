-- ===== src/Registry/Soundness.antt =====
-- Where the index by type shows only components of that type.
use glady_s.Prelude.{ℕ, String, ◌≡◌, inl, inr, refl, true, some, List, [], ◌∷◌, ◌==◌, eq_iff, arith}
use glady_s.Prelude.Tests.{Bool-cases}
use glady_s.Prelude.Dict
use glady_s.Prelude.Dict.{Dict, get-put, get-remove}
use glady_s.Registry.{
  Registry, ComponentInfo, index_type, new_info, register, drop_from_type, unregister,
  set_component,
}
use glady_s.Registry.Ops.{
  Op, registers, unregisters, beats, takes, queues, step, run, unregister_cases,
  update_heartbeat_cases, get_pending_commands_cases, queue_command_cases,
}
use glady_s.Registry.TypeIndex.{shown, shown-index_type, shown-drop_from_type}

-- Every id that is shown under a type is registered, with that type.
pub record IsSound (r : Registry) : Type 0 where
  pub at :
      (id t : String)
      → shown id t r.by_type ≡ true
      → (info : ComponentInfo) × (Dict.get id r.components ≡ some info) × (info.component_type ≡ t)

-- An id that is registered again keeps its type.
abbrev pub KeepsType : Registry → String → String → Type 0
KeepsType r id t =
    (info : ComponentInfo) → Dict.get id r.components ≡ some info → info.component_type ≡ t

module _ (r : Registry) (h : IsSound r) where
  set_component-IsSound :
      (id : String) (old info : ComponentInfo)
      → Dict.get id r.components ≡ some old
      → info.component_type ≡ old.component_type
      → IsSound (set_component id info r)
  set_component-IsSound id old info found same = record {
    at = λ j t s. elim (Bool-cases (id == j)) [
      | inl e ↦ let (x, p, q) = h.at j t s in (info, rw (get-put, e), ground (arith, eq_iff id j))
      | inr e ↦ rw (get-put, e) (h.at j t s)
    ];
  }

  register-IsSound :
      (id t address : String) (capabilities : Dict String) (now : ℕ)
      → KeepsType r id t
      → IsSound (register id t address capabilities now r).0
  unfolding register
  register-IsSound id t address capabilities now keeps = record {
    at = λ j u s. elim (Bool-cases (id == j)) [
      | inl e ↦ (new_info id t address capabilities now, rw (get-put, e), new_type j u s e)
      | inr e ↦ rw (get-put, e) (h.at j u (ground (arith, shown-index_type j u t id r.by_type)))
    ];
  }
    where
      new_type :
          (j u : String) → shown j u (index_type t id r.by_type) ≡ true → (id == j) ≡ true → t ≡ u
      new_type j u s e = elim (Bool-cases (t == u)) [
        | inl same ↦ (eq_iff t u).0 same
        | inr other ↦
            let (x, p, q) = h.at j u (ground (arith, shown-index_type j u t id r.by_type)) in
            ground (arith, eq_iff id j, keeps x)
      ]

  unregister-IsSound : (id : String) → IsSound (unregister id r).0
  unregister-IsSound id = unregister_cases IsSound id r h λ info found. record {
    at = λ j u s. elim (Bool-cases (id == j)) [
      | inl e ↦ absurd (gone info found j u s e)
      | inr e ↦
          rw (get-remove, e)
            (h.at j u (ground (arith, shown-drop_from_type j u info.component_type id r.by_type)))
    ];
  }
    where
      gone :
          (info : ComponentInfo)
          → Dict.get id r.components ≡ some info
          → (j u : String) → shown j u (drop_from_type info.component_type id r.by_type) ≡ true
          → (id == j) ≡ true
          → ⊥
      gone info found j u s e =
          let kept : shown j u r.by_type ≡ true =
            ground (arith, shown-drop_from_type j u info.component_type id r.by_type) in
          let (x, p, q) = h.at j u kept in
          ground (
            arith,
            eq_iff id j,
            eq_iff info.component_type u,
            shown-drop_from_type j u info.component_type id r.by_type,
          )

abbrev pub Allowed : Registry → Op → Type 0
Allowed r (registers id t address capabilities now) = KeepsType r id t
Allowed r op = Unit {0}

-- Each registration along the history is of a new id, or of an id under the type that it had.
abbrev pub KeepTypes : Registry → List Op → Type 0
KeepTypes r [] = Unit {0}
KeepTypes r (op ∷ ops) = Allowed r op × KeepTypes (step r op) ops

step-IsSound : (r : Registry) (op : Op) → IsSound r → Allowed r op → IsSound (step r op)
unfolding step
step-IsSound r (registers id t address capabilities now) h k =
    register-IsSound r h id t address capabilities now k
step-IsSound r (unregisters id) h k = unregister-IsSound r h id
step-IsSound r (beats id state now) h k =
    update_heartbeat_cases IsSound id r h state now
      λ info e. set_component-IsSound r h id info _ e refl
step-IsSound r (takes id) h k =
    get_pending_commands_cases IsSound id r h λ info e. set_component-IsSound r h id info _ e refl
step-IsSound r (queues id command) h k =
    queue_command_cases IsSound id r h command λ info e. set_component-IsSound r h id info _ e refl

-- From a registry whose index shows under each type only registered components of that type, any
-- calls that never register an id under a second type lead to such a registry again.
pub run-IsSound : (r : Registry) (ops : List Op) → IsSound r → KeepTypes r ops → IsSound (run r ops)
unfolding run
run-IsSound r [] h k = h
run-IsSound r (op ∷ ops) h k = run-IsSound (step r op) ops (step-IsSound r op h k.0) k.1
