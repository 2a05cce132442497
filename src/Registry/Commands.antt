-- ===== src/Registry/Commands.antt =====
-- Commands wait in order and are handed over once.
use glady_s.Prelude.{
  String, ◌≡◌, ◌≢◌, ◌∙◌, inl, inr, refl, some, List, [], ◌∷◌, ◌++◌, eq_iff, arith,
}
use mathlib.Core.List.{append_assoc, append-nil}
use glady_s.Prelude.Tests.{Option-cases}
use glady_s.Prelude.Dict
use glady_s.Prelude.Dict.{get-put}
use glady_s.Registry.{Registry, ComponentInfo, CommandDict, queue_command, get_pending_commands}

-- Several `queue_command` calls for one component, the first command first.
pub queue_all : String → List CommandDict → Registry → Registry
queue_all id [] r = r
queue_all id (c ∷ cs) r = queue_all id cs (queue_command id c r).0

abbrev pub with_commands : ComponentInfo → List CommandDict → ComponentInfo
with_commands info cs = record info { pending_commands = cs }

pub get-queue_all :
    (id : String) (cs : List CommandDict) (r : Registry) (info : ComponentInfo)
    → Dict.get id r.components ≡ some info
    → Dict.get id (queue_all id cs r).components
      ≡ some (with_commands info (info.pending_commands ++ cs))
unfolding queue_all queue_command
get-queue_all id [] r info h = rw (append-nil, h)
get-queue_all id (c ∷ cs) r info h =
    let r' = (queue_command id c r).0 in
    let step : Dict.get id r'.components
        ≡ some (with_commands info (info.pending_commands ++ c ∷ [])) =
      rw (h, queue_command) (rw get-put (ground (arith, eq_iff id id))) in
    let ih = get-queue_all id cs r' (with_commands info (info.pending_commands ++ c ∷ [])) step in
    rw ih (rw append_assoc refl)

get-queue_command_ne :
    (id j : String) (c : CommandDict) (r : Registry)
    → id ≢ j
    → Dict.get j (queue_command id c r).0.components ≡ Dict.get j r.components
unfolding queue_command
get-queue_command_ne id j c r ne = elim (Option-cases (Dict.get id r.components)) [
  | inl e ↦ rw (e, queue_command) refl
  | inr (info, e) ↦ rw (e, queue_command) (rw get-put (ground (arith, eq_iff id j)))
]

get-queue_all_ne :
    (id j : String) (cs : List CommandDict) (r : Registry)
    → id ≢ j
    → Dict.get j (queue_all id cs r).components ≡ Dict.get j r.components
unfolding queue_all
get-queue_all_ne id j [] r ne = refl
get-queue_all_ne id j (c ∷ cs) r ne =
    get-queue_all_ne id j cs (queue_command id c r).0 ne ∙ get-queue_command_ne id j c r ne

-- For a registered component, `get_pending_commands` after any number of `queue_command` calls
-- returns the commands that waited before and then the new ones, in order; a second call returns
-- none; and no other component has changed.
pub get_pending_commands-queue_all :
    (id : String) (cs : List CommandDict) (r : Registry) (info : ComponentInfo)
    → Dict.get id r.components ≡ some info
    → let taken = get_pending_commands id (queue_all id cs r) in
      (taken.1 ≡ info.pending_commands ++ cs)
      × ((get_pending_commands id taken.0).1 ≡ [])
      × ((j : String) → id ≢ j → Dict.get j taken.0.components ≡ Dict.get j r.components)
unfolding get_pending_commands
get_pending_commands-queue_all id cs r info h =
    let e = get-queue_all id cs r info h in
    (
      rw (e, get_pending_commands) refl,
      rw (e, get_pending_commands) (rw get-put (ground (arith, eq_iff id id))),
      λ j ne.
          rw (e, get_pending_commands)
            (rw get-put (ground (arith, eq_iff id j, get-queue_all_ne id j cs r))),
    )
