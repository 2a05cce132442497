-- ===== src/Registry.antt =====
-- registry.py of the orchestrator: the components that run, an index of their ids by type, and the
-- commands that wait for each. `time.time()` is an argument of the methods that read it.
use glady_s.Prelude.{
  ℕ, String, Bool, true, false, not, ◌&&◌, Option, none, some, List, [], ◌∷◌, ◌++◌, map, ◌==◌,
}
use glady_s.Prelude.Tests.{nat_eq, if◌then◌else◌}
use glady_s.Prelude.Lists.{length, keep, exists}
use glady_s.Prelude.Dict
use glady_s.Prelude.Dict.{Dict}
pub mod Ops
pub mod TypeIndex
pub mod Soundness
pub mod Commands
pub mod Resolve
mod Examples

-- A command is the dict that the server queues.
abbrev pub CommandDict : Type 0
CommandDict = Dict String

-- COMPONENT_STATE_ACTIVE
abbrev pub active : ℕ
active = 2

pub record ComponentInfo : Type 0 where
  pub component_id : String
  pub component_type : String
  pub address : String
  pub capabilities : Dict String
  pub state : ℕ
  pub last_heartbeat_ms : ℕ
  pub metrics : Dict String
  pub pending_commands : List CommandDict

pub record Registry : Type 0 where
  pub components : Dict ComponentInfo
  pub by_type : Dict (List String)

abbrev pub empty : Registry
empty = record { components = []; by_type = [] }

abbrev pub listed : String → List String → Bool
listed id ids = exists (λ j. j == id) ids

pub record RegisterResponse : Type 0 where
  pub success : Bool
  pub error_message : String
  pub assigned_id : String

-- self._by_type.get(component_type, []), the list that the index shows for a type.
abbrev pub ids_of : Option (List String) → List String
ids_of none = []
ids_of (some ids) = ids

abbrev pub add_id : String → List String → List String
add_id id ids = if listed id ids then ids else ids ++ id ∷ []

abbrev pub index_type : String → String → Dict (List String) → Dict (List String)
index_type t id index = Dict.put t (add_id id (ids_of (Dict.get t index))) index

abbrev pub new_info : String → String → String → Dict String → ℕ → ComponentInfo
new_info id t address capabilities now = record {
  component_id = id;
  component_type = t;
  address = address;
  capabilities = capabilities;
  state = active;
  last_heartbeat_ms = now;
  metrics = [];
  pending_commands = [];
}

-- A second registration of an id replaces the first, whatever its address or type.
unfoldable pub register :
    String → String → String → Dict String → ℕ → Registry → Registry × RegisterResponse
register id t address capabilities now r = (
  record {
    components = Dict.put id (new_info id t address capabilities now) r.components;
    by_type = index_type t id r.by_type;
  },
  record { success = true; error_message = ""; assigned_id = id },
)

abbrev pub drop_from_type : String → String → Dict (List String) → Dict (List String)
drop_from_type t id index = elim (Dict.get t index) [
  | none ↦ index
  | some ids ↦ Dict.put t (keep (λ j. not (j == id)) ids) index
]

unfoldable pub unregister : String → Registry → Registry × Bool
unregister id r = elim (Dict.get id r.components) [
  | none ↦ (r, false)
  | some info ↦ (
    record {
      components = Dict.remove id r.components;
      by_type = drop_from_type info.component_type id r.by_type;
    },
    true,
  )
]

abbrev pub set_component : String → ComponentInfo → Registry → Registry
set_component id info r = record r { components = Dict.put id info r.components }

unfoldable pub update_heartbeat : String → ℕ → ℕ → Registry → Registry × Bool
update_heartbeat id state now r = elim (Dict.get id r.components) [
  | none ↦ (r, false)
  | some info ↦ (set_component id (record info { last_heartbeat_ms = now; state = state }) r, true)
]

unfoldable pub get_pending_commands : String → Registry → Registry × List CommandDict
get_pending_commands id r = elim (Dict.get id r.components) [
  | none ↦ (r, [])
  | some info ↦ (set_component id (record info { pending_commands = [] }) r, info.pending_commands)
]

unfoldable pub queue_command : String → CommandDict → Registry → Registry × Bool
queue_command id command r = elim (Dict.get id r.components) [
  | none ↦ (r, false)
  | some info ↦ (
    set_component id (record info { pending_commands = info.pending_commands ++ command ∷ [] }) r,
    true,
  )
]

abbrev pub get_by_id : String → Registry → Option ComponentInfo
get_by_id id r = Dict.get id r.components

-- `info and info.state == 2`
abbrev pub is_active : Option ComponentInfo → Bool
is_active none = false
is_active (some info) = nat_eq info.state active

-- The first active component among the ids.
unfoldable pub first_active : List String → Registry → Option ComponentInfo
first_active [] r = none
first_active (id ∷ ids) r =
    let rest = first_active ids r in if is_active (get_by_id id r) then get_by_id id r else rest

abbrev pub or_first : Option ComponentInfo → List String → Registry → Option ComponentInfo
or_first (some info) ids r = some info
or_first none [] r = none
or_first none (id ∷ ids) r = get_by_id id r

unfoldable pub get_by_type : String → Registry → Option ComponentInfo
unfolding first_active
get_by_type t r = let ids = ids_of (Dict.get t r.by_type) in or_first (first_active ids r) ids r

pub record ComponentStatus : Type 0 where
  pub component_id : String
  pub state : ℕ
  pub last_heartbeat_ms : ℕ
  pub metrics : Dict String

unfoldable pub get_all_status : Registry → List ComponentStatus
get_all_status r =
    map
      (λ (info : ComponentInfo). record {
        component_id = info.component_id;
        state = info.state;
        last_heartbeat_ms = info.last_heartbeat_ms;
        metrics = info.metrics;
      })
      (Dict.values r.components)

abbrev pub component_count : Registry → ℕ
component_count r = length r.components
