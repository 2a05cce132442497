-- ===== src/Registry/Resolve.antt =====
-- What `get_by_type` answers.
use glady_s.Prelude.{
  ℕ, String, ◌≡◌, ◌≢◌, ◌↔◌, inl, inr, refl, true, Option, none, some, List, [], ◌∷◌, eq_iff, arith,
}
use glady_s.Prelude.Tests.{Bool-cases, Option-cases}
use glady_s.Prelude.Dict
use glady_s.Prelude.Dict.{Dict, get-put}
use glady_s.Registry.{
  Registry, ComponentInfo, active, is_active, listed, ids_of, first_active, get_by_id, get_by_type,
  or_first, index_type, add_id, new_info, register,
}
use glady_s.Registry.Soundness.{IsSound}
use glady_s.Registry.TypeIndex.{IsComplete, shown}

is_active-some :
    (o : Option ComponentInfo)
    → is_active o ≡ true
    → (info : ComponentInfo) × (o ≡ some info) × (info.state ≡ active)
is_active-some none h = absurd (ground arith)
is_active-some (some info) h = (info, refl, ground arith)

-- The answer of the scan is active, and is the component of an id on the list.
first_active-listed :
    (ids : List String) (r : Registry) (info : ComponentInfo)
    → first_active ids r ≡ some info
    → (id : String) × (listed id ids ≡ true) × (get_by_id id r ≡ some info) × (info.state ≡ active)
unfolding first_active
first_active-listed [] r info h = absurd (ground arith)
first_active-listed (id ∷ ids) r info h = elim (Bool-cases (is_active (get_by_id id r))) [
  | inl yes' ↦
      let (x, e, s) = is_active-some (get_by_id id r) yes' in
      (id, ground (arith, eq_iff id id), ground arith, ground arith)
  | inr no' ↦
      let (j, l, g, s) = first_active-listed ids r info (ground arith) in (j, ground arith, g, s)
]

-- The scan finds an active component when one is on the list.
first_active_total :
    (ids : List String) (r : Registry) (id : String) (info : ComponentInfo)
    → listed id ids ≡ true
    → get_by_id id r ≡ some info
    → info.state ≡ active
    → (found : ComponentInfo) × (first_active ids r ≡ some found)
unfolding first_active
first_active_total [] r id info l g s = absurd (ground arith)
first_active_total (j ∷ ids) r id info l g s = elim (Bool-cases (is_active (get_by_id j r))) [
  | inl yes' ↦ let (x, e, a) = is_active-some (get_by_id j r) yes' in (x, rw yes' e)
  | inr no' ↦
      let (found, e) = first_active_total ids r id info (ground (arith, eq_iff j id)) g s in
      (found, rw (no', e) refl)
]

-- Any answer is the component of an id on the list.
answer-listed :
    (ids : List String) (r : Registry) (info : ComponentInfo)
    → or_first (first_active ids r) ids r ≡ some info
    → (id : String) × (listed id ids ≡ true) × (get_by_id id r ≡ some info)
answer-listed ids r info h = elim (Option-cases (first_active ids r)) [
  | inl e ↦ head ids (rw e at h)
  | inr (x, e) ↦
      let (id, l, g, s) = first_active-listed ids r x e in (id, l, ground (arith, rw e at h))
]
  where
    head :
        (js : List String)
        → or_first none js r ≡ some info
        → (id : String) × (listed id js ≡ true) × (get_by_id id r ≡ some info)
    head [] p = absurd (ground arith)
    head (id ∷ js) p = (id, ground (arith, eq_iff id id), p)

-- In a registry with a sound index, whatever `get_by_type` answers has the type that was asked for.
pub type-get_by_type :
    (t : String) (r : Registry) (info : ComponentInfo)
    → IsSound r
    → get_by_type t r ≡ some info
    → info.component_type ≡ t
unfolding get_by_type
type-get_by_type t r info sound h =
    let (id, l, g) = answer-listed (ids_of (Dict.get t r.by_type)) r info h in
    let (x, e, q) = sound.at id t l in ground arith

-- If the index lists every registered component and some component of the type is active, then
-- `get_by_type` answers, and with an active component.
pub get_by_type-active :
    (t id : String) (r : Registry) (info : ComponentInfo)
    → IsComplete r
    → get_by_id id r ≡ some info
    → info.component_type ≡ t
    → info.state ≡ active
    → (found : ComponentInfo) × (get_by_type t r ≡ some found) × (found.state ≡ active)
unfolding get_by_type
get_by_type-active t id r info complete g k s =
    let l : shown id t r.by_type ≡ true = rw k at (complete.at id info g) in
    let (found, e) = first_active_total (ids_of (Dict.get t r.by_type)) r id info l g s in
    let (j, lj, gj, sj) = first_active-listed (ids_of (Dict.get t r.by_type)) r found e in
    (found, rw e refl, sj)

-- If the index lists every registered component, and under each type only registered components
-- of that type, then `get_by_type` answers nothing exactly when no component of the type is
-- registered.
pub get_by_type-eq-none_iff :
    (t : String) (r : Registry)
    → IsComplete r
    → IsSound r
    → (get_by_type t r ≡ none) ↔ (
        (id : String) (info : ComponentInfo) → get_by_id id r ≡ some info → info.component_type ≢ t)
unfolding get_by_type
get_by_type-eq-none_iff t r complete sound = (forth, back)
  where
    back :
        ((id : String) (info : ComponentInfo)
          → get_by_id id r ≡ some info
          → info.component_type ≢ t)
        → get_by_type t r ≡ none
    back no_such = elim (Option-cases (get_by_type t r)) [
      | inl e ↦ e
      | inr (info, e) ↦
          let (id, l, g) = answer-listed (ids_of (Dict.get t r.by_type)) r info e in
          absurd (no_such id info g (type-get_by_type t r info sound e))
    ]

    head :
        (ids : List String) (id : String)
        → ((j : String) → listed j ids ≡ true → get_by_id j r ≢ none)
        → listed id ids ≡ true
        → or_first none ids r ≢ none
    head [] id known l e = absurd (ground arith)
    head (j ∷ ids) id known l e = known j (ground (arith, eq_iff j j)) e

    known : (j : String) → shown j t r.by_type ≡ true → get_by_id j r ≢ none
    known j l e = let (x, p, q) = sound.at j t l in ground arith

    forth :
        get_by_type t r ≡ none
        → (id : String) (info : ComponentInfo) → get_by_id id r ≡ some info
        → info.component_type ≢ t
    forth e id info g k =
        let l : shown id t r.by_type ≡ true = rw k at (complete.at id info g) in
        elim (Option-cases (first_active (ids_of (Dict.get t r.by_type)) r)) [
          | inl n ↦ head (ids_of (Dict.get t r.by_type)) id known l (rw n at e)
          | inr (x, n) ↦ ground (arith, rw n at e)
        ]

index_twice :
    (id t u : String) (index : Dict (List String))
    → Dict.get t index ≡ none
    → t ≢ u
    → Dict.get t (index_type u id (index_type t id index)) ≡ some (id ∷ [])
index_twice id t u index fresh ne = rw (get-put u t) (
    ground
      (arith, eq_iff u t, eq_iff t t, get-put t t (add_id id (ids_of (Dict.get t index))) index))

get-register_twice :
    (id t u address : String) (capabilities : Dict String) (now later : ℕ) (r : Registry)
    → get_by_id id
        (register id u address capabilities later (register id t address capabilities now r).0).0
      ≡ some (new_info id u address capabilities later)
unfolding register
get-register_twice id t u address capabilities now later r =
    rw get-put (ground (arith, eq_iff id id))

-- A component that registers again under a second type is still found under the first: when the
-- index had no list for `t`, `get_by_type t` answers with a component of type `u`.
pub get_by_type-stale :
    (id t u address : String) (capabilities : Dict String) (now later : ℕ) (r : Registry)
    → Dict.get t r.by_type ≡ none
    → t ≢ u
    → get_by_type t
        (register id u address capabilities later (register id t address capabilities now r).0).0
      ≡ some (new_info id u address capabilities later)
unfolding get_by_type first_active
get_by_type-stale id t u address capabilities now later r fresh ne =
    let again =
      register id u address capabilities later (register id t address capabilities now r).0 in
    let e : Dict.get t again.0.by_type ≡ some (id ∷ []) =
      (unfold register in index_twice id t u r.by_type fresh ne) in
    rw e (rw (get-register_twice id t u address capabilities now later r) refl)
