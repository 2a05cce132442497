-- ===== src/Memory/Service.antt =====
-- grpc_server.py: the calls of the memory service on heuristics and fires, over the tables. The
-- cache of the salience gateway is told of changes; that this may fail is only logged.
use glady_s.Prelude.{ℕ, String, Bool, false, ◌||◌, Option, none, some, List, [], ◌∷◌, ◌==◌}
use glady_s.Prelude.Tests.{ltb, if◌then◌else◌}
use glady_s.Prelude.Text.{codes, occurs}
use glady_s.Json.{
  Json, Items, no_items, item, null, boolean, number, text, array, object, field, no_fields, Parse,
  parsed, malformed, is_falsy,
}
use glady_s.Memory.{Confidence, FireRow, Tables}
use glady_s.Memory.Fires.{get_pending_fires, list_fires}
use glady_s.Memory.Heuristics.{NewHeuristic, store_heuristic, update_heuristic_confidence}
use glady_s.Memory.Events.{Library}

-- A reply, or the status that the call ends with.
pub data Status {ℓ} (A : Type ℓ) : Type ℓ where
  replied : A → Status A
  invalid_argument not_found internal : Status A

pub record HeuristicMessage : Type 0 where
  pub id : String
  pub name : String
  pub condition_text : String
  pub effects_json : String
  pub confidence : ℕ
  pub origin : String
  pub origin_id : String
  pub source : String

-- What a notification names: the heuristic and the change.
abbrev pub Notification : Type 0
Notification = String × String

abbrev pub some_text : String → Option String
some_text s = if s == "" then none else some s

abbrev has_message : Items → Bool
has_message no_items = false
has_message (item (text s) vs) = s == "message" || has_message vs
has_message (item v vs) = has_message vs

-- `"message" not in action` raises on a number or a Boolean that is true. A text or a list without
-- "message" in it raises at `action.keys()`; an empty one is not looked at.
abbrev checked : Json → Option Json
checked (boolean b) = if b then none else some (boolean b)
checked (number z) = if is_falsy (number z) then some (number z) else none
checked null = some null
checked (text s) = if s == "" || occurs (codes "message") (codes s) then some (text s) else none
checked (array no_items) = some (array no_items)
checked (array (item v vs)) = if has_message (item v vs) then some (array (item v vs)) else none
checked (object fs) = some (object fs)

-- A malformed text is kept as it is, under a key of its own.
abbrev action_in : String → Parse → Option Json
action_in s (malformed e) = some (object (field "raw" (text s) no_fields))
action_in s (parsed v) = checked v

abbrev pub action_of : Library → String → Option Json
action_of l s = if s == "" then some (object no_fields) else action_in s (l.loads s)

abbrev origin_or_learned : String → String
origin_or_learned s = if s == "" then "learned" else s

abbrev embedded : (String → List ℕ) → String → Option (List ℕ)
embedded embed s = if s == "" then none else some (embed s)

-- A confidence of 0 becomes one half; the embedding is made of the condition.
abbrev pub new_heuristic : (String → List ℕ) → String → Json → HeuristicMessage → NewHeuristic
new_heuristic embed id action h = record {
  id = id;
  name = h.name;
  condition = some_text h.condition_text;
  action = action;
  confidence = if ltb 0 h.confidence then h.confidence else 500000;
  embedding = embedded embed h.condition_text;
  origin = some (origin_or_learned h.origin);
  origin_id = some_text h.origin_id;
  source = some_text h.source;
}

abbrev stored_reply : Tables → String → Option Tables → Tables × List Notification × Status String
stored_reply t id none = (t, [], internal)
stored_reply t id (some t') = (t', (id, "created") ∷ [], replied id)

abbrev store_parsed :
    (String → List ℕ)
    → HeuristicMessage
    → Tables
    → Option Json
    → Option String
    → Tables × List Notification × Status String
store_parsed embed h t none uuid = (t, [], internal)
store_parsed embed h t (some action) none = (t, [], internal)
store_parsed embed h t (some action) (some id) =
    stored_reply t h.id (store_heuristic (new_heuristic embed id action h) t)

-- StoreHeuristic: `embed` makes an embedding of a text.
unfoldable pub store_heuristic_call :
    Library
    → (String → List ℕ)
    → HeuristicMessage
    → Tables
    → Tables × List Notification × Status String
store_heuristic_call l embed h t =
    store_parsed embed h t (action_of l h.effects_json) (l.parse h.id)

-- The fields of the request that are read into a decision; the prediction is only logged.
pub record UpdateRequest : Type 0 where
  pub heuristic_id : String
  pub positive : Bool
  pub magnitude : ℕ
  pub feedback_source : String

abbrev source_or_explicit : String → String
source_or_explicit s = if s == "" then "explicit" else s

abbrev updated_reply :
    Tables
    → String
    → Option (Tables × Confidence × Confidence)
    → Tables × List Notification × Status (Confidence × Confidence)
updated_reply t id none = (t, [], not_found)
updated_reply t id (some (t', old, new)) = (t', (id, "updated") ∷ [], replied (old, new))

-- `UUID` raises the same exception as a heuristic that is not there.
abbrev update_parsed :
    UpdateRequest
    → ℕ
    → Tables
    → Option String
    → Tables × List Notification × Status (Confidence × Confidence)
update_parsed r now t none = (t, [], not_found)
update_parsed r now t (some id) = updated_reply t r.heuristic_id (
    update_heuristic_confidence id r.positive r.magnitude (source_or_explicit r.feedback_source) now
      t)

-- UpdateHeuristicConfidence
unfoldable pub update_confidence_call :
    Library
    → UpdateRequest
    → ℕ
    → Tables
    → Tables × List Notification × Status (Confidence × Confidence)
update_confidence_call l r now t =
    if r.heuristic_id == ""
    then (t, [], invalid_argument)
    else update_parsed r now t (l.parse r.heuristic_id)

-- GetPendingFires: an empty id asks for all, and an age of 0 for 300 seconds.
unfoldable pub get_pending_call :
    Library → (ℕ → ℕ) → String → ℕ → ℕ → Tables → Status (List FireRow)
get_pending_call l seconds id max_age now t =
    let age = seconds (if ltb 0 max_age then max_age else 300) in
    if id == "" then replied (get_pending_fires none age now t) else elim (l.parse id) [
      | none ↦ internal
      | some uuid ↦ replied (get_pending_fires (some uuid) age now t)
    ]

-- ListFires: a limit of 0 is a hundred.
unfoldable pub list_fires_call : String → ℕ → ℕ → Tables → List FireRow × ℕ
list_fires_call outcome limit offset t =
    list_fires (some_text outcome) (if ltb 0 limit then limit else 100) offset t
