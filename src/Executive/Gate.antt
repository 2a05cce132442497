-- ===== src/Executive/Gate.antt =====
-- The quality gate: which heuristics it lets through.
use glady_s.Prelude.{
  ℕ, ◌≤◌, ◌≡◌, refl, ◌↔◌, ◌⊎◌, inl, inr, String, true, Option, none, some, eq_iff, arith,
}
use glady_s.Prelude.Tests.{ltb, if◌then◌else◌, Bool-cases}
use glady_s.Prelude.Strings.{word_count}
use glady_s.Outcome.{Outcome, returned}
use glady_s.Json.{Json, null, boolean, number, text, array, object, Fields, get_field}
use glady_s.Executive.Feedback.{
  condition_too_long, condition_too_short, GateError, kind_known, check_message, check_type,
  check_action, check_heuristic_quality,
}

-- From 10 to 50 words.
abbrev pub HasLength : String → Type 0
HasLength s = (10 ≤ word_count s) × (word_count s ≤ 50)

abbrev pub IsMessage : Option Json → Type 0
IsMessage o = (s : String) × (o ≡ some (text s)) × HasLength s

abbrev pub IsKind : Option Json → Type 0
IsKind o = (s : String) × (o ≡ some (text s)) × ((s ≡ "suggest") ⊎ ((s ≡ "remind") ⊎ (s ≡ "warn")))

abbrev pub IsAction : Json → Type 0
IsAction action =
    (fs : Fields) × (action ≡ object fs)
    × IsKind (get_field "type" fs)
    × IsMessage (get_field "message" fs)

check_message-none : (o : Option Json) → check_message o ≡ returned none → IsMessage o
check_message-none none h = absurd (ground arith)
check_message-none (some null) h = absurd (ground arith)
check_message-none (some (boolean b)) h = absurd (ground arith)
check_message-none (some (number z)) h = absurd (ground arith)
check_message-none (some (text s)) h = (s, refl, (ground arith, ground arith))
check_message-none (some (array vs)) h = absurd (ground arith)
check_message-none (some (object fs)) h = absurd (ground arith)

message_passes : (o : Option Json) → IsMessage o → check_message o ≡ returned none
message_passes o (s, e, (low, high)) = rw e (ground arith)

kind_known-IsKind : (v : Json) → kind_known v ≡ true → IsKind (some v)
kind_known-IsKind null h = absurd (ground arith)
kind_known-IsKind (boolean b) h = absurd (ground arith)
kind_known-IsKind (number z) h = absurd (ground arith)
kind_known-IsKind (text s) h =
    (s, refl, ground (arith, eq_iff s "suggest", eq_iff s "remind", eq_iff s "warn"))
kind_known-IsKind (array vs) h = absurd (ground arith)
kind_known-IsKind (object fs) h = absurd (ground arith)

check_type-none :
    (o : Option Json) (fs : Fields)
    → check_type o fs ≡ returned none
    → IsKind o × IsMessage (get_field "message" fs)
check_type-none none fs h = absurd (ground arith)
check_type-none (some v) fs h = elim (Bool-cases (kind_known v)) [
  | inl e ↦ (kind_known-IsKind v e, check_message-none (get_field "message" fs) (rw e at h))
  | inr e ↦ absurd (ground arith)
]

type_passes :
    (o : Option Json) (fs : Fields)
    → IsKind o
    → IsMessage (get_field "message" fs)
    → check_type o fs ≡ returned none
type_passes o fs (s, e, known) message = rw e (rw kind_s (message_passes _ message))
  where
    kind_s : kind_known (text s) ≡ true
    kind_s = ground (arith, eq_iff s "suggest", eq_iff s "remind", eq_iff s "warn")

check_action-none : (action : Json) → check_action action ≡ returned none → IsAction action
check_action-none null h = absurd (ground arith)
check_action-none (boolean b) h = absurd (ground arith)
check_action-none (number z) h = absurd (ground arith)
check_action-none (text s) h = absurd (ground arith)
check_action-none (array vs) h = absurd (ground arith)
check_action-none (object fs) h =
    let (kind, message) = check_type-none (get_field "type" fs) fs h in (fs, refl, kind, message)

action_passes : (action : Json) → IsAction action → check_action action ≡ returned none
action_passes action (fs, e, kind, message) =
    rw e (type_passes (get_field "type" fs) fs kind message)

abbrev gated : ℕ → Outcome (Option GateError) → Outcome (Option GateError)
gated n o =
    if ltb n 10
    then returned (some (condition_too_short n))
    else if ltb 50 n
    then returned (some (condition_too_long n))
    else o

length_passed :
    (n : ℕ) (o : Outcome (Option GateError))
    → gated n o ≡ returned none
    → ((10 ≤ n) × (n ≤ 50)) × (o ≡ returned none)
length_passed n o h = elim (Bool-cases (ltb n 10)) [
  | inl e ↦ absurd (ground arith)
  | inr e ↦ elim (Bool-cases (ltb 50 n)) [
    | inl d ↦ absurd (ground arith)
    | inr d ↦ ((ground arith, ground arith), rw (e, d) at h)
  ]
]

length_passes :
    (n : ℕ) (o : Outcome (Option GateError))
    → (10 ≤ n) × (n ≤ 50)
    → o ≡ returned none
    → gated n o ≡ returned none
length_passes n o (low, high) e = rw e (ground arith)

-- The gate lets a heuristic through exactly when its condition has 10 to 50 words and its action is
-- an object whose type is "suggest", "remind" or "warn" and whose message is a text of 10 to 50 words.
pub check_heuristic_quality-none_iff :
    (condition : String) (action : Json)
    → (check_heuristic_quality condition action ≡ returned none)
      ↔ (HasLength condition × IsAction action)
unfolding check_heuristic_quality
check_heuristic_quality-none_iff condition action = (
  λ h.
      let (long, e) = length_passed (word_count condition) (check_action action) h in
      (long, check_action-none action e),
  λ good.
      length_passes (word_count condition) (check_action action) good.0
        (action_passes action good.1),
)
