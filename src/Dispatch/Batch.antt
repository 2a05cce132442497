-- ===== src/Dispatch/Batch.antt =====
-- The choice of what a batch sends: `_is_threat` and `emit_batch` of events.py up to `_send`.
use glady_s.Prelude.{
  ℕ, suc, ◌-◌, String, Bool, true, false, not, ◌&&◌, ◌||◌, Option, none, some, List, [], ◌∷◌, map,
}
use glady_s.Prelude.Tests.{nat_eq, ltb, if◌then◌else◌}
use glady_s.Prelude.Lists.{length, take, keep, exists}
use glady_s.Prelude.Sorting.{sort_by}
use glady_s.Prelude.Ints.{ℤ, pos, negsuc, at_least}
use glady_s.FlowControl.{FlowStrategy, available_tokens, consume}

-- The salience of an event: none, a dictionary or an object, with the threat if it has one.
pub data SalienceField : Type 0 where
  absent : SalienceField
  as_dict as_object : Option ℕ → SalienceField

-- An event is a dictionary or a message.
pub record SensorEvent : Type 0 where
  pub is_dict : Bool
  pub salience : SalienceField
  pub raw_text : String

abbrev truth : Option ℕ → Bool
truth none = false
truth (some n) = not (nat_eq n 0)

abbrev threat_in : Bool → SalienceField → Bool
threat_in is_dict absent = false
threat_in is_dict (as_object t) = truth t
threat_in true (as_dict t) = truth t
threat_in false (as_dict t) = false

unfoldable pub is_threat : SensorEvent → Bool
is_threat e = threat_in e.is_dict e.salience

abbrev pub Indexed : Type 0
Indexed = ℕ × SensorEvent

abbrev pub enumerate : ℕ → List SensorEvent → List Indexed
enumerate n [] = []
enumerate n (e ∷ es) = (n, e) ∷ enumerate (suc n) es

abbrev pub threat_at : Indexed → Bool
threat_at x = is_threat x.1

unfoldable pub partition_threats : List SensorEvent → List Indexed × List Indexed
partition_threats events =
    (keep threat_at (enumerate 0 events), keep (λ x. not (threat_at x)) (enumerate 0 events))

abbrev pub Scored : Type 0
Scored = ℕ × SensorEvent × ℕ

-- The key (-priority, index).
abbrev pub precedes : Scored → Scored → Bool
precedes (i, e, p) (j, f, q) = ltb q p || (nat_eq p q && ltb i j)

abbrev pub score : (SensorEvent → ℕ) → Indexed → Scored
score priority (i, e) = (i, e, priority e)

abbrev pub index_lt : Scored → Scored → Bool
index_lt x y = ltb x.0 y.0

abbrev pub unscored : Scored → Indexed
unscored (i, e, p) = (i, e)

unfoldable pub select_by_priority : Option (SensorEvent → ℕ) → List Indexed → ℕ → List Indexed
select_by_priority none candidates budget = take budget candidates
select_by_priority (some priority) candidates budget =
    let scored = sort_by precedes (map (score priority) candidates) in
    map unscored (sort_by index_lt (take budget scored))

abbrev pub has_index : ℕ → List Indexed → Bool
has_index i xs = exists (λ x. nat_eq x.0 i) xs

unfoldable pub reorder_original : List SensorEvent → List Indexed → List Indexed → List SensorEvent
reorder_original original threats kept =
    map (λ (x : Indexed). x.1)
      (keep (λ x. has_index x.0 threats || has_index x.0 kept) (enumerate 0 original))

abbrev pub nat_of : ℤ → ℕ
nat_of (pos n) = n
nat_of (negsuc n) = 0

-- The strategy afterwards, what of the candidates is kept, and how many are not.
unfoldable pub within_budget :
    List Indexed → Option (SensorEvent → ℕ) → FlowStrategy × ℤ → FlowStrategy × List Indexed × ℕ
within_budget candidates priority (s, budget) =
    if at_least (length candidates) budget
    then (consume (length candidates) s, candidates, 0)
    else if not (at_least 1 budget)
    then (s, [], length candidates)
    else (let kept = select_by_priority priority candidates (nat_of budget) in
        (consume (length kept) s, kept, length candidates - length kept))

-- The tokens are asked for only when there are candidates.
unfoldable pub selection :
    ℕ
    → List SensorEvent
    → FlowStrategy
    → Option (SensorEvent → ℕ)
    → FlowStrategy × List SensorEvent × ℕ
selection now events s priority = elim (partition_threats events).1 [
  | [] ↦ (s, reorder_original events (partition_threats events).0 [], 0)
  | c ∷ cs ↦
      let (threats, candidates) = partition_threats events in
      let (s', kept, suppressed) = within_budget candidates priority (available_tokens now s) in
      (s', reorder_original events threats kept, suppressed)
]
