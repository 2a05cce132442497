-- ===== src/Memory/Beta.antt =====
-- The confidence of a heuristic: what a sequence of feedback makes of it.
use glady_s.Prelude.{
  zero, suc, ◌≤◌, suc, ◌*◌, ◌<◌, ◌==◌, eq_iff, inl, inr, ℕ, ◌+◌, ◌≡◌, refl, ap, ◌∙◌, String, Bool,
  true, false, Option, none, some, List, [], ◌∷◌, arith,
}
use native.Mathlib.Nat.{mul-add, add-mul, mul_comm, mul-pos, mul-lt-mul_of_pos_left}
use glady_s.Prelude.Tests.{leb, if◌then◌else◌, Option-cases}
use glady_s.Prelude.Dict
use glady_s.Prelude.Dict.{get-put}
use glady_s.Memory.{Confidence, HeuristicRow, Tables}
use glady_s.Memory.Fires.{update_most_recent_fire, update_fire_outcome, most_recent, waits_for}
use glady_s.Memory.Heuristics.{
  one, inserted, NewHeuristic, store_heuristic, magnitude_or_one, beta_mean, weigh, outcome_of,
  update_heuristic_confidence,
}

-- One answer of feedback: its sign, its magnitude, where it came from and when.
pub record Feedback : Type 0 where
  pub positive : Bool
  pub magnitude : ℕ
  pub feedback_source : String
  pub now : ℕ

-- Feedback after feedback on one heuristic; the first that raises ends the run.
unfoldable pub run_updates : String → List Feedback → Tables → Option Tables
run_updates id [] t = some t
run_updates id (f ∷ fs) t =
    elim (update_heuristic_confidence id f.positive f.magnitude f.feedback_source f.now t) [
      | none ↦ none
      | some (t', old, new) ↦ run_updates id fs t'
    ]

-- The sum of the magnitudes of one sign.
unfoldable pub positives : List Feedback → ℕ
positives [] = 0
positives (f ∷ fs) = (if f.positive then magnitude_or_one f.magnitude else 0) + positives fs

unfoldable pub negatives : List Feedback → ℕ
negatives [] = 0
negatives (f ∷ fs) = (if f.positive then 0 else magnitude_or_one f.magnitude) + negatives fs

update_fire_heuristics :
    (id outcome source : String) (now : ℕ) (t : Tables)
    → (update_most_recent_fire id outcome source now t).0.heuristics ≡ t.heuristics
unfolding update_most_recent_fire update_fire_outcome
update_fire_heuristics id outcome source now t =
    elim (Option-cases (most_recent (waits_for id) t.heuristic_fires)) [
      | inl e ↦ rw (e, update_most_recent_fire) refl
      | inr (f, e) ↦ rw (e, update_most_recent_fire) refl
    ]

abbrev updated_tables : String → Feedback → HeuristicRow → Tables → Tables
updated_tables id f row t =
    (update_most_recent_fire id (outcome_of f.positive) f.feedback_source f.now (record t {
      heuristics = Dict.put id (weigh f.positive (magnitude_or_one f.magnitude) row) t.heuristics;
    })).0

update_present :
    (id : String) (f : Feedback) (row : HeuristicRow) (t : Tables)
    → Dict.get id t.heuristics ≡ some row
    → update_heuristic_confidence id f.positive f.magnitude f.feedback_source f.now t
      ≡ some (
        updated_tables id f row t,
        row.confidence,
        (weigh f.positive (magnitude_or_one f.magnitude) row).confidence,
      )
unfolding update_heuristic_confidence
update_present id f row t e = rw (e, update_heuristic_confidence) refl

same_id : (id : String) → (id == id) ≡ true
same_id id = ground (arith, eq_iff id id)

update_found :
    (id : String) (f : Feedback) (row : HeuristicRow) (t : Tables)
    → Dict.get id (updated_tables id f row t).heuristics
      ≡ some (weigh f.positive (magnitude_or_one f.magnitude) row)
update_found id f row t =
    ap (Dict.get id) (update_fire_heuristics id _ _ _ _)
    ∙ get-put id id _ t.heuristics
    ∙ rw (same_id id) refl

-- The mean of the counts.
abbrev pub IsMean : HeuristicRow → Type 0
IsMean row = row.confidence ≡ beta_mean row.alpha row.beta

abbrev pub Totals : String → List Feedback → HeuristicRow → Option Tables → Type 0
Totals id fs row o =
    (t' : Tables) × (row' : HeuristicRow) × (o ≡ some t')
    × (Dict.get id t'.heuristics ≡ some row')
    × (row'.alpha ≡ row.alpha + positives fs)
    × (row'.beta ≡ row.beta + negatives fs)
    × IsMean row'

abbrev Weighed : Bool → ℕ → HeuristicRow → Type 0
Weighed positive m row =
    ((weigh positive m row).alpha ≡ row.alpha + (if positive then m else 0))
    × ((weigh positive m row).beta ≡ row.beta + (if positive then 0 else m))
    × IsMean (weigh positive m row)

weigh-counts : (positive : Bool) (m : ℕ) (row : HeuristicRow) → Weighed positive m row
weigh-counts true m row = (refl, omega arith, refl)
weigh-counts false m row = (omega arith, refl, refl)

-- Feedback on a heuristic that is there, whose confidence is the mean of its counts, never raises.
-- It adds the magnitudes to the two counts by their sign, and the confidence is the mean again, so
-- the order of the feedback does not matter to the counts and the confidence.
pub run_updates-Totals :
    (id : String) (fs : List Feedback) (row : HeuristicRow) (t : Tables)
    → Dict.get id t.heuristics ≡ some row
    → IsMean row
    → Totals id fs row (run_updates id fs t)
unfolding run_updates positives negatives
run_updates-Totals id [] row t e mean = (t, row, refl, e, omega arith, omega arith, mean)
run_updates-Totals id (f ∷ fs) row t e mean =
    let row1 = weigh f.positive (magnitude_or_one f.magnitude) row in
    let (a1, b1, mean1) = weigh-counts f.positive (magnitude_or_one f.magnitude) row in
    let (t', row', ran, found, a, b, mean') =
      run_updates-Totals id fs row1 (updated_tables id f row t) (update_found id f row t) mean1 in
    (
      t',
      row',
      rw (update_present id f row t e, run_updates) ran,
      found,
      omega (arith, a1, a),
      omega (arith, b1, b),
      mean',
    )

-- The first confidence is below the second.
abbrev pub IsBelow : Confidence → Confidence → Type 0
IsBelow c d = c.over * d.under < d.over * c.under

magnitude_pos : (m : ℕ) → 0 < magnitude_or_one m
magnitude_pos zero = omega arith
magnitude_pos (suc m) = omega arith

up : (a b m : ℕ) → 0 < b → 0 < m → a * (a + m + b) < (a + m) * (a + b)
up a b m hb hm = omega (
  arith,
  mul-add a (a + m) b,
  mul-add a a m,
  add-mul a m (a + b),
  mul-add a a b,
  mul-add m a b,
  mul_comm a m,
  mul-pos hm hb,
)

down : (a b m : ℕ) → 0 < a → 0 < m → a * (a + b) < a * (a + (b + m))
down a b m ha hm = mul-lt-mul_of_pos_left (omega arith) ha

-- Where the confidence is the mean of positive counts, feedback moves it strictly up or down by its
-- sign, and it stays strictly between 0 and 1.
pub weigh-IsBelow :
    (positive : Bool) (magnitude : ℕ) (row : HeuristicRow)
    → IsMean row
    → 0 < row.alpha
    → 0 < row.beta
    → let row' = weigh positive (magnitude_or_one magnitude) row in
      (if positive
        then IsBelow row.confidence row'.confidence
        else IsBelow row'.confidence row.confidence)
      × (0 < row'.confidence.over)
      × (row'.confidence.over < row'.confidence.under)
weigh-IsBelow true magnitude row mean ha hb = (
  rw mean (up row.alpha row.beta (magnitude_or_one magnitude) hb (magnitude_pos magnitude)),
  omega arith,
  omega arith,
)
weigh-IsBelow false magnitude row mean ha hb = (
  rw mean (down row.alpha row.beta (magnitude_or_one magnitude) ha (magnitude_pos magnitude)),
  ha,
  omega (arith, magnitude_pos magnitude),
)

weigh_mean :
    (positive : Bool) (m : ℕ) (row : HeuristicRow)
    → (weigh positive m row).confidence
      ≡ beta_mean (row.alpha + (if positive then m else 0)) (row.beta + (if positive then 0 else m))
weigh_mean true m row = ap (beta_mean (row.alpha + m)) (omega arith)
weigh_mean false m row = ap (λ a. beta_mean a (row.beta + m)) (omega arith)

-- The first feedback on a new heuristic forgets the confidence that it was stored with, whatever it
-- was: with a magnitude m the new confidence is (1 + m) / (2 + m) or 1 / (2 + m) by the sign.
pub update_heuristic_confidence-store_heuristic :
    (h : NewHeuristic) (f : Feedback) (t : Tables)
    → Dict.get h.id t.heuristics ≡ none
    → h.confidence ≤ one
    → let m = magnitude_or_one f.magnitude in
      (t1 : Tables) × (t2 : Tables) × (store_heuristic h t ≡ some t1)
      × (update_heuristic_confidence h.id f.positive f.magnitude f.feedback_source f.now t1
          ≡ some (
            t2,
            record { over = h.confidence; under = one },
            beta_mean (one + (if f.positive then m else 0)) (one + (if f.positive then 0 else m)),
          ))
unfolding store_heuristic
update_heuristic_confidence-store_heuristic h f t absent sure = (
  stored,
  updated_tables h.id f (inserted h) stored,
  rw (lt, absent) refl,
  update_present h.id f (inserted h) stored found
      ∙ ap
          (λ c. some (
            updated_tables h.id f (inserted h) stored,
            record { over = h.confidence; under = one },
            c,
          ))
          (weigh_mean f.positive (magnitude_or_one f.magnitude) (inserted h)),
)
  where
    stored : Tables
    stored = record t { heuristics = Dict.put h.id (inserted h) t.heuristics }

    lt : leb h.confidence one ≡ true
    lt = ground arith

    found : Dict.get h.id stored.heuristics ≡ some (inserted h)
    found = get-put h.id h.id (inserted h) t.heuristics ∙ rw (same_id h.id) refl
