-- ===== src/Learning/Ignored.antt =====
-- Ignored fires: how many make a negative signal, and what feedback does to them.
use glady_s.Prelude.{
  not, ◌⊎◌, ℕ, zero, suc, ◌+◌, ◌*◌, ◌<◌, ◌≤◌, String, Bool, false, ◌≡◌, refl, inl, inr, Option,
  some, List, [], ◌∷◌, ◌++◌, map, eq_iff, arith,
}
use glady_s.Prelude.Tests.{leb, Bool-cases}
use glady_s.Prelude.Lists.{length, All, keep}
use glady_s.Prelude.Dict
use glady_s.Prelude.Dict.{get-put}
use glady_s.MemoryClient.{MemoryClient, MemoryCall, updates}
use glady_s.Learning.{
  LearningModule, FireRecord, count_of, apply_signal, on_heuristic_ignored, on_feedback,
  all_ignored, is_ignored, check_ignored_fires,
}
use glady_s.Learning.Strategy.{BayesianStrategyConfig}

-- The ignores of a heuristic since its last negative signal or feedback.
abbrev pub ignores : String → LearningModule → ℕ
ignores id m = count_of (Dict.get id m.ignore_counts)

unfoldable pub ignore_times :
    ℕ → Option MemoryClient → String → LearningModule → LearningModule × List MemoryCall
ignore_times zero client id m = (m, [])
ignore_times (suc n) client id m =
    let (m', calls) = on_heuristic_ignored client id m in
    let (m'', later) = ignore_times n client id m' in (m'', calls ++ later)

abbrev pub ignored_update : String → BayesianStrategyConfig → MemoryCall
ignored_update id c = updates (record {
  heuristic_id = id;
  positive = false;
  magnitude = c.implicit_magnitude;
  predicted_success = 0;
  feedback_source = "implicit_ignored";
})

abbrev threshold : LearningModule → ℕ
threshold m = m.strategy.ignored_threshold

-- One ignore, below the threshold or at it.
abbrev pub Ignored :
    MemoryClient → String → LearningModule → LearningModule × List MemoryCall → Type 0
Ignored c id m (m', calls) =
    (m'.strategy ≡ m.strategy)
    × (((suc (ignores id m) < m.strategy.ignored_threshold)
          × (ignores id m' ≡ suc (ignores id m))
          × (calls ≡ []))
        ⊎ ((m.strategy.ignored_threshold ≤ suc (ignores id m))
            × (ignores id m' ≡ 0)
            × (calls ≡ ignored_update id m.strategy ∷ [])))

on_heuristic_ignored-Ignored :
    (c : MemoryClient) (id : String) (m : LearningModule)
    → Ignored c id m (on_heuristic_ignored (some c) id m)
unfolding on_heuristic_ignored apply_signal
on_heuristic_ignored-Ignored c id m =
    elim (Bool-cases (leb m.strategy.ignored_threshold (ignores id m + 1))) [
      | inl e ↦ rw e (refl, inr (ground arith, rw get-put (ground (arith, eq_iff id id)), refl))
      | inr e ↦ rw e (refl, inl (ground arith, rw get-put (ground (arith, eq_iff id id)), refl))
    ]

-- Ignores that start below the threshold: every `ignored_threshold` of them send one negative signal
-- of the heuristic, and what is left over, below the threshold, stays counted.
pub ignore_times-count :
    (n : ℕ) (c : MemoryClient) (id : String) (m : LearningModule)
    → ignores id m < m.strategy.ignored_threshold
    → let (m', calls) = ignore_times n (some c) id m in
      (ignores id m + n ≡ m.strategy.ignored_threshold * length calls + ignores id m')
      × (ignores id m' < m.strategy.ignored_threshold)
      × All (λ call. call ≡ ignored_update id m.strategy) calls
unfolding ignore_times
ignore_times-count zero c id m h = (grind arith, h, tt)
ignore_times-count (suc n) c id m h =
    let step = on_heuristic_ignored (some c) id m in
    let (same, cases) = on_heuristic_ignored-Ignored c id m in
    elim cases [
      | inl (low, one_more, none_sent) ↦
          let (count, below, all) = ignore_times-count n c id step.0 (rw (one_more, same) low) in
          (
            rw none_sent (omega (arith, rw (same, one_more) at count)),
            rw same at below,
            rw none_sent (rw same at all),
          )
      | inr (high, reset, one_sent) ↦
          let (count, below, all) =
            ignore_times-count n c id step.0 (rw (reset, same) (omega arith)) in
          (
            rw one_sent (omega (arith, rw (same, reset) at count)),
            rw same at below,
            rw one_sent (refl, rw same at all),
          )
    ]

abbrev pub with_fires : List FireRecord → LearningModule → LearningModule
with_fires fires m = record m { recent_fires = fires }

on_heuristic_ignored_fires :
    (client : Option MemoryClient) (id : String) (fires : List FireRecord) (m : LearningModule)
    → on_heuristic_ignored client id (with_fires fires m) ≡ (
      with_fires fires (on_heuristic_ignored client id m).0,
      (on_heuristic_ignored client id m).1,
    )
unfolding on_heuristic_ignored
on_heuristic_ignored_fires client id fires m =
    elim (Bool-cases (leb m.strategy.ignored_threshold (ignores id m + 1))) [
      | inl e ↦ rw e refl
      | inr e ↦ rw e refl
    ]

-- The counting of ignores neither reads nor changes the recent fires.
all_ignored_fires :
    (client : Option MemoryClient) (ids : List String) (fires : List FireRecord)
    (m : LearningModule)
    → all_ignored client ids (with_fires fires m)
      ≡ (with_fires fires (all_ignored client ids m).0, (all_ignored client ids m).1)
unfolding all_ignored
all_ignored_fires client [] fires m = refl
all_ignored_fires client (id ∷ ids) fires m =
    rw (on_heuristic_ignored_fires client id fires m)
      (rw (all_ignored_fires client ids fires (on_heuristic_ignored client id m).0) refl)

-- A fire whose event has had explicit feedback is never counted as ignored: an event of any source
-- keeps it, and does to the counts and sends what it would without it.
pub check_ignored_fires-on_feedback :
    (client : Option MemoryClient) (event_id heuristic_id source by : String) (is_positive : Bool)
    (now : ℕ) (m : LearningModule) (f : FireRecord) (fires : List FireRecord)
    → f.event_id ≡ event_id
    → let m' = (on_feedback client event_id heuristic_id is_positive by m).0 in
      let with_f = check_ignored_fires client source now (record m' { recent_fires = f ∷ fires }) in
      let without_f = check_ignored_fires client source now (record m' { recent_fires = fires }) in
      (with_f.0.recent_fires ≡ f ∷ without_f.0.recent_fires)
      × (with_f.0.ignore_counts ≡ without_f.0.ignore_counts)
      × (with_f.1 ≡ without_f.1)
unfolding check_ignored_fires on_feedback
check_ignored_fires-on_feedback client event_id heuristic_id source by is_positive now m f fires e =
    rw not_ignored (
      rw (all_ignored_fires client ids (f ∷ kept) m', all_ignored_fires client ids kept m')
        (refl, refl, refl))
  where
    m' : LearningModule
    m' = (on_feedback client event_id heuristic_id is_positive by m).0

    not_ignored : is_ignored source now m' f ≡ false
    not_ignored = ground (arith, eq_iff event_id f.event_id)

    ids : List String
    ids = map (λ (r : FireRecord). r.heuristic_id) (keep (is_ignored source now m') fires)

    kept : List FireRecord
    kept = keep (λ r. not (is_ignored source now m' r)) fires
