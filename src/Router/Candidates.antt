-- ===== src/Router/Candidates.antt =====
-- The candidates of an evaluation are the most similar matches.
use glady_s.Prelude.{ℕ, ◌≤◌, ◌≡◌, refl, ap, ◌∙◌, String, Bool, true, false, List, ◌++◌, map, arith}
use glady_s.Prelude.Lists.{length, take, keep, All, All-imp}
use glady_s.Prelude.Sorting.{
  sort_by, count-sort_by, drop, take_then_drop, sort_by-Ordered, take-drop-Ordered,
}
use glady_s.MemoryClient.{MatchInfo}
use glady_s.Router.Route.{
  OrchestratorConfig, Services, is_candidate, candidate, more_similar, choose_candidates,
}

more_similar-asym : (x y : MatchInfo) → more_similar y x ≡ true → more_similar x y ≡ false
more_similar-asym x y h = ground arith

more_similar-through :
    (x y z : MatchInfo)
    → more_similar z y ≡ false
    → more_similar y x ≡ false
    → more_similar z x ≡ false
more_similar-through x y z h k = ground arith

-- The matches that may be candidates fall into those that are chosen and the rest, each match as
-- often as before, and none of the rest is more similar than one that is chosen.
pub choose_candidates-best :
    (c : OrchestratorConfig) (sv : Services) (best : String) (matches : List MatchInfo)
    → (chosen rest : List MatchInfo) × (choose_candidates c sv best matches
        ≡ map (candidate sv) chosen)
      × ((p : MatchInfo → Bool)
          → length (keep p (chosen ++ rest)) ≡ length (keep p (keep (is_candidate c best) matches)))
      × All (λ x. All (λ y. y.similarity ≤ x.similarity) rest) chosen
unfolding choose_candidates
choose_candidates-best c sv best matches = (
  take n sorted,
  drop n sorted,
  refl,
  λ p.
      ap (λ xs. length (keep p xs)) (take_then_drop n sorted)
      ∙ count-sort_by more_similar p (keep (is_candidate c best) matches),
  All-imp _ _ (λ x h. All-imp _ _ (λ y k. at_most x y k) (drop n sorted) h) (take n sorted)
      (take-drop-Ordered more_similar n sorted (
        sort_by-Ordered more_similar more_similar-asym more_similar-through
          (keep (is_candidate c best) matches))),
)
  where
    n : ℕ
    n = c.max_evaluation_candidates

    sorted : List MatchInfo
    sorted = sort_by more_similar (keep (is_candidate c best) matches)

    at_most : (x y : MatchInfo) → more_similar y x ≡ false → y.similarity ≤ x.similarity
    at_most x y h = ground arith
