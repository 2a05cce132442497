-- ===== src/Memory/Fires.antt =====
-- storage.py: the records of fires, the "flight recorder". A fire waits with the outcome "unknown"
-- until feedback resolves it.
use glady_s.Prelude.{
  ℕ, ◌+◌, String, Bool, true, false, ◌&&◌, ◌||◌, Option, none, some, List, [], ◌∷◌, ◌++◌, ◌==◌,
}
use glady_s.Prelude.Tests.{ltb, leb, if◌then◌else◌}
use glady_s.Prelude.Lists.{length, keep, exists, take}
use glady_s.Prelude.Sorting.{sort_by, drop}
use glady_s.Prelude.Dict
use glady_s.Memory.{FireRow, Tables}

abbrev pub is_unknown : FireRow → Bool
is_unknown f = f.outcome == "unknown"

abbrev new_fire : String → String → String → Option String → ℕ → FireRow
new_fire id heuristic_id event_id episodic_event_id now = record {
  id = id;
  heuristic_id = heuristic_id;
  event_id = event_id;
  episodic_event_id = episodic_event_id;
  fired_at = now;
  outcome = "unknown";
  feedback_source = none;
  feedback_at = none;
}

-- None where the statement raises, because the heuristic is not there.
unfoldable pub record_heuristic_fire :
    String → String → String → Option String → ℕ → Tables → Option Tables
record_heuristic_fire id heuristic_id event_id episodic_event_id now t =
    if Dict.has heuristic_id t.heuristics
    then some (record t {
      heuristic_fires =
          t.heuristic_fires ++ new_fire id heuristic_id event_id episodic_event_id now ∷ [];
    })
    else none

abbrev pub resolve : String → String → ℕ → FireRow → FireRow
resolve outcome feedback_source now f = record f {
  outcome = outcome;
  feedback_source = some feedback_source;
  feedback_at = some now;
}

unfoldable pub resolve_fire : String → String → String → ℕ → List FireRow → List FireRow
resolve_fire id outcome feedback_source now [] = []
resolve_fire id outcome feedback_source now (f ∷ fires) =
    let rest = resolve_fire id outcome feedback_source now fires in
    if f.id == id then resolve outcome feedback_source now f ∷ rest else f ∷ rest

-- Whether a row was found.
unfoldable pub update_fire_outcome : String → String → String → ℕ → Tables → Tables × Bool
unfolding resolve_fire
update_fire_outcome id outcome feedback_source now t = (
  record t { heuristic_fires = resolve_fire id outcome feedback_source now t.heuristic_fires },
  exists (λ (f : FireRow). f.id == id) t.heuristic_fires,
)

-- A fire of the heuristic without an outcome.
abbrev pub waits_for : String → FireRow → Bool
waits_for heuristic_id f = f.heuristic_id == heuristic_id && is_unknown f

abbrev pub later_of : FireRow → Option FireRow → FireRow
later_of f none = f
later_of f (some g) = if leb g.fired_at f.fired_at then f else g

-- ORDER BY fired_at DESC LIMIT 1. Of two at the same time, the one inserted first.
unfoldable pub most_recent : (FireRow → Bool) → List FireRow → Option FireRow
most_recent p [] = none
most_recent p (f ∷ fires) =
    let rest = most_recent p fires in if p f then some (later_of f rest) else rest

unfoldable pub update_most_recent_fire : String → String → String → ℕ → Tables → Tables × Bool
unfolding most_recent update_fire_outcome
update_most_recent_fire heuristic_id outcome feedback_source now t =
    elim (most_recent (waits_for heuristic_id) t.heuristic_fires) [
      | none ↦ (t, false)
      | some f ↦ update_fire_outcome f.id outcome feedback_source now t
    ]

-- ORDER BY fired_at DESC
abbrev pub fired_later : FireRow → FireRow → Bool
fired_later f g = ltb g.fired_at f.fired_at

abbrev of_heuristic : Option String → FireRow → Bool
of_heuristic none f = true
of_heuristic (some id) f = f.heuristic_id == id

-- The unknown fires, of one heuristic or of all, that are younger than the age.
unfoldable pub get_pending_fires : Option String → ℕ → ℕ → Tables → List FireRow
get_pending_fires heuristic_id max_age now t = sort_by fired_later (
    keep (λ f. is_unknown f && of_heuristic heuristic_id f && ltb now (f.fired_at + max_age))
      t.heuristic_fires)

abbrev with_outcome : Option String → FireRow → Bool
with_outcome none f = true
with_outcome (some outcome) f = outcome == "" || f.outcome == outcome

-- One page, and the number of all. The columns of the joined heuristic are left out.
unfoldable pub list_fires : Option String → ℕ → ℕ → Tables → List FireRow × ℕ
list_fires outcome limit offset t =
    let found = keep (with_outcome outcome) t.heuristic_fires in
    (take limit (drop offset (sort_by fired_later found)), length found)
