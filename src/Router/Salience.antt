-- ===== src/Router/Salience.antt =====
-- The salience of an event in router.py: where it comes from, what is attached to the event, and
-- the number that orders the queue.
use glady_s.Prelude.{
  false, true, String, Bool, not, ◌&&◌, ◌||◌, Option, none, some, List, [], ◌∷◌, ◌==◌,
}
use glady_s.Prelude.Tests.{ltb, nat_eq, if◌then◌else◌}
use glady_s.Prelude.Lists.{keep, exists}
use glady_s.Prelude.Dict.{Dict}
use glady_s.Event.{Event, Score, Salience}
use glady_s.Outcome.{Outcome, returned}

-- The dictionary of an evaluation: its salience, and the heuristic that it matched, or "".
pub record Evaluation : Type 0 where
  pub result : Salience
  pub matched_heuristic : String

-- salience_client.evaluate_salience
pub record SalienceClient : Type 0 where
  pub evaluate : Event → Outcome Evaluation

abbrev no_values : Dict Score → Bool
no_values [] = true
no_values (x ∷ d) = false

unfoldable pub has_explicit_salience : Event → Bool
has_explicit_salience e =
    ltb 0 e.salience.threat
    || ltb 0 e.salience.salience
    || ltb 0 e.salience.habituation
    || not (no_values e.salience.vector)

-- The event's own salience, which matches no heuristic.
abbrev pub own_salience : Event → Evaluation
own_salience e = record { result = e.salience; matched_heuristic = "" }

-- An event is a message here, and always has a salience: the neutral default is never reached.
unfoldable pub get_salience : Option SalienceClient → Event → Outcome Evaluation
get_salience client e =
    if has_explicit_salience e
    then returned (own_salience e)
    else elim client [ some c ↦ c.evaluate e | none ↦ returned (own_salience e) ]

abbrev pub dimensions : List String
dimensions = "novelty" ∷ "goal_relevance" ∷ "opportunity" ∷ "actionability" ∷ "social" ∷ []

abbrev known_dimension : String × Score → Bool
known_dimension (dim, value) = exists (λ d. d == dim) dimensions

-- A matched heuristic is set only where there is one.
unfoldable pub attach_salience : Evaluation → Event → Event
attach_salience s e = record e {
  salience = record s.result { vector = keep known_dimension s.result.vector };
  matched_heuristic_id =
      if s.matched_heuristic == "" then e.matched_heuristic_id else s.matched_heuristic;
}

unfoldable pub get_max_salience : Evaluation → Score
get_max_salience s =
    if nat_eq s.result.salience 0 && ltb 0 s.result.threat
    then s.result.threat
    else s.result.salience
