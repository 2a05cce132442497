-- ===== src/Router/Routing.antt =====
-- What `route_event` answers and does, on every branch.
use glady_s.Prelude.{
  ℕ, ◌≤◌, ◌<◌, ◌↔◌, ◌≡◌, ◌≢◌, ◌⊎◌, refl, sym, ap, inl, inr, String, Bool, true, false, not, Option,
  none, some, List, [], ◌∷◌, ◌++◌, map, ◌==◌, eq_iff, arith,
}
use glady_s.Prelude.Tests.{Bool-cases, Option-cases}
use glady_s.Prelude.Lists.{length, take, keep, All, length-map, length-take-le}
use glady_s.Prelude.Sorting.{sort_by, All-sort_by, All-take}
use glady_s.Event.{Event, Score}
use glady_s.Outcome.{returned, raised}
use glady_s.MemoryClient.{MatchInfo}
use glady_s.EventQueue.{Candidate}
use glady_s.EventQueue.Process.{Suggestion}
use glady_s.Learning.{LearningModule, FireRecord}
use glady_s.Router.Delivery.{IsTold, broadcast_to_subscribers-IsTold}
use mathlib.Core.Path.{subst}
use glady_s.Prelude.Dict
use glady_s.Router.{Subscriber, EventRouter, broadcast_to_subscribers, broadcast_response}
use glady_s.Router.Salience.{Evaluation, get_salience, attach_salience}
use glady_s.Router.Route.{
  OrchestratorConfig, Services, EventAck, Routing, heuristic_data, is_emergency, is_candidate,
  candidate, choose_candidates, more_similar, route_evaluated, answer_emergency,
  queue_for_executive, emergency_broadcast, add_fire, condition_of, fire, observe, route_event,
}

-- The evaluation's heuristic and the threat call for an answer at once.
abbrev pub emergency : OrchestratorConfig → Score → Option Suggestion → Bool
emergency c threat none = false
emergency c threat (some h) = is_emergency c threat h

add_fire-router : (f : FireRecord) (r : Routing) → (add_fire f r).router ≡ r.router
add_fire-router f r = elim (Option-cases r.learning) [
  | inl n ↦ rw (n, add_fire) refl
  | inr (m, n) ↦ rw (n, add_fire) refl
]

observe-router :
    (sv : Services) (e : Event) (now : ℕ) (r : Routing)
    → let r' = observe sv e now r in (r'.router ≡ r.router) × (r'.fires ≡ r.fires)
unfolding observe
observe-router sv e now r = elim (Option-cases r.learning) [
  | inl n ↦ rw (n, observe) (refl, refl)
  | inr (m, n) ↦ rw (n, observe) (refl, refl)
]

-- The answer to an evaluated event.
abbrev Routed :
    OrchestratorConfig
    → Event
    → Score
    → Option Suggestion
    → EventRouter
    → Routing × EventAck
    → Type 0
Routed c e threat h router (r', ack) =
    (ack.accepted ≡ true)
    × (ack.queued ≡ not (emergency c threat h))
    × (r'.router.subscribers ≡ (broadcast_to_subscribers e router).subscribers)
    × ((emergency c threat h ≡ false)
        → r'.router.response_subscribers ≡ router.response_subscribers)

queue_for_executive-Routed :
    (c : OrchestratorConfig) (sv : Services) (e : Event) (s : Evaluation) (h : Option Suggestion)
    (now : ℕ) (r : Routing)
    → emergency c s.result.threat h ≡ false
    → Routed c e s.result.threat h r.router (queue_for_executive c sv e s h now r)
unfolding queue_for_executive broadcast_to_subscribers
queue_for_executive-Routed c sv e s h now r calm = elim (Bool-cases (s.matched_heuristic == "")) [
  | inl none_there ↦ rw (none_there, calm) (refl, refl, refl, λ k. refl)
  | inr some_there ↦
      rw (some_there, calm)
        (rw (add_fire-router (fire e s.matched_heuristic (condition_of h) 0 now) r)
          (refl, refl, refl, λ k. refl))
]

route_evaluated-Routed :
    (c : OrchestratorConfig) (sv : Services) (e : Event) (s : Evaluation) (h : Option Suggestion)
    (now : ℕ) (r : Routing)
    → Routed c e s.result.threat h r.router (route_evaluated c sv e s h now r)
unfolding answer_emergency broadcast_to_subscribers broadcast_response
route_evaluated-Routed c sv e s none now r = queue_for_executive-Routed c sv e s none now r refl
route_evaluated-Routed c sv e s (some h) now r =
    elim (Bool-cases (is_emergency c s.result.threat h)) [
      | inl urgent ↦ rw urgent (
          rw (add_fire-router (fire e h.heuristic_id h.condition_text h.confidence now) _)
            (refl, refl, refl, λ k. absurd (ground arith)))
      | inr calm ↦ rw calm (rw calm at (queue_for_executive-Routed c sv e s (some h) now r calm))
    ]

-- Memory knows the matched heuristic, with the confidence and the threat that an emergency takes.
abbrev pub Emergency : OrchestratorConfig → Score → Option Suggestion → Type 0
Emergency c threat o =
    (h : Suggestion) × (o ≡ some h)
    × (c.emergency_confidence_threshold ≤ h.confidence)
    × (c.emergency_threat_threshold ≤ threat)

none_is_none : (h : Suggestion) → none ≡ some h → false ≡ true
none_is_none h k = absurd (ground arith)

both_reached :
    (c : OrchestratorConfig) (threat : Score) (h g : Suggestion)
    → some h ≡ some g
    → c.emergency_confidence_threshold ≤ g.confidence
    → c.emergency_threat_threshold ≤ threat
    → is_emergency c threat h ≡ true
both_reached c threat h g same a b =
    let equal : h.confidence ≡ g.confidence =
      ap (λ (o : Option Suggestion). elim o [ none ↦ 0 | some x ↦ x.confidence ]) same in
    ground (arith, equal)

negated_false : (a b : Bool) → a ≡ not b → a ≡ false → b ≡ true
negated_false a b h k = ground arith

negated_of_true : (a b : Bool) → a ≡ not b → b ≡ true → a ≡ false
negated_of_true a b h k = ground arith

negated_true : (a b : Bool) → a ≡ not b → a ≡ true → b ≡ false
negated_true a b h k = ground arith

pub emergency_iff :
    (c : OrchestratorConfig) (threat : Score) (o : Option Suggestion)
    → (emergency c threat o ≡ true) ↔ Emergency c threat o
emergency_iff c threat none = (λ e. absurd (ground arith), λ k. none_is_none k.0 k.1)
emergency_iff c threat (some h) =
    (λ e. (h, refl, ground arith, ground arith), λ k. both_reached c threat h k.0 k.1 k.2 k.3)

-- An event that is evaluated is accepted. It is answered at once, and does not go to the queue,
-- exactly in an emergency. In both cases it goes, with its salience attached, to each subscriber
-- that has no source filters or one for its source, unless 1000 events wait in its queue; and the
-- subscribers to responses get something only in an emergency.
pub route_event-queued :
    (c : OrchestratorConfig) (sv : Services) (e : Event) (now : ℕ) (r : Routing) (s : Evaluation)
    → get_salience sv.salience_client e ≡ returned s
    → let (r', ack) = route_event c sv e now r in
      let urgent = Emergency c s.result.threat (heuristic_data sv s.matched_heuristic) in
      (ack.accepted ≡ true)
      × ((ack.queued ≡ false) ↔ urgent)
      × ((id : String) (sub : Subscriber)
          → Dict.get id r.router.subscribers ≡ some sub
          → IsTold (attach_salience s e) sub (Dict.get id r'.router.subscribers))
      × ((ack.queued ≡ true) → r'.router.response_subscribers ≡ r.router.response_subscribers)
unfolding route_event
route_event-queued c sv e now r s evaluated =
    let h = heuristic_data sv s.matched_heuristic in
    let (accepted, queued, told, quiet) =
      rw (observe-router sv e now r).0 at
        (route_evaluated-Routed c sv (attach_salience s e) s h now (observe sv e now r)) in
    let (urgent, back) = emergency_iff c s.result.threat h in
    rw (evaluated, route_event)
      (
        accepted,
        (λ k. urgent (negated_false _ _ queued k), λ k. negated_of_true _ _ queued (back k)),
        λ id sub there.
            subst (λ d. IsTold (attach_salience s e) sub (Dict.get id d)) (sym told)
              (broadcast_to_subscribers-IsTold (attach_salience s e) id sub r.router there),
        λ k. quiet (negated_true _ _ queued k),
      )

-- An event that cannot be evaluated is refused: nobody is told of it, and no fire is recorded.
pub route_event-failed :
    (c : OrchestratorConfig) (sv : Services) (e : Event) (now : ℕ) (r : Routing)
    → get_salience sv.salience_client e ≡ raised
    → let (r', ack) = route_event c sv e now r in
      (ack.accepted ≡ false) × (ack.queued ≡ false) × (r'.router ≡ r.router) × (r'.fires ≡ r.fires)
unfolding route_event
route_event-failed c sv e now r not_evaluated =
    let (router_same, fires_same) = observe-router sv e now r in
    rw (not_evaluated, route_event) (refl, refl, router_same, fires_same)

candidate_id :
    (c : OrchestratorConfig) (best : String) (m : MatchInfo)
    → is_candidate c best m ≡ true
    → (m.heuristic_id ≡ "") ⊎ (m.heuristic_id ≢ best)
candidate_id c best m h = elim (Bool-cases (m.heuristic_id == "")) [
  | inl e ↦ inl ((eq_iff m.heuristic_id "").0 e)
  | inr e ↦ inr (λ same. ground (arith, eq_iff m.heuristic_id best, same))
]

is_candidate-below :
    (c : OrchestratorConfig) (best : String) (matches : List MatchInfo)
    → All
        (λ (m : MatchInfo).
          (m.confidence < c.heuristic_confidence_threshold)
          × ((m.heuristic_id ≡ "") ⊎ (m.heuristic_id ≢ best)))
        (keep (is_candidate c best) matches)
is_candidate-below c best [] = tt
is_candidate-below c best (m ∷ matches) = elim (Bool-cases (is_candidate c best m)) [
  | inl e ↦ rw e ((ground arith, candidate_id c best m e), is_candidate-below c best matches)
  | inr e ↦ rw e (is_candidate-below c best matches)
]

map-All :
    {A B : Type 0} (P : B → Type 0) (f : A → B) (xs : List A)
    → All (λ x. P (f x)) xs
    → All P (map f xs)
map-All P f [] h = tt
map-All P f (x ∷ xs) h = (h.0, map-All P f xs h.1)

-- There are no more candidates than configured, each is below the confidence threshold, and none is
-- the best match, which goes along as the suggestion.
pub choose_candidates-below :
    (c : OrchestratorConfig) (sv : Services) (best : String) (matches : List MatchInfo)
    → let chosen = choose_candidates c sv best matches in
      (length chosen ≤ c.max_evaluation_candidates)
      × All
          (λ (x : Candidate).
            (x.confidence < c.heuristic_confidence_threshold)
            × ((x.heuristic_id ≡ "") ⊎ (x.heuristic_id ≢ best)))
          chosen
unfolding choose_candidates
choose_candidates-below c sv best matches = (
  omega (
    arith,
    length-map (candidate sv) (take c.max_evaluation_candidates sorted),
    length-take-le c.max_evaluation_candidates sorted,
  ),
  map-All _ (candidate sv) (take c.max_evaluation_candidates sorted) (
      All-take _ c.max_evaluation_candidates sorted (
        All-sort_by more_similar _ (keep (is_candidate c best) matches)
          (is_candidate-below c best matches))),
)
  where
    sorted : List MatchInfo
    sorted = sort_by more_similar (keep (is_candidate c best) matches)

-- One fire more, of the heuristic and for the event.
abbrev pub FiresOnce : String → String → List FireRecord → List FireRecord → Type 0
FiresOnce heuristic event before after =
    (f : FireRecord) × (f.heuristic_id ≡ heuristic)
    × (f.event_id ≡ event)
    × (after ≡ before ++ f ∷ [])

add_fire-fires :
    (f : FireRecord) (m : LearningModule) (r : Routing)
    → r.learning ≡ some m
    → (add_fire f r).fires ≡ r.fires ++ f ∷ []
add_fire-fires f m r h = rw (h, add_fire) refl

observe-learning :
    (sv : Services) (e : Event) (now : ℕ) (m : LearningModule) (r : Routing)
    → r.learning ≡ some m
    → (m' : LearningModule) × ((observe sv e now r).learning ≡ some m')
unfolding observe
observe-learning sv e now m r h = rw (h, observe) (_, refl)

suggestion_id :
    (sv : Services) (id : String) (h : Suggestion)
    → heuristic_data sv id ≡ some h
    → h.heuristic_id ≡ id
unfolding heuristic_data
suggestion_id sv id h found = ground arith

queue_for_executive-fires :
    (c : OrchestratorConfig) (sv : Services) (e : Event) (s : Evaluation) (h : Option Suggestion)
    (now : ℕ) (m : LearningModule) (r : Routing)
    → r.learning ≡ some m
    → s.matched_heuristic ≢ ""
    → FiresOnce s.matched_heuristic e.id r.fires (queue_for_executive c sv e s h now r).0.fires
unfolding queue_for_executive
queue_for_executive-fires c sv e s h now m r learns matched =
    elim (Bool-cases (s.matched_heuristic == "")) [
      | inl none_there ↦ absurd (matched ((eq_iff s.matched_heuristic "").0 none_there))
      | inr some_there ↦ rw some_there (
        fire e s.matched_heuristic (condition_of h) 0 now,
        refl,
        refl,
        add_fire-fires (fire e s.matched_heuristic (condition_of h) 0 now) m r learns,
      )
    ]

route_evaluated-fires :
    (c : OrchestratorConfig) (sv : Services) (e : Event) (s : Evaluation) (h : Option Suggestion)
    (now : ℕ) (m : LearningModule) (r : Routing)
    → r.learning ≡ some m
    → s.matched_heuristic ≢ ""
    → heuristic_data sv s.matched_heuristic ≡ h
    → FiresOnce s.matched_heuristic e.id r.fires (route_evaluated c sv e s h now r).0.fires
unfolding answer_emergency
route_evaluated-fires c sv e s none now m r learns matched found =
    queue_for_executive-fires c sv e s none now m r learns matched
route_evaluated-fires c sv e s (some h) now m r learns matched found =
    elim (Bool-cases (is_emergency c s.result.threat h)) [
      | inl urgent ↦ rw urgent (
        fire e h.heuristic_id h.condition_text h.confidence now,
        suggestion_id sv s.matched_heuristic h found,
        refl,
        add_fire-fires (fire e h.heuristic_id h.condition_text h.confidence now) m
            (record r { router = broadcast_response (emergency_broadcast e h now) r.router })
            learns,
      )
      | inr calm ↦ rw calm (queue_for_executive-fires c sv e s (some h) now m r learns matched)
    ]

-- An event that is evaluated with a match is reported to the learning module as exactly one fire of
-- the matched heuristic, in an emergency and on the way to the queue alike.
pub route_event-fires :
    (c : OrchestratorConfig) (sv : Services) (e : Event) (now : ℕ) (m : LearningModule)
    (r : Routing) (s : Evaluation)
    → get_salience sv.salience_client e ≡ returned s
    → r.learning ≡ some m
    → s.matched_heuristic ≢ ""
    → FiresOnce s.matched_heuristic e.id r.fires (route_event c sv e now r).0.fires
unfolding route_event attach_salience
route_event-fires c sv e now m r s evaluated learns matched =
    let (m', learns') = observe-learning sv e now m r learns in
    rw (evaluated, route_event)
      (rw (observe-router sv e now r).1 at (
        route_evaluated-fires c sv (attach_salience s e) s (heuristic_data sv s.matched_heuristic)
          now m' (observe sv e now r) learns' matched refl))
