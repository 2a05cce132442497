-- ===== src/Memory/EventExamples.antt =====
-- The events of a kitchen: what is stored, and what a query returns.
use glady_s.Prelude.{◌⊎◌, ◌≤◌, ℕ, ◌≡◌, refl, none, some, String, List, [], ◌∷◌, map}
use glady_s.Prelude.Lists.{In, length, All}
use glady_s.Prelude.Sorting.{sort_by}
use glady_s.Memory.Events.{EpisodicEvent}
use glady_s.Memory.Episodes.{
  EventRow, EpisodicMemory, row_of, row_to_event, store_event, delete_events, query_by_time,
}
use glady_s.Memory.Recent.{IsAsked, Descending, query_by_time-IsAsked}

abbrev event_at : String → ℕ → EpisodicEvent
event_at id time = record {
  id = some id;
  timestamp = time;
  source = "kitchen";
  raw_text = "smoke";
  intent = "";
  embedding = none;
  salience = none;
  structured = none;
  evaluation_data = none;
  entity_ids = [];
  predicted_success = none;
  prediction_confidence = none;
  response_id = none;
  response_text = none;
  llm_prompt_text = none;
  decision_path = some "llm";
  matched_heuristic_id = none;
  episode_id = none;
}

abbrev memory : EpisodicMemory
memory = record {
  tables = record { heuristics = []; heuristic_fires = [] };
  events =
      row_of "a" (event_at "a" 5) ∷ row_of "b" (event_at "b" 9) ∷ row_of "c" (event_at "c" 7) ∷ [];
  episodes = [];
}

-- An id that is there is refused.
stored_once : store_event (event_at "b" 11) memory ≡ none
unfolding store_event
stored_once = refl

deleted_two : (delete_events ("a" ∷ "x" ∷ "c" ∷ []) memory).1 ≡ 2
unfolding delete_events
deleted_two = refl

found_two :
    map (λ (e : EpisodicEvent). e.id) (query_by_time 0 10 (some "kitchen") 2 memory)
    ≡ some "b" ∷ some "c" ∷ []
unfolding query_by_time sort_by
found_two = refl

query_by_time-IsAsked_example :
    (shown : List EventRow) × (query_by_time 0 10 (some "kitchen") 2 memory
      ≡ map row_to_event shown)
    × All (λ r. In r memory.events × IsAsked 0 10 (some "kitchen") r) shown
    × Descending shown
    × (length shown ≤ 2)
    × ((r : EventRow)
        → In r memory.events
        → IsAsked 0 10 (some "kitchen") r
        → In r shown
          ⊎ ((length shown ≡ 2) × All (λ x. r.event.timestamp ≤ x.event.timestamp) shown))
query_by_time-IsAsked_example = query_by_time-IsAsked 0 10 (some "kitchen") 2 memory
