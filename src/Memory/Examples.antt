-- ===== src/Memory/Examples.antt =====
-- The memory service's theorems at one heuristic and its fires.
use glady_s.Prelude.{
  suc, ◌<◌, ◌≡◌, ◌≢◌, refl, String, true, false, none, some, [], ◌∷◌, arith, eq_iff,
}
use glady_s.Prelude.Tests.{if◌then◌else◌}
use glady_s.Prelude.Lists.{length}
use glady_s.Prelude.Dict
use glady_s.Json.{object, no_fields, parsed}
use glady_s.Memory.{HeuristicRow, FireRow, Tables}
use glady_s.Memory.Fires.{update_most_recent_fire}
use glady_s.Memory.Heuristics.{one, beta_mean, weigh}
use glady_s.Memory.Beta.{Feedback, run_updates, Totals, IsBelow, run_updates-Totals, weigh-IsBelow}
use glady_s.Memory.Events.{to_milliseconds, to_microseconds, Library, EventMessage}
use glady_s.Memory.Resolving.{waiting, update_most_recent_fire-waiting}
use glady_s.Memory.Service.{HeuristicMessage}

abbrev row : HeuristicRow
row = record {
  name = "smoke";
  condition = some "smoke";
  action = object no_fields;
  confidence = beta_mean one one;
  embedding = none;
  origin = "learned";
  origin_id = none;
  source = none;
  fire_count = 1;
  success_count = 0;
  alpha = one;
  beta = one;
}

abbrev fire : FireRow
fire = record {
  id = "f1";
  heuristic_id = "h1";
  event_id = "e1";
  episodic_event_id = none;
  fired_at = 5;
  outcome = "unknown";
  feedback_source = none;
  feedback_at = none;
}

abbrev tables : Tables
tables = record {
  heuristics = ("h1", row) ∷ [];
  heuristic_fires = fire ∷ record fire { id = "f2"; fired_at = 9 } ∷ [];
}

abbrev praise : Feedback
praise = record { positive = true; magnitude = 0; feedback_source = "explicit"; now = 12 }

h1_there : Dict.get "h1" tables.heuristics ≡ some row
unfolding Dict.get
h1_there = refl

run_updates-Totals_example :
    Totals "h1"
      (praise ∷ record praise { positive = false } ∷ [])
      row
      (run_updates "h1" (praise ∷ record praise { positive = false } ∷ []) tables)
run_updates-Totals_example =
    run_updates-Totals "h1" (praise ∷ record praise { positive = false } ∷ []) row tables h1_there
      refl

weigh-IsBelow_example :
    IsBelow row.confidence (weigh true one row).confidence
    × (0 < (weigh true one row).confidence.over)
    × ((weigh true one row).confidence.over < (weigh true one row).confidence.under)
weigh-IsBelow_example = weigh-IsBelow true 0 row refl (omega arith) (omega arith)

fail_known : ◌≢◌ {A = String} "fail" "unknown"
fail_known = ground (arith, eq_iff "fail" "unknown")

update_most_recent_fire-waiting_example :
    let (t', found) = update_most_recent_fire "h1" "fail" "explicit" 12 tables in
    if found
    then length (waiting "h1" tables) ≡ suc (length (waiting "h1" t'))
    else (waiting "h1" tables ≡ []) × (t' ≡ tables)
update_most_recent_fire-waiting_example =
    update_most_recent_fire-waiting "h1" "fail" "explicit" 12 tables (refl, (refl, tt)) fail_known

abbrev library : Library
library = record { parse = λ s. some s; loads = λ s. parsed (object no_fields); dumps = λ v. "{}" }

abbrev message : EventMessage
message = record {
  id = "e1";
  timestamp_ms = 1500;
  source = "kitchen";
  raw_text = "smoke";
  embedding = 0 ∷ 0 ∷ 0 ∷ 1 ∷ [];
  salience = record {
    threat = 0;
    salience = 5;
    habituation = 0;
    vector = ("novelty", 5) ∷ [];
    model_id = "";
  };
  structured_json = "{}";
  entity_ids = "u1" ∷ [];
  intent = "";
  evaluation_data_json = "";
  predicted_success = 0;
  prediction_confidence = 5;
  response_id = "";
  response_text = "Open the window.";
  matched_heuristic_id = "h1";
  llm_prompt_text = "";
  decision_path = "heuristic";
  episode_id = "";
}

-- 1001 milliseconds are 1.001 seconds, and 1.001 * 1000 is 1000.9999999999999.
millisecond_lost : to_milliseconds (to_microseconds 1001) ≡ 1000
unfolding to_milliseconds to_microseconds
millisecond_lost = refl

milliseconds_kept : to_milliseconds (to_microseconds 1700000000123) ≡ 1700000000123
unfolding to_milliseconds to_microseconds
milliseconds_kept = refl

abbrev learned : HeuristicMessage
learned = record {
  id = "h2";
  name = "Learned: smoke";
  condition_text = "smoke";
  effects_json = "{}";
  confidence = 300000;
  origin = "learned";
  origin_id = "r1";
  source = "kitchen";
}
