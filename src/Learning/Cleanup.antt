-- ===== src/Learning/Cleanup.antt =====
-- The periodic cleanup: what it sends for timeouts, and what it forgets.
use glady_s.Prelude.{
  ◌≢◌, ℕ, ◌+◌, ◌<◌, ◌≤◌, String, Bool, true, not, ◌&&◌, ◌≡◌, refl, ap, Option, none, some, List, [],
  ◌∷◌, ◌++◌, map, ◌==◌, eq_iff, arith,
}
use glady_s.Prelude.Tests.{ltb, leb}
use glady_s.Prelude.Lists.{first, length-map, length, keep, exists}
use glady_s.MemoryClient.{MemoryClient, MemoryCall, updates}
use glady_s.Watcher
use glady_s.Watcher.{Fire, expectation, expect_timeout, OutcomeWatcher, PendingOutcome, is_expired}
use glady_s.Learning.{
  on_fire, LearningModule, FireRecord, apply_signal, apply_all, cleanup_expired, out_of_window,
  acknowledged, drop_ids,
}
use glady_s.Watcher.Resolution.{register_fire-pending, keep-append}
use glady_s.Prelude.Text.{contains}
use mathlib.Core.List.{map-append}
use glady_s.Learning.Strategy.{BayesianStrategyConfig, interpret_timeout}

-- An expectation that times out between the list and the removal.
abbrev pub in_gap : ℕ → ℕ → PendingOutcome → Bool
in_gap listed removed p = leb listed p.timeout_at && ltb p.timeout_at removed

length-gap :
    (listed removed : ℕ) (ps : List PendingOutcome)
    → listed ≤ removed
    → length (keep (is_expired removed) ps)
      ≡ length (keep (is_expired listed) ps) + length (keep (in_gap listed removed) ps)
length-gap listed removed [] h = omega arith
length-gap listed removed (p ∷ ps) h = ground (arith, length-gap listed removed ps h)

abbrev pub timeout_update : BayesianStrategyConfig → PendingOutcome → MemoryCall
timeout_update c p = updates (record {
  heuristic_id = p.heuristic_id;
  positive = true;
  magnitude = c.implicit_magnitude;
  predicted_success = 0;
  feedback_source = "implicit_timeout";
})

apply_all-timeouts :
    (c : MemoryClient) (s : BayesianStrategyConfig) (ps : List PendingOutcome)
    → apply_all (some c) (
        map
          (λ (i : String × String). interpret_timeout s i.0 i.1)
          (map (λ (p : PendingOutcome). (p.heuristic_id, p.event_id)) ps))
      ≡ map (timeout_update s) ps
unfolding apply_all apply_signal interpret_timeout
apply_all-timeouts c s [] = refl
apply_all-timeouts c s (p ∷ ps) = ap (◌∷◌ (timeout_update s p)) (apply_all-timeouts c s ps)

cleanup_expired_calls :
    (c : MemoryClient) (listed removed now : ℕ) (m : LearningModule) (w : OutcomeWatcher)
    → m.outcome_watcher ≡ some w
    → (cleanup_expired (some c) listed removed now m).2
      ≡ map (timeout_update m.strategy) (keep (is_expired listed) w.pending)
unfolding cleanup_expired Watcher.get_expired_items
cleanup_expired_calls c listed removed now m w e =
    rw (e, cleanup_expired) (apply_all-timeouts c m.strategy (keep (is_expired listed) w.pending))

-- With a client, a cleanup sends one positive signal for each expectation that had timed out when
-- the list was made, in order. The number that it removes and returns exceeds the number of signals
-- by the expectations that time out between the list and the removal: those get none.
pub cleanup_expired-signals :
    (c : MemoryClient) (listed removed now : ℕ) (m : LearningModule) (w : OutcomeWatcher)
    → m.outcome_watcher ≡ some w
    → listed ≤ removed
    → let (m', count, calls) = cleanup_expired (some c) listed removed now m in
      (calls ≡ map (timeout_update m.strategy) (keep (is_expired listed) w.pending))
      × (count ≡ length calls + length (keep (in_gap listed removed) w.pending))
unfolding cleanup_expired Watcher.cleanup_expired Watcher.get_expired_items
cleanup_expired-signals c listed removed now m w e h =
    let sent = apply_all-timeouts c m.strategy (keep (is_expired listed) w.pending) in
    rw (e, cleanup_expired)
      (
        sent,
        rw sent (
            omega (
              arith,
              length-gap listed removed w.pending h,
              length-map (timeout_update m.strategy) (keep (is_expired listed) w.pending),
            )),
      )

exists-keep_not :
    (gone ids : List String) (id : String)
    → exists (λ j. j == id) (drop_ids gone ids)
      ≡ (exists (λ j. j == id) ids && not (exists (λ j. j == id) gone))
exists-keep_not gone [] id = refl
exists-keep_not gone (j ∷ ids) id = ground (arith, eq_iff j id, exists-keep_not gone ids id)

exists-map :
    (p : FireRecord → Bool) (id : String) (fires : List FireRecord)
    → exists (λ j. j == id) (map (λ (r : FireRecord). r.event_id) (keep p fires))
      ≡ exists (λ r. p r && r.event_id == id) fires
exists-map p id [] = refl
exists-map p id (r ∷ fires) = ground (arith, exists-map p id fires)

-- A cleanup forgets the acknowledgement of an event exactly when some fire of that event has left
-- the window. So an acknowledgement without a recent fire stays after every cleanup.
pub acknowledged-cleanup_expired :
    (client : Option MemoryClient) (listed removed now : ℕ) (m : LearningModule)
    (w : OutcomeWatcher) (id : String)
    → m.outcome_watcher ≡ some w
    → acknowledged (cleanup_expired client listed removed now m).0 id ≡ (
        acknowledged m id
        && not (
            exists
              (λ r. out_of_window m.strategy.undo_window_sec now r && r.event_id == id)
              m.recent_fires))
unfolding cleanup_expired
acknowledged-cleanup_expired client listed removed now m w id e =
    rw (e, cleanup_expired)
      (rw
        (
          exists-keep_not (map (λ (r : FireRecord). r.event_id) (keep gone m.recent_fires))
              m.acknowledged_fires id,
          exists-map gone id m.recent_fires,
        )
        refl)
  where
    gone : FireRecord → Bool
    gone = out_of_window m.strategy.undo_window_sec now

abbrev fire_of : FireRecord → Fire
fire_of f = record {
  heuristic_id = f.heuristic_id;
  event_id = f.event_id;
  predicted_success = f.predicted_success;
  time = f.fire_time;
}

on_fire_watcher :
    (c : MemoryClient) (f : FireRecord) (m : LearningModule) (w : OutcomeWatcher)
    → m.outcome_watcher ≡ some w
    → (on_fire (some c) f m).0.outcome_watcher
      ≡ some (Watcher.register_fire (some c) (fire_of f) f.condition_text w).0
unfolding on_fire
on_fire_watcher c f m w e = rw e refl

expectation_expires :
    (f : FireRecord) (listed : ℕ) (w : OutcomeWatcher)
    → first (λ p. contains p.trigger_pattern f.condition_text) w.patterns ≡ none
    → f.fire_time + w.default_timeout_sec < listed
    → keep (is_expired listed) (expectation (fire_of f) f.condition_text w ∷ [])
      ≡ expect_timeout (fire_of f) w.default_timeout_sec ∷ []
unfolding expectation
expectation_expires f listed w no_trigger late = rw (no_trigger, expectation) (ground arith)

-- No complaint means success: with a client and a watcher, after a fire of a named heuristic with a
-- known condition that no pattern's trigger fits, a cleanup later than the default timeout sends
-- what it would send without the fire, and then one positive signal for the fire.
pub cleanup_expired-on_fire :
    (c : MemoryClient) (f : FireRecord) (listed removed now : ℕ) (m : LearningModule)
    (w : OutcomeWatcher)
    → m.outcome_watcher ≡ some w
    → f.heuristic_id ≢ ""
    → f.condition_text ≢ ""
    → first (λ p. contains p.trigger_pattern f.condition_text) w.patterns ≡ none
    → f.fire_time + w.default_timeout_sec < listed
    → (cleanup_expired (some c) listed removed now (on_fire (some c) f m).0).2
      ≡ (cleanup_expired (some c) listed removed now m).2
        ++ updates (record {
          heuristic_id = f.heuristic_id;
          positive = true;
          magnitude = m.strategy.implicit_magnitude;
          predicted_success = 0;
          feedback_source = "implicit_timeout";
        })
          ∷ []
unfolding on_fire
cleanup_expired-on_fire c f listed removed now m w e named known no_trigger late =
    rw
      (
        cleanup_expired_calls c listed removed now m w e,
        cleanup_expired_calls c listed removed now (on_fire (some c) f m).0 _
            (on_fire_watcher c f m w e),
        register_fire-pending (some c) (fire_of f) f.condition_text w named known,
        keep-append (is_expired listed) w.pending (expectation (fire_of f) f.condition_text w ∷ []),
        expectation_expires f listed w no_trigger late,
      )
      (map-append (timeout_update m.strategy) (keep (is_expired listed) w.pending) _)
