-- ===== src/Watcher/Expiry.antt =====
-- Timeouts of expectations.
use glady_s.Prelude.{String, ℕ, ◌+◌, ◌≤◌, not, ◌≡◌, refl, inl, inr, List, [], ◌∷◌, arith}
use glady_s.Prelude.Tests.{Bool-cases}
use glady_s.Prelude.Lists.{length-map, keep, length, All, length-keep-split}
use glady_s.Watcher.{PendingOutcome, OutcomeWatcher, is_expired, get_expired_items, cleanup_expired}
use glady_s.Watcher.Resolution.{keep_none_left}

kept-live :
    (now : ℕ) (ps : List PendingOutcome)
    → All (λ p. now ≤ p.timeout_at) (keep (λ p. not (is_expired now p)) ps)
kept-live now [] = tt
kept-live now (p ∷ ps) = elim (Bool-cases (is_expired now p)) [
  | inl e ↦ rw e (kept-live now ps)
  | inr e ↦ rw e (ground arith, kept-live now ps)
]

-- `cleanup_expired` returns the number of items that `get_expired_items` lists at the same time and
-- takes as many out; every expectation that stays times out no earlier than now, and a second list
-- at that time is empty.
pub cleanup_expired-get_expired_items :
    (now : ℕ) (w : OutcomeWatcher)
    → let (w', count) = cleanup_expired now w in
      (count ≡ length (get_expired_items now w))
      × (length w'.pending + count ≡ length w.pending)
      × All (λ p. now ≤ p.timeout_at) w'.pending
      × (get_expired_items now w' ≡ [])
unfolding cleanup_expired get_expired_items
cleanup_expired-get_expired_items now w = (
  omega (
    arith,
    length-map {B = String × String} (λ (p : PendingOutcome). (p.heuristic_id, p.event_id))
        (keep (is_expired now) w.pending),
  ),
  omega (arith, length-keep-split (is_expired now) w.pending),
  kept-live now w.pending,
  rw (keep_none_left (is_expired now) w.pending) refl,
)
