-- ===== src/FlowControl/Rate.antt =====
-- How many events a token bucket lets through.
use glady_s.Prelude.{
  ◌≡◌, refl, ap, ◌∙◌, inl, inr, zero, suc, ℕ, ◌+◌, ◌-◌, ◌*◌, ◌≤◌, ◌<◌, Bool, true, false, List, [],
  ◌∷◌, arith, min,
}
use native.Mathlib.Nat.{mul-le-mul_right}
use glady_s.Prelude.Tests.{leb, if◌then◌else◌, Bool-cases}
use glady_s.Prelude.Ints.{pos}
use glady_s.Outcome.{returned}
use glady_s.FlowControl.RateLimit.{
  RateLimitStrategy, rate_limit, refill, should_publish, spend, ticks_per_second,
}

-- Events at the given times: the strategy after them, and how many it let through.
unfoldable pub publish_all : List ℕ → RateLimitStrategy → RateLimitStrategy × ℕ
publish_all [] s = (s, 0)
publish_all (now ∷ times) s =
    let (s', answer) = should_publish now s in
    let (s'', published) = publish_all times s' in
    (s'', if answer then suc published else published)

-- n events at one time.
abbrev pub burst : ℕ → ℕ → List ℕ
burst zero now = []
burst (suc n) now = now ∷ burst n now

-- The times do not go back, and the last is no later than the given end.
abbrev pub Ascending : ℕ → List ℕ → ℕ → Type 0
Ascending start [] end = start ≤ end
Ascending start (now ∷ times) end = (start ≤ now) × Ascending now times end

-- A bucket with `t` parts, of the given size.
abbrev pub Holds : ℕ → ℕ → ℕ → RateLimitStrategy → Type 0
Holds m w t s = (s.max_events ≡ m) × (s.window_seconds ≡ w) × (s.tokens ≡ pos t)

refill-Holds :
    (m w t now : ℕ) (s : RateLimitStrategy)
    → Holds m w t s
    → (t' : ℕ) × Holds m w t' (refill now s)
      × ((refill now s).last_refill ≡ now)
      × (t' ≤ t + (now - s.last_refill) * m)
unfolding refill
refill-Holds m w t now s (em, ew, et) =
    let gained = t + (now - s.last_refill) * m in
    rw (em, ew, et)
      (elim (Bool-cases (leb gained (m * (w * ticks_per_second)))) [
        | inl e ↦ (gained, (refl, refl, rw e refl), refl, omega arith)
        | inr e ↦ (m * (w * ticks_per_second), (refl, refl, rw e refl), refl, ground arith)
      ])

spend-Holds :
    (m w t : ℕ) (s : RateLimitStrategy)
    → Holds m w t s
    → let (s', answer) = spend s in
      (t' : ℕ) × Holds m w t' s'
      × (s'.last_refill ≡ s.last_refill)
      × (t' + (if answer then w * ticks_per_second else 0) ≤ t)
spend-Holds m w t s (em, ew, et) =
    let u = w * ticks_per_second in
    elim (Bool-cases (leb u t)) [
      | inl e ↦ rw (ew, et) (rw e (t - u, (em, refl, refl), refl, ground arith))
      | inr e ↦ rw (ew, et) (rw e (t, (em, refl, refl), refl, ground arith))
    ]

-- One event: the parts spent and left are no more than those held and refilled.
should_publish-Holds :
    (m w t now : ℕ) (s : RateLimitStrategy)
    → Holds m w t s
    → let (s', answer) = should_publish now s in
      (t' : ℕ) × Holds m w t' s'
      × (s'.last_refill ≡ now)
      × (t' + (if answer then w * ticks_per_second else 0) ≤ t + (now - s.last_refill) * m)
unfolding should_publish
should_publish-Holds m w t now s h =
    let (t', held, last, bound) = refill-Holds m w t now s h in
    let (t'', held', last', bound') = spend-Holds m w t' (refill now s) held in
    (t'', held', last' ∙ last, omega (arith, bound, bound'))

Ascending-le : (start : ℕ) (times : List ℕ) (end : ℕ) → Ascending start times end → start ≤ end
Ascending-le start [] end h = h
Ascending-le start (now ∷ times) end h = omega (arith, Ascending-le now times end h.1, h.0)

publish_first :
    (m u t t' l start now end n : ℕ) (answer : Bool)
    → l ≡ start
    → start ≤ now
    → now ≤ end
    → t' + (if answer then u else 0) ≤ t + (now - l) * m
    → n * u ≤ t' + (end - now) * m
    → (if answer then suc n else n) * u ≤ t + (end - start) * m
publish_first m u t t' l start now end n true same h k bound rest =
    let e : end - start ≡ (now - start) + (end - now) = omega arith in
    rw e (omega (arith, rw same at bound))
publish_first m u t t' l start now end n false same h k bound rest =
    let e : end - start ≡ (now - start) + (end - now) = omega arith in
    rw e (omega (arith, rw same at bound))

publish_all-Holds :
    (m w t start end : ℕ) (times : List ℕ) (s : RateLimitStrategy)
    → Holds m w t s
    → s.last_refill ≡ start
    → Ascending start times end
    → (publish_all times s).1 * (w * ticks_per_second) ≤ t + (end - start) * m
unfolding publish_all
publish_all-Holds m w t start end [] s h e up = omega arith
publish_all-Holds m w t start end (now ∷ times) s h e up =
    let (t', h', last, bound) = should_publish-Holds m w t now s h in
    publish_first m (w * ticks_per_second) t t' s.last_refill start now end
      (publish_all times (should_publish now s).0).1 (should_publish now s).1 e up.0
      (Ascending-le now times end up.1) bound
      (publish_all-Holds m w t' now end times (should_publish now s).0 h' last up.1)

rate_limit-Holds :
    (max_events window_seconds start : ℕ) (s : RateLimitStrategy)
    → rate_limit max_events window_seconds start ≡ returned s
    → Holds max_events window_seconds (max_events * (window_seconds * ticks_per_second)) s
      × (s.last_refill ≡ start)
unfolding rate_limit
rate_limit-Holds max_events window_seconds start s made = ground arith

-- The bucket keeps its size, whatever the times are.
publish_all_size :
    (m w t : ℕ) (times : List ℕ) (s : RateLimitStrategy)
    → Holds m w t s
    → (t' : ℕ) × Holds m w t' (publish_all times s).0
unfolding publish_all
publish_all_size m w t [] s h = (t, h)
publish_all_size m w t (now ∷ times) s h =
    let (t', h', last, bound) = should_publish-Holds m w t now s h in
    publish_all_size m w t' times (should_publish now s).0 h'

refill_capped :
    (m w t now : ℕ) (s : RateLimitStrategy)
    → Holds m w t s
    → (t' : ℕ) × Holds m w t' (refill now s)
      × ((refill now s).last_refill ≡ now)
      × (t' ≤ m * (w * ticks_per_second))
unfolding refill
refill_capped m w t now s (em, ew, et) =
    let gained = t + (now - s.last_refill) * m in
    rw (em, ew, et)
      (elim (Bool-cases (leb gained (m * (w * ticks_per_second)))) [
        | inl e ↦ (gained, (refl, refl, rw e refl), refl, ground arith)
        | inr e ↦ (m * (w * ticks_per_second), (refl, refl, rw e refl), refl, omega arith)
      ])

-- One event in a bucket with any history: what is spent and left is at most a full bucket.
should_publish_capped :
    (m w t now : ℕ) (s : RateLimitStrategy)
    → Holds m w t s
    → let (s', answer) = should_publish now s in
      (t' : ℕ) × Holds m w t' s'
      × (s'.last_refill ≡ now)
      × (t' + (if answer then w * ticks_per_second else 0) ≤ m * (w * ticks_per_second))
unfolding should_publish
should_publish_capped m w t now s h =
    let (t', held, last, bound) = refill_capped m w t now s h in
    let (t'', held', last', bound') = spend-Holds m w t' (refill now s) held in
    (t'', held', last' ∙ last, omega (arith, bound, bound'))

publish_all_span :
    (m w t start ticks : ℕ) (times : List ℕ) (s : RateLimitStrategy)
    → Holds m w t s
    → Ascending start times (start + ticks)
    → (publish_all times s).1 * (w * ticks_per_second) ≤ m * (w * ticks_per_second) + m * ticks
unfolding publish_all
publish_all_span m w t start ticks [] s h up = omega arith
publish_all_span m w t start ticks (now ∷ times) s h up =
    let u = w * ticks_per_second in
    let (t', h', last, bound) = should_publish_capped m w t now s h in
    let reach : now ≤ start + ticks = Ascending-le now times (start + ticks) up.1 in
    let spent =
      publish_first m u (m * u) t' now now now (start + ticks)
        (publish_all times (should_publish now s).0).1 (should_publish now s).1 refl (omega arith)
        reach (omega (arith, bound))
        (publish_all-Holds m w t' now (start + ticks) times (should_publish now s).0 h' last
          up.1) in
    let later : (start + ticks - now) * m ≤ ticks * m = mul-le-mul_right m (omega (arith, up.0)) in
    omega (arith, spent, later)

-- Over every span of time: a bucket of `max_events` in `window_seconds`, asked before at any times,
-- and then at times that do not go back and lie within `ticks` of some start, lets through in this
-- span at most max_events + max_events * ticks / window events.
pub publish_all-rate_limit :
    (max_events window_seconds created start ticks : ℕ) (earlier times : List ℕ)
    (s : RateLimitStrategy)
    → rate_limit max_events window_seconds created ≡ returned s
    → Ascending start times (start + ticks)
    → (publish_all times (publish_all earlier s).0).1 * (window_seconds * ticks_per_second)
      ≤ max_events * (window_seconds * ticks_per_second) + max_events * ticks
publish_all-rate_limit max_events window_seconds created start ticks earlier times s made up =
    let (held, last) = rate_limit-Holds max_events window_seconds created s made in
    let (t, size) = publish_all_size max_events window_seconds _ earlier s held in
    publish_all_span max_events window_seconds t start ticks times (publish_all earlier s).0 size up

-- A bucket with exactly k tokens, asked at the time of its last refill.
Exactly : ℕ → ℕ → ℕ → ℕ → RateLimitStrategy → Type 0
Exactly m w now k s =
    Holds m w (k * (w * ticks_per_second)) s × (s.last_refill ≡ now) × (k ≤ m) × (0 < w)

refill-Exactly :
    (m w now k : ℕ) (s : RateLimitStrategy) → Exactly m w now k s → Exactly m w now k (refill now s)
unfolding refill Exactly
refill-Exactly m w now k s ((em, ew, et), last, le, some_window) =
    let fits : k * (w * ticks_per_second) ≤ m * (w * ticks_per_second) = grind arith in
    ((em, ew, rw (em, ew, et, last) (ground arith)), refl, le, some_window)

spend-Exactly :
    (m w now k : ℕ) (s : RateLimitStrategy)
    → Exactly m w now (suc k) s
    → ((spend s).1 ≡ true) × Exactly m w now k (spend s).0
unfolding Exactly
spend-Exactly m w now k s ((em, ew, et), last, le, some_window) =
    let u = w * ticks_per_second in
    let enough : leb u (suc k * u) ≡ true = ground arith in
    let left : suc k * u - u ≡ k * u = omega arith in
    rw (ew, et) (rw (enough, left) (refl, ((em, refl, refl), last, omega arith, some_window)))

spend_nothing : (m w now : ℕ) (s : RateLimitStrategy) → Exactly m w now 0 s → spend s ≡ (s, false)
unfolding Exactly
spend_nothing m w now s ((em, ew, et), last, le, some_window) =
    let short : leb (w * ticks_per_second) (0 * (w * ticks_per_second)) ≡ false = ground arith in
    rw (ew, et) (rw short refl)

burst_published :
    (n k m w now : ℕ) (s : RateLimitStrategy)
    → Exactly m w now k (refill now s)
    → (publish_all (burst n now) s).1 ≡ min n k
unfolding publish_all should_publish
burst_published zero k m w now s h = omega arith
burst_published (suc n) zero m w now s h = rw (spend_nothing m w now (refill now s) h) (
    burst_published n zero m w now (refill now s) (refill-Exactly m w now 0 (refill now s) h)
    ∙ omega arith)
burst_published (suc n) (suc k) m w now s h =
    let (sent, held) = spend-Exactly m w now k (refill now s) h in
    rw sent (ap suc (burst_published n k m w now _ (refill-Exactly m w now k _ held)) ∙ omega arith)

refill_full :
    (m w t now : ℕ) (s : RateLimitStrategy)
    → Holds m w t s
    → 0 < w
    → s.last_refill + w * ticks_per_second ≤ now
    → Exactly m w now m (refill now s)
unfolding refill Exactly
refill_full m w t now s (em, ew, et) some_window idle =
    let long : w * ticks_per_second * m ≤ (now - s.last_refill) * m =
      mul-le-mul_right m (omega arith) in
    ((em, ew, rw (em, ew, et) (ground arith)), refl, omega arith, some_window)

-- After a window without events, a bucket that does not hold more than it may is full: of a burst
-- of n events at one time, it lets through the first max_events and no more.
pub publish_all-burst :
    (n max_events window_seconds t now : ℕ) (s : RateLimitStrategy)
    → Holds max_events window_seconds t s
    → 0 < window_seconds
    → s.last_refill + window_seconds * ticks_per_second ≤ now
    → (publish_all (burst n now) s).1 ≡ min n max_events
publish_all-burst n max_events window_seconds t now s h w idle =
    burst_published n max_events max_events window_seconds now s
      (refill_full max_events window_seconds t now s h w idle)
