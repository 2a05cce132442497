-- ===== src/Dispatch/Indices.antt =====
-- Indices of a batch's events: what `reorder_original` finds by them.
use glady_s.Prelude.{
  ℕ, suc, ◌≤◌, ◌≡◌, ◌≢◌, refl, ap, inl, inr, Bool, ◌||◌, List, [], ◌∷◌, map, arith,
}
use glady_s.Prelude.Tests.{Bool-cases}
use glady_s.Prelude.Lists.{keep, All, All-keep}
use glady_s.Dispatch.Batch.{
  SensorEvent, Indexed, enumerate, threat_at, partition_threats, reorder_original, has_index,
}
use glady_s.Prelude.Sorting.{Distinct, among_absent}

abbrev pub index_of : Indexed → ℕ
index_of x = x.0

enumerate_above :
    (n m : ℕ) (es : List SensorEvent) → suc n ≤ m → All (λ y. index_of y ≢ n) (enumerate m es)
enumerate_above n m [] h = tt
enumerate_above n m (e ∷ es) h =
    (λ same. absurd (omega arith), enumerate_above n (suc m) es (omega arith))

pub enumerate-Distinct : (n : ℕ) (es : List SensorEvent) → Distinct index_of (enumerate n es)
unfolding Distinct
enumerate-Distinct n [] = tt
enumerate-Distinct n (e ∷ es) =
    (enumerate_above n (suc n) es (omega arith), enumerate-Distinct (suc n) es)

pub keep-Distinct :
    (p : Indexed → Bool) (xs : List Indexed) → Distinct index_of xs → Distinct index_of (keep p xs)
unfolding Distinct
keep-Distinct p [] d = tt
keep-Distinct p (x ∷ xs) d = elim (Bool-cases (p x)) [
  | inl e ↦ rw e (All-keep (λ y. index_of y ≢ index_of x) p xs d.0, keep-Distinct p xs d.1)
  | inr e ↦ rw e (keep-Distinct p xs d.1)
]

has_index-keep_tail :
    (p : Indexed → Bool) (x : Indexed) (xs ys : List Indexed)
    → All (λ y. index_of y ≢ index_of x) ys
    → All (λ y. has_index (index_of y) (keep p xs) ≡ p y) ys
    → All (λ y. has_index (index_of y) (keep p (x ∷ xs)) ≡ p y) ys
has_index-keep_tail p x xs [] d h = tt
has_index-keep_tail p x xs (y ∷ ys) d h =
    (ground (arith, d.0, h.0), has_index-keep_tail p x xs ys d.1 h.1)

-- Of distinct elements, exactly those that are kept have the index of a kept one.
has_index-keep :
    (p : Indexed → Bool) (xs : List Indexed)
    → Distinct index_of xs
    → All (λ y. has_index (index_of y) (keep p xs) ≡ p y) xs
unfolding Distinct
has_index-keep p [] d = tt
has_index-keep p (x ∷ xs) d = (
  ground (
    arith,
    among_absent index_of (index_of x) (keep p xs)
        (All-keep (λ y. index_of y ≢ index_of x) p xs d.0),
  ),
  has_index-keep_tail p x xs xs d.0 (has_index-keep p xs d.1),
)

keep-or :
    (t p q : Indexed → Bool) (xs : List Indexed)
    → All (λ x. p x ≡ t x) xs
    → keep (λ x. p x || q x) xs ≡ keep (λ x. t x || q x) xs
keep-or t p q [] h = refl
keep-or t p q (x ∷ xs) h = ground (arith, h.0, keep-or t p q xs h.1)

-- What is sent: the threats, and what has the index of a kept candidate.
pub reorder_keeps :
    (events : List SensorEvent) (kept : List Indexed)
    → reorder_original events (partition_threats events).0 kept
      ≡ map
          (λ (x : Indexed). x.1)
          (keep (λ x. threat_at x || has_index (index_of x) kept) (enumerate 0 events))
unfolding reorder_original partition_threats
reorder_keeps events kept = ap (map (λ (x : Indexed). x.1)) (
    keep-or threat_at _ (λ x. has_index (index_of x) kept) (enumerate 0 events)
      (has_index-keep threat_at (enumerate 0 events) (enumerate-Distinct 0 events)))
