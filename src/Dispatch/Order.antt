-- ===== src/Dispatch/Order.antt =====
-- Which events a batch sends, and in which order.
use glady_s.Prelude.{ℕ, suc, ◌≡◌, refl, ap, inl, inr, Bool, ◌||◌, Option, List, [], ◌∷◌, map}
use glady_s.Prelude.Tests.{Bool-cases}
use glady_s.Prelude.Lists.{keep}
use glady_s.FlowControl.{FlowStrategy}
use glady_s.Dispatch.Batch.{
  SensorEvent, is_threat, Indexed, enumerate, threat_at, partition_threats, reorder_original,
  has_index, selection,
}
use glady_s.Dispatch.Choice.{List-cases}
use glady_s.Dispatch.Indices.{reorder_keeps, index_of}

-- The first list is the second without some of its elements.
pub data Subsequence {ℓ} {A : Type ℓ} : List A → List A → Type ℓ where
  done : Subsequence [] []
  with_head : (x : A) (xs ys : List A) → Subsequence xs ys → Subsequence (x ∷ xs) (x ∷ ys)
  without : (y : A) (xs ys : List A) → Subsequence xs ys → Subsequence xs (y ∷ ys)

keep-Subsequence :
    (q : Indexed → Bool) (n : ℕ) (es : List SensorEvent)
    → Subsequence (map (λ (x : Indexed). x.1) (keep q (enumerate n es))) es
keep-Subsequence q n [] = done
keep-Subsequence q n (e ∷ es) = elim (Bool-cases (q (n, e))) [
  | inl h ↦ rw h (with_head e _ es (keep-Subsequence q (suc n) es))
  | inr h ↦ rw h (without e _ es (keep-Subsequence q (suc n) es))
]

threats_kept :
    (q : Indexed → Bool) (n : ℕ) (es : List SensorEvent)
    → keep is_threat (map (λ (x : Indexed). x.1) (keep (λ x. threat_at x || q x) (enumerate n es)))
      ≡ keep is_threat es
threats_kept q n [] = refl
threats_kept q n (e ∷ es) = elim (Bool-cases (is_threat e)) [
  | inl h ↦ rw h (rw h (ap (◌∷◌ e) (threats_kept q (suc n) es)))
  | inr h ↦ elim (Bool-cases (q (n, e))) [
    | inl h' ↦ rw (h, h') (rw h (threats_kept q (suc n) es))
    | inr h' ↦ rw (h, h') (threats_kept q (suc n) es)
  ]
]

-- What is sent is `reorder_original` of some kept candidates.
selection_reorders :
    (now : ℕ) (events : List SensorEvent) (s : FlowStrategy) (priority : Option (SensorEvent → ℕ))
    → (kept : List Indexed) × ((selection now events s priority).1
        ≡ reorder_original events (partition_threats events).0 kept)
unfolding selection
selection_reorders now events s priority = elim (List-cases (partition_threats events).1) [
  | inl none_there ↦ rw (none_there, selection) ([], refl)
  | inr (c, cs, some_there) ↦ rw (some_there, selection) (_, refl)
]

-- The events of a batch that are selected to be sent stand in the batch's order, and every threat of
-- the batch is among them, whatever the strategy. How they are then sent or buffered is not part of
-- this.
pub selection-Subsequence :
    (now : ℕ) (events : List SensorEvent) (s : FlowStrategy) (priority : Option (SensorEvent → ℕ))
    → let to_send = (selection now events s priority).1 in
      Subsequence to_send events × (keep is_threat to_send ≡ keep is_threat events)
selection-Subsequence now events s priority =
    let (kept, e) = selection_reorders now events s priority in
    rw (e, reorder_keeps events kept)
      (keep-Subsequence _ 0 events, threats_kept (λ x. has_index (index_of x) kept) 0 events)
