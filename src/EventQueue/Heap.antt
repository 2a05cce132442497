-- ===== src/EventQueue/Heap.antt =====
-- The heap in the order of its pops.
use glady_s.Prelude.{
  ◌<◌, String, ◌≡◌, refl, inl, inr, Bool, true, false, eq_iff, List, [], ◌∷◌, ◌==◌, arith,
}
use glady_s.Prelude.Tests.{Bool-cases, if◌then◌else◌}
use glady_s.Prelude.Lists.{All, All-imp, exists}
use glady_s.EventQueue.{HeapEntry, before, heappush}

abbrev pub Sorted : List HeapEntry → Type 0
Sorted [] = Unit {0}
Sorted (a ∷ heap) = All (λ b. before a b ≡ true) heap × Sorted heap

abbrev pub in_heap : String → List HeapEntry → Bool
in_heap id heap = exists (λ a. a.event_id == id) heap

pub All-heappush {ℓ} :
    (P : HeapEntry → Type ℓ) (a : HeapEntry) (heap : List HeapEntry)
    → P a
    → All P heap
    → All P (heappush a heap)
unfolding heappush
All-heappush P a [] p h = (p, tt)
All-heappush P a (b ∷ heap) p h = ground (arith, p, h, h.0, h.1, All-heappush P a heap p h.1)

pub in_heap-heappush :
    (id : String) (a : HeapEntry) (heap : List HeapEntry)
    → in_heap id (heappush a heap) ≡ (if a.event_id == id then true else in_heap id heap)
unfolding heappush
in_heap-heappush id a [] = ground arith
in_heap-heappush id a (b ∷ heap) = ground (arith, in_heap-heappush id a heap)

before_trans : (a b c : HeapEntry) → before a b ≡ true → before b c ≡ true → before a c ≡ true
before_trans a b c h k = ground arith

before_total :
    (a b : HeapEntry) → b.counter < a.counter → (if before b a then true else before a b) ≡ true
before_total a b h = ground arith

-- A push of the newest entry keeps the heap sorted.
pub heappush-Sorted :
    (a : HeapEntry) (heap : List HeapEntry)
    → All (λ b. b.counter < a.counter) heap
    → Sorted heap
    → Sorted (heappush a heap)
unfolding heappush
heappush-Sorted a [] c s = (tt, tt)
heappush-Sorted a (b ∷ heap) c s = elim (Bool-cases (before b a)) [
  | inl e ↦
      rw e (All-heappush (λ x. before b x ≡ true) a heap e s.0, heappush-Sorted a heap c.1 s.1)
  | inr e ↦
      let ab : before a b ≡ true = ground (arith, before_total a b c.0) in
      rw e ((ab, All-imp _ _ (λ x h. before_trans a b x ab h) heap s.0), s)
]

-- An id on the heap has an entry there, with what holds of every entry.
pub entry_of_in_heap {ℓ} :
    (P : HeapEntry → Type ℓ) (id : String) (heap : List HeapEntry)
    → All P heap
    → in_heap id heap ≡ true
    → (a : HeapEntry) × (a.event_id ≡ id) × P a
entry_of_in_heap P id [] h e = absurd (ground arith)
entry_of_in_heap P id (a ∷ heap) h e = elim (Bool-cases (a.event_id == id)) [
  | inl same ↦ (a, (eq_iff a.event_id id).0 same, h.0)
  | inr other ↦ entry_of_in_heap P id heap h.1 (ground arith)
]

-- No id twice.
abbrev pub Unique : List HeapEntry → Type 0
Unique [] = Unit {0}
Unique (a ∷ heap) = (in_heap a.event_id heap ≡ false) × Unique heap

pub heappush-Unique :
    (a : HeapEntry) (heap : List HeapEntry)
    → in_heap a.event_id heap ≡ false
    → Unique heap
    → Unique (heappush a heap)
unfolding heappush
heappush-Unique a [] n u = (refl, tt)
heappush-Unique a (b ∷ heap) n u = ground (
  arith,
  u.0,
  u.1,
  in_heap-heappush b.event_id a heap,
  eq_iff a.event_id b.event_id,
  eq_iff b.event_id a.event_id,
  heappush-Unique a heap,
)
