-- ===== src/Prelude/Sorting.antt =====
-- Python's stable sort and its laws: what it keeps, and its order; lists with distinct indices.
use glady_s.Prelude.{
  ℕ, suc, zero, ◌≡◌, ◌≢◌, ◌⊎◌, refl, sym, ap, ◌++◌, inl, inr, Bool, true, false, ◌||◌, List, [],
  ◌∷◌, arith,
}
use glady_s.Prelude.Tests.{if◌then◌else◌, nat_eq, Bool-cases, if_both}
use glady_s.Prelude.Lists.{length, take, keep, exists, All, All-imp, In}

-- `sort` by a key, whose order `before` decides; equal keys keep their places.
unfoldable pub insert_by {ℓ} : {A : Type ℓ} → (A → A → Bool) → A → List A → List A
insert_by before x [] = x ∷ []
insert_by before x (y ∷ ys) =
    let later = insert_by before x ys in if before y x then y ∷ later else x ∷ y ∷ ys

unfoldable pub sort_by {ℓ} : {A : Type ℓ} → (A → A → Bool) → List A → List A
unfolding insert_by
sort_by before [] = []
sort_by before (x ∷ xs) = insert_by before x (sort_by before xs)

module _ {ℓ} {A : Type ℓ} (before : A → A → Bool) where
  length-insert_by : (x : A) (xs : List A) → length (insert_by before x xs) ≡ suc (length xs)
  unfolding insert_by
  length-insert_by x [] = refl
  length-insert_by x (y ∷ ys) = ground (arith, length-insert_by x ys)

  pub length-sort_by : (xs : List A) → length (sort_by before xs) ≡ length xs
  unfolding sort_by
  length-sort_by [] = refl
  length-sort_by (x ∷ xs) = omega (arith, length-insert_by x (sort_by before xs), length-sort_by xs)

  All-insert_by {κ} :
      (P : A → Type κ) (x : A) (xs : List A) → P x → All P xs → All P (insert_by before x xs)
  unfolding insert_by
  All-insert_by P x [] h hs = (h, tt)
  All-insert_by P x (y ∷ ys) h hs = elim (Bool-cases (before y x)) [
    | inl e ↦ rw e (hs.0, All-insert_by P x ys h hs.1)
    | inr e ↦ rw e (h, hs)
  ]

  pub All-sort_by {κ} : (P : A → Type κ) (xs : List A) → All P xs → All P (sort_by before xs)
  unfolding sort_by
  All-sort_by P [] h = tt
  All-sort_by P (x ∷ xs) h = All-insert_by P x (sort_by before xs) h.0 (All-sort_by P xs h.1)

  All-uninsert_by {κ} :
      (P : A → Type κ) (x : A) (xs : List A) → All P (insert_by before x xs) → P x × All P xs
  unfolding insert_by
  All-uninsert_by P x [] h = h
  All-uninsert_by P x (y ∷ ys) h = elim (Bool-cases (before y x)) [
    | inl e ↦
        let (first, rest) = rw e at h in
        let (here, later) = All-uninsert_by P x ys rest in (here, (first, later))
    | inr e ↦ rw e at h
  ]

  pub All-unsort_by {κ} : (P : A → Type κ) (xs : List A) → All P (sort_by before xs) → All P xs
  unfolding sort_by
  All-unsort_by P [] h = tt
  All-unsort_by P (x ∷ xs) h =
      let (here, rest) = All-uninsert_by P x (sort_by before xs) h in
      (here, All-unsort_by P xs rest)

  exists-insert_by :
      (p : A → Bool) (x : A) (xs : List A) → exists p (insert_by before x xs) ≡ (p x || exists p xs)
  unfolding insert_by
  exists-insert_by p x [] = refl
  exists-insert_by p x (y ∷ ys) = ground (arith, exists-insert_by p x ys)

  pub exists-sort_by : (p : A → Bool) (xs : List A) → exists p (sort_by before xs) ≡ exists p xs
  unfolding sort_by
  exists-sort_by p [] = refl
  exists-sort_by p (x ∷ xs) =
      ground (arith, exists-insert_by p x (sort_by before xs), exists-sort_by p xs)

  count-insert_by :
      (p : A → Bool) (x : A) (xs : List A)
      → length (keep p (insert_by before x xs)) ≡ length (keep p (x ∷ xs))
  unfolding insert_by
  count-insert_by p x [] = refl
  count-insert_by p x (y ∷ ys) = ground (arith, count-insert_by p x ys)

  -- A sort changes no count.
  pub count-sort_by :
      (p : A → Bool) (xs : List A) → length (keep p (sort_by before xs)) ≡ length (keep p xs)
  unfolding sort_by
  count-sort_by p [] = refl
  count-sort_by p (x ∷ xs) =
      ground (arith, count-insert_by p x (sort_by before xs), count-sort_by p xs)

-- No two elements have one index.
unfoldable pub Distinct {ℓ} : {A : Type ℓ} → (A → ℕ) → List A → Type ℓ
Distinct index [] = Unit
Distinct index (x ∷ xs) = All (λ y. index y ≢ index x) xs × Distinct index xs

module _ {ℓ} {A : Type ℓ} (before : A → A → Bool) (index : A → ℕ) where
  insert_by-Distinct :
      (x : A) (xs : List A)
      → All (λ y. index y ≢ index x) xs
      → Distinct index xs
      → Distinct index (insert_by before x xs)
  unfolding insert_by Distinct
  insert_by-Distinct x [] h d = (tt, tt)
  insert_by-Distinct x (y ∷ ys) h d = elim (Bool-cases (before y x)) [
    | inl e ↦ rw e (
      All-insert_by before (λ z. index z ≢ index y) x ys (λ same. h.0 (sym same)) d.0,
      insert_by-Distinct x ys h.1 d.1,
    )
    | inr e ↦ rw e (h, d)
  ]

  pub sort_by-Distinct : (xs : List A) → Distinct index xs → Distinct index (sort_by before xs)
  unfolding sort_by Distinct
  sort_by-Distinct [] d = tt
  sort_by-Distinct (x ∷ xs) d =
      insert_by-Distinct x (sort_by before xs) (All-sort_by before (λ y. index y ≢ index x) xs d.0)
        (sort_by-Distinct xs d.1)

abbrev pub among {ℓ} : {A : Type ℓ} → (A → ℕ) → ℕ → List A → Bool
among index i xs = exists (λ x. nat_eq (index x) i) xs

module _ {ℓ} {A : Type ℓ} (index : A → ℕ) where
  pub among_absent : (i : ℕ) (xs : List A) → All (λ y. index y ≢ i) xs → among index i xs ≡ false
  among_absent i [] h = refl
  among_absent i (x ∷ xs) h = ground (arith, h.0, among_absent i xs h.1)

  -- Nothing of a list is among others.
  count_none : (p : A → Bool) (xs : List A) → All (λ x. p x ≡ false) xs → length (keep p xs) ≡ 0
  count_none p [] h = refl
  count_none p (x ∷ xs) h = ground (arith, h.0, count_none p xs h.1)

  count_shift :
      (x : A) (ys xs : List A)
      → All (λ y. index y ≢ index x) xs
      → length (keep (λ y. nat_eq (index x) (index y) || among index (index y) ys) xs)
        ≡ length (keep (λ y. among index (index y) ys) xs)
  count_shift x ys [] h = refl
  count_shift x ys (z ∷ zs) h = ground (arith, h.0, count_shift x ys zs h.1)

  -- Of distinct elements, as many have the index of one of the first n as there are first n.
  pub count-take :
      (n : ℕ) (xs : List A)
      → Distinct index xs
      → length (keep (λ x. among index (index x) (take n xs)) xs) ≡ length (take n xs)
  unfolding Distinct
  count-take zero [] d = refl
  count-take zero (x ∷ xs) d = count-take zero xs d.1
  count-take (suc n) [] d = refl
  count-take (suc n) (x ∷ xs) d =
      ground (arith, count_shift x (take n xs) xs d.0, count-take n xs d.1)

-- Nothing comes before an element that stands earlier.
unfoldable pub Ordered {ℓ} : {A : Type ℓ} → (A → A → Bool) → List A → Type ℓ
Ordered before [] = Unit
Ordered before (x ∷ xs) = All (λ y. before y x ≡ false) xs × Ordered before xs

abbrev pub drop {ℓ} : {A : Type ℓ} → ℕ → List A → List A
drop zero xs = xs
drop (suc n) [] = []
drop (suc n) (x ∷ xs) = drop n xs

module _ {ℓ} {A : Type ℓ} where
  pub All-drop {κ} : (P : A → Type κ) (n : ℕ) (xs : List A) → All P xs → All P (drop n xs)
  All-drop P zero xs h = h
  All-drop P (suc n) [] h = tt
  All-drop P (suc n) (x ∷ xs) h = All-drop P n xs h.1

  pub All-take {κ} : (P : A → Type κ) (n : ℕ) (xs : List A) → All P xs → All P (take n xs)
  All-take P zero xs h = tt
  All-take P (suc n) [] h = tt
  All-take P (suc n) (x ∷ xs) h = (h.0, All-take P n xs h.1)

module _ {ℓ} {A : Type ℓ} (before : A → A → Bool)
    (asym : (x y : A) → before y x ≡ true → before x y ≡ false)
    (through : (x y z : A) → before z y ≡ false → before y x ≡ false → before z x ≡ false) where
  insert_by-Ordered :
      (x : A) (xs : List A) → Ordered before xs → Ordered before (insert_by before x xs)
  unfolding insert_by Ordered
  insert_by-Ordered x [] h = (tt, tt)
  insert_by-Ordered x (y ∷ ys) h = elim (Bool-cases (before y x)) [
    | inl e ↦ rw e (
      All-insert_by before (λ z. before z y ≡ false) x ys (asym x y e) h.0,
      insert_by-Ordered x ys h.1,
    )
    | inr e ↦ rw e (
      (
        e,
        All-imp (λ z. before z y ≡ false) (λ z. before z x ≡ false) (λ z l. through x y z l e) ys
            h.0,
      ),
      h,
    )
  ]

  pub sort_by-Ordered : (xs : List A) → Ordered before (sort_by before xs)
  unfolding sort_by Ordered
  sort_by-Ordered [] = tt
  sort_by-Ordered (x ∷ xs) = insert_by-Ordered x (sort_by before xs) (sort_by-Ordered xs)

pub take_then_drop {ℓ} : {A : Type ℓ} (n : ℕ) (xs : List A) → take n xs ++ drop n xs ≡ xs
take_then_drop zero xs = refl
take_then_drop (suc n) [] = refl
take_then_drop (suc n) (x ∷ xs) = ap (◌∷◌ x) (take_then_drop n xs)

-- The first n of an ordered list come before the rest.
pub take-drop-Ordered {ℓ} :
    {A : Type ℓ} (before : A → A → Bool) (n : ℕ) (xs : List A)
    → Ordered before xs
    → All (λ x. All (λ y. before y x ≡ false) (drop n xs)) (take n xs)
unfolding Ordered
take-drop-Ordered before zero xs h = tt
take-drop-Ordered before (suc n) [] h = tt
take-drop-Ordered before (suc n) (x ∷ xs) h =
    (All-drop (λ y. before y x ≡ false) n xs h.0, take-drop-Ordered before n xs h.1)

module _ {A : Type 0} (before : A → A → Bool) where
  In-insert_by : (x y : A) (ys : List A) → (x ≡ y) ⊎ In x ys → In x (insert_by before y ys)
  unfolding insert_by
  In-insert_by x y [] h = h
  In-insert_by x y (z ∷ zs) (inl same) =
      if_both (In x) (before z y) (inr (In-insert_by x y zs (inl same))) (inl same)
  In-insert_by x y (z ∷ zs) (inr (inl same)) =
      if_both (In x) (before z y) (inl same) (inr (inl same))
  In-insert_by x y (z ∷ zs) (inr (inr later)) =
      if_both (In x) (before z y) (inr (In-insert_by x y zs (inr later))) (inr (inr later))

  pub In-sort_by : (x : A) (xs : List A) → In x xs → In x (sort_by before xs)
  unfolding sort_by
  In-sort_by x [] h = h
  In-sort_by x (y ∷ ys) (inl same) = In-insert_by x y (sort_by before ys) (inl same)
  In-sort_by x (y ∷ ys) (inr later) =
      In-insert_by x y (sort_by before ys) (inr (In-sort_by x ys later))

-- An element is among the first n, or these are n and it is among the rest.
pub In-take-drop :
    {A : Type 0} (x : A) (n : ℕ) (xs : List A)
    → In x xs
    → In x (take n xs) ⊎ ((length (take n xs) ≡ n) × In x (drop n xs))
In-take-drop x zero xs h = inr (refl, h)
In-take-drop x (suc n) [] h = absurd h
In-take-drop x (suc n) (y ∷ ys) (inl same) = inl (inl same)
In-take-drop x (suc n) (y ∷ ys) (inr later) = elim (In-take-drop x n ys later) [
  | inl early ↦ inl (inr early)
  | inr (full, late) ↦ inr (ap suc full, late)
]
