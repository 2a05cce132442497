-- ===== src/Prelude/Dict.antt =====
-- Python's `dict` with text keys. It iterates in insertion order, and an assignment to a key that
-- is there keeps the key's place.
use Prim.Native.Nat.{suc}
use Prim.Native.String.{String}
use mathlib.Core.Path.{◌≡◌, refl}
use mathlib.Core.Bool.{Bool, true, false}
use mathlib.Core.Logic.{inl, inr}
use mathlib.Core.Option.{Option, none, some}
use mathlib.Core.List.{List, [], ◌∷◌, map}
use native.Mathlib.Omega.{arith}
use text.Mathlib.Text.{◌==◌}
use text.Mathlib.TextEquality.{eq_iff}
use glady_s.Prelude.Tests.{Bool-cases, if◌then◌else◌}
use glady_s.Prelude.Lists.{length}

abbrev pub Dict {ℓ} : Type ℓ → Type ℓ
Dict V = List (String × V)

module _ {ℓ} {V : Type ℓ} where
  -- d.get(k)
  unfoldable pub get : String → Dict V → Option V
  get k [] = none
  get k ((j, v) ∷ d) = if j == k then some v else get k d

  -- k in d
  unfoldable pub has : String → Dict V → Bool
  has k [] = false
  has k ((j, v) ∷ d) = if j == k then true else has k d

  -- d[k] = v
  unfoldable pub put : String → V → Dict V → Dict V
  put k v [] = (k, v) ∷ []
  put k v ((j, w) ∷ d) = if j == k then (j, v) ∷ d else (j, w) ∷ put k v d

  -- d.pop(k, None)
  unfoldable pub remove : String → Dict V → Dict V
  remove k [] = []
  remove k ((j, w) ∷ d) = let rest = remove k d in if j == k then rest else (j, w) ∷ rest

  abbrev pub values : Dict V → List V
  values = map (λ e. e.1)

  abbrev pub keys : Dict V → List String
  keys = map (λ e. e.0)

  -- No key twice, as in every Python dict.
  abbrev pub Distinct : Dict V → Type 0
  Distinct [] = Unit {0}
  Distinct ((j, v) ∷ d) = (has j d ≡ false) × Distinct d

module _ {ℓ} {V : Type ℓ} where
  pub get-put :
      (k j : String) (v : V) (d : Dict V) → get j (put k v d) ≡ (if k == j then some v else get j d)
  unfolding get put
  get-put k j v [] = refl
  get-put k j v ((i, w) ∷ d) = ground (arith, eq_iff k j, eq_iff i k, eq_iff i j, get-put k j v d)

  pub get-remove :
      (k j : String) (d : Dict V) → get j (remove k d) ≡ (if k == j then none else get j d)
  unfolding get remove
  get-remove k j [] = ground arith
  get-remove k j ((i, w) ∷ d) = ground (arith, eq_iff k j, eq_iff i k, eq_iff i j, get-remove k j d)

  pub has-put :
      (k j : String) (v : V) (d : Dict V) → has j (put k v d) ≡ (if k == j then true else has j d)
  unfolding has put
  has-put k j v [] = refl
  has-put k j v ((i, w) ∷ d) = ground (arith, eq_iff k j, eq_iff i k, eq_iff i j, has-put k j v d)

  pub has-remove :
      (k j : String) (d : Dict V) → has j (remove k d) ≡ (if k == j then false else has j d)
  unfolding has remove
  has-remove k j [] = ground arith
  has-remove k j ((i, w) ∷ d) = ground (arith, eq_iff k j, eq_iff i k, eq_iff i j, has-remove k j d)

  pub has-get : (k : String) (d : Dict V) (v : V) → get k d ≡ some v → has k d ≡ true
  unfolding get has
  has-get k [] v h = ground arith
  has-get k ((j, w) ∷ d) v h = ground (arith, has-get k d v)

  pub get_of_not-has : (k : String) (d : Dict V) → has k d ≡ false → get k d ≡ none
  unfolding get has
  get_of_not-has k [] h = refl
  get_of_not-has k ((j, w) ∷ d) h = ground (arith, get_of_not-has k d)

  pub get_of_has : (k : String) (d : Dict V) → has k d ≡ true → (v : V) × (get k d ≡ some v)
  unfolding get has
  get_of_has k [] h = absurd (ground arith)
  get_of_has k ((j, w) ∷ d) h = elim (Bool-cases (j == k)) [
    | inl e ↦ (w, rw e)
    | inr e ↦ rw e (get_of_has k d (rw e at h))
  ]

  pub not-has_of_none : (k : String) (d : Dict V) → get k d ≡ none → has k d ≡ false
  unfolding get has
  not-has_of_none k [] h = refl
  not-has_of_none k ((j, w) ∷ d) h = ground (arith, not-has_of_none k d)

  pub put-Distinct : (k : String) (v : V) (d : Dict V) → Distinct d → Distinct (put k v d)
  unfolding has put
  put-Distinct k v [] h = (refl, tt)
  put-Distinct k v ((i, w) ∷ d) h =
      ground (arith, h.0, h.1, has-put k i v d, eq_iff i k, eq_iff k i, put-Distinct k v d h.1)

  pub remove-Distinct : (k : String) (d : Dict V) → Distinct d → Distinct (remove k d)
  unfolding has remove
  remove-Distinct k [] h = tt
  remove-Distinct k ((i, w) ∷ d) h =
      ground (arith, h.0, h.1, has-remove k i d, eq_iff i k, eq_iff k i, remove-Distinct k d h.1)

  pub remove_absent : (k : String) (d : Dict V) → has k d ≡ false → remove k d ≡ d
  unfolding has remove
  remove_absent k [] h = refl
  remove_absent k ((i, w) ∷ d) h = ground (arith, remove_absent k d)

  pub length-put :
      (k : String) (v : V) (d : Dict V)
      → length (put k v d) ≡ (if has k d then length d else suc (length d))
  unfolding has put
  length-put k v [] = refl
  length-put k v ((i, w) ∷ d) = ground (arith, length-put k v d)

  pub length-remove :
      (k : String) (d : Dict V)
      → Distinct d
      → length d ≡ (if has k d then suc (length (remove k d)) else length (remove k d))
  unfolding has remove
  length-remove k [] h = refl
  length-remove k ((i, w) ∷ d) h =
      ground (arith, h.0, eq_iff i k, remove_absent k d, length-remove k d h.1)
