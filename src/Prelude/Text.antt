-- ===== src/Prelude/Text.antt =====
-- Text matching as the program uses it: `a.lower() in b.lower()`, over the characters' codes.
-- `lower` is Python's on ASCII letters; other characters are left as they are.
use Prim.Native.Nat.{ℕ, ◌+◌}
use Prim.Native.Char.{code}
use Prim.Native.String.{String}
use mathlib.Core.Path.{◌≡◌, refl}
use mathlib.Core.Bool.{Bool, true, false, ◌&&◌, ◌||◌}
use mathlib.Core.List.{List, [], ◌∷◌, ◌++◌, map}
use native.Mathlib.Omega.{arith}
use glady_s.Prelude.Tests.{leb, nat_eq, if◌then◌else◌}

abbrev pub codes : String → List ℕ
codes String.[] = []
codes (String.◌∷◌ c s) = code c ∷ codes s

unfoldable pub lower_code : ℕ → ℕ
lower_code c = if leb b'A' c && leb c b'Z' then c + 32 else c

-- s.lower()
unfoldable pub lower : String → List ℕ
unfolding lower_code
lower s = map lower_code (codes s)

unfoldable pub starts : List ℕ → List ℕ → Bool
starts [] ys = true
starts (x ∷ xs) [] = false
starts (x ∷ xs) (y ∷ ys) = nat_eq x y && starts xs ys

-- xs in ys
unfoldable pub occurs : List ℕ → List ℕ → Bool
unfolding starts
occurs xs [] = starts xs []
occurs xs (y ∷ ys) = starts xs (y ∷ ys) || occurs xs ys

abbrev pub same_codes : List ℕ → List ℕ → Bool
same_codes [] [] = true
same_codes (x ∷ xs) (y ∷ ys) = nat_eq x y && same_codes xs ys
same_codes [] (y ∷ ys) = false
same_codes (x ∷ xs) [] = false

-- pattern.lower() in text.lower()
unfoldable pub contains : String → String → Bool
unfolding occurs lower
contains pattern text = occurs (lower pattern) (lower text)

starts_sound : (xs ys : List ℕ) → starts xs ys ≡ true → (post : List ℕ) × (ys ≡ xs ++ post)
unfolding starts
starts_sound [] ys h = (ys, refl)
starts_sound (x ∷ xs) [] h = absurd (ground arith)
starts_sound (x ∷ xs) (y ∷ ys) h =
    let (post, e) = starts_sound xs ys (ground arith) in (post, ground arith)

starts_complete : (xs post : List ℕ) → starts xs (xs ++ post) ≡ true
unfolding starts
starts_complete [] post = refl
starts_complete (x ∷ xs) post = ground (arith, starts_complete xs post)
