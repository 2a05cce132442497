-- ===== src/Prelude/Strings.antt =====
-- Python's texts: whitespace, `strip`, `split`, `join` and the lines of a text.
use Prim.Native.Nat.{ℕ, suc}
use Prim.Native.Char.{Char, code}
use Prim.Native.String.{String, ◌++◌ as ◌<>◌}
use mathlib.Core.Bool.{Bool, false, not, ◌&&◌, ◌||◌}
use mathlib.Core.List.{List, [], ◌∷◌}
use text.Mathlib.Text.{◌==◌, starts_with}
use glady_s.Prelude.Tests.{leb, nat_eq, if◌then◌else◌}
use glady_s.Prelude.Lists.{keep}

abbrev between : ℕ → ℕ → ℕ → Bool
between low high c = leb low c && leb c high

-- str.isspace of one character
abbrev pub is_space : ℕ → Bool
is_space c =
    between 9 13 c
    || between 28 32 c
    || nat_eq c 133
    || nat_eq c 160
    || nat_eq c 5760
    || between 8192 8202 c
    || between 8232 8233 c
    || nat_eq c 8239
    || nat_eq c 8287
    || nat_eq c 12288

-- The number of words, inside of a word or outside.
abbrev words_from : Bool → String → ℕ
words_from inside String.[] = 0
words_from inside (String.◌∷◌ c s) =
    let letter = not (is_space (code c)) in
    let rest = words_from letter s in if letter && not inside then suc rest else rest

-- len(s.split())
unfoldable pub word_count : String → ℕ
word_count s = words_from false s

abbrev lstrip : String → String
lstrip String.[] = String.[]
lstrip (String.◌∷◌ c s) = let rest = lstrip s in if is_space (code c) then rest else String.◌∷◌ c s

abbrev rstrip : String → String
rstrip String.[] = String.[]
rstrip (String.◌∷◌ c s) =
    let rest = rstrip s in if is_space (code c) && rest == "" then "" else String.◌∷◌ c rest

-- s.strip()
unfoldable pub strip : String → String
strip s = rstrip (lstrip s)

abbrev onto_first : Char → List String → List String
onto_first c [] = String.◌∷◌ c String.[] ∷ []
onto_first c (line ∷ lines) = String.◌∷◌ c line ∷ lines

-- s.split(sep), for a separator of one character
unfoldable pub split_on : ℕ → String → List String
split_on sep String.[] = "" ∷ []
split_on sep (String.◌∷◌ c s) =
    let rest = split_on sep s in if nat_eq (code c) sep then "" ∷ rest else onto_first c rest

-- sep.join(xs)
unfoldable pub join : String → List String → String
join sep [] = ""
join sep (x ∷ []) = x
join sep (x ∷ y ∷ xs) = x <> sep <> join sep (y ∷ xs)

-- The answers of language models come in code fences: a text that begins with one loses the lines
-- that begin with one.
unfoldable pub strip_fences : String → String
unfolding strip split_on join
strip_fences text =
    let clean = strip text in
    if starts_with clean "```"
    then strip (join "\n" (keep (λ line. not (starts_with line "```")) (split_on 10 clean)))
    else clean
