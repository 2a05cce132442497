-- ===== src/Json.antt =====
-- What `json.loads` makes of a text, with the operations on it that the program uses. Numbers are
-- in units of 10^-6.
use glady_s.Prelude.{zero, String, Bool, true, false, not, Option, none, some, ◌==◌}
use glady_s.Prelude.Tests.{if◌then◌else◌}
use glady_s.Prelude.Ints.{ℤ, pos}

mutual
  pub data Json : Type 0 where
    null : Json
    boolean : Bool → Json
    number : ℤ → Json
    text : String → Json
    array : Items → Json
    object : Fields → Json

  pub data Items : Type 0 where
    no_items : Items
    item : Json → Items → Items

  pub data Fields : Type 0 where
    no_fields : Fields
    field : String → Json → Fields → Fields

-- The value of a parser, or the text of its error.
pub data Parse : Type 0 where
  parsed : Json → Parse
  malformed : String → Parse

-- json.loads, and `float` of a text, which has no value for a text that is no number.
pub record JsonLibrary : Type 0 where
  pub loads : String → Parse
  pub parse_float : String → Option ℤ

unfoldable pub get_field : String → Fields → Option Json
get_field k no_fields = none
get_field k (field j v fs) = let rest = get_field k fs in if j == k then some v else rest

abbrev pub or_default : Json → Option Json → Json
or_default d none = d
or_default d (some v) = v

abbrev zero_number : ℤ → Bool
zero_number (pos zero) = true
zero_number z = false

-- Python's `not v`
abbrev pub is_falsy : Json → Bool
is_falsy null = true
is_falsy (boolean b) = not b
is_falsy (number z) = zero_number z
is_falsy (text s) = s == ""
is_falsy (array no_items) = true
is_falsy (array (item v vs)) = false
is_falsy (object no_fields) = true
is_falsy (object (field k v fs)) = false

-- float(v), none where it raises
unfoldable pub to_float : JsonLibrary → Json → Option ℤ
to_float l (boolean true) = some (pos 1000000)
to_float l (boolean false) = some (pos 0)
to_float l (number z) = some z
to_float l (text s) = l.parse_float s
to_float l null = none
to_float l (array vs) = none
to_float l (object fs) = none
