-- ===== src/Commands/Args.antt =====
-- args.py of the Python SDK: the typed arguments of commands, parsed leniently. A float is in units
-- of 10^-6, or it is not finite; a list or a dictionary stands for its text. `int` of a text reads
-- ASCII digits.
use glady_s.Prelude.{
  ℕ, ◌+◌, ◌-◌, ◌*◌, String, Bool, true, false, not, ◌&&◌, ◌||◌, Option, none, some, List, [], ◌∷◌,
}
use glady_s.Prelude.Tests.{leb, nat_eq, if◌then◌else◌}
use glady_s.Prelude.Text.{codes, lower, same_codes}
use glady_s.Prelude.Ints.{ℤ, pos, negsuc, minus, div_nat}
use glady_s.Prelude.Strings.{strip}
use glady_s.Prelude.Dict
use glady_s.Prelude.Dict.{Dict}

pub data Value : Type 0 where
  null not_finite : Value
  bool : Bool → Value
  int float : ℤ → Value
  str other : String → Value

abbrev pub Raw : Type 0
Raw = Dict Value

-- raw.get(key)
abbrev pub value_of : Option Value → Value
value_of none = null
value_of (some v) = v

-- Whether the last character was a digit, the value so far, and the rest.
unfoldable pub digits_value : Bool → ℕ → List ℕ → Option ℕ
digits_value last acc [] = if last then some acc else none
digits_value last acc (c ∷ cs) =
    let digit = leb 48 c && leb c 57 in
    let rest = digits_value digit (if digit then acc * 10 + (c - 48) else acc) cs in
    if digit || (nat_eq c 95 && last) then rest else none

abbrev positive : Option ℕ → Option ℤ
positive none = none
positive (some n) = some (pos n)

abbrev negative : Option ℕ → Option ℤ
negative none = none
negative (some n) = some (minus n)

abbrev signed_value : List ℕ → Option ℤ
signed_value [] = none
signed_value (c ∷ cs) =
    if nat_eq c 45
    then negative (digits_value false 0 cs)
    else if nat_eq c 43
    then positive (digits_value false 0 cs)
    else positive (digits_value false 0 (c ∷ cs))

-- int(s)
unfoldable pub parse_int : String → Option ℤ
unfolding digits_value
parse_int s = signed_value (codes (strip s))

abbrev is_zero : ℤ → Bool
is_zero (pos n) = nat_eq n 0
is_zero (negsuc n) = false

abbrev means_true : List ℕ → Bool
means_true s = same_codes s (codes "true") || same_codes s (codes "1") || same_codes s (codes "yes")

unfoldable pub safe_bool : Value → Bool → Bool
safe_bool (bool b) default = b
safe_bool (str s) default = means_true (lower s)
safe_bool (int z) default = not (is_zero z)
safe_bool (float z) default = not (is_zero z)
safe_bool not_finite default = true
safe_bool null default = default
safe_bool (other s) default = default

abbrev int_or : ℤ → Option ℤ → ℤ
int_or default none = default
int_or default (some z) = z

unfoldable pub safe_int : Value → ℤ → ℤ
unfolding parse_int
safe_int (int z) default = z
safe_int (float z) default = div_nat z 1000000
safe_int (str s) default = int_or default (parse_int s)
safe_int (bool b) default = default
safe_int not_finite default = default
safe_int null default = default
safe_int (other s) default = default

-- `str` of a number or of a Boolean is given.
unfoldable pub safe_str : (Value → String) → Value → String → String
safe_str show (str s) default = s
safe_str show null default = default
safe_str show (other s) default = s
safe_str show (bool b) default = show (bool b)
safe_str show (int z) default = show (int z)
safe_str show (float z) default = show (float z)
safe_str show not_finite default = show not_finite

pub record StartArgs : Type 0 where
  pub dry_run : Bool
  pub raw : Raw

pub record StopArgs : Type 0 where
  pub force : Bool
  pub timeout_ms : ℤ
  pub raw : Raw

pub record RecoverArgs : Type 0 where
  pub strategy : String
  pub raw : Raw

pub record HealthCheckArgs : Type 0 where
  pub deep : Bool
  pub raw : Raw

-- args.raw(key, default)
abbrev pub raw_or : String → Value → Raw → Value
raw_or key default raw = elim (Dict.get key raw) [ none ↦ default | some v ↦ v ]

unfoldable pub start_from_dict : Raw → StartArgs
unfolding safe_bool
start_from_dict raw = record {
  dry_run = safe_bool (value_of (Dict.get "dry_run" raw)) false;
  raw = raw;
}

unfoldable pub stop_from_dict : Raw → StopArgs
unfolding safe_bool safe_int
stop_from_dict raw = record {
  force = safe_bool (value_of (Dict.get "force" raw)) false;
  timeout_ms = safe_int (value_of (Dict.get "timeout_ms" raw)) (pos 5000);
  raw = raw;
}

unfoldable pub recover_from_dict : (Value → String) → Raw → RecoverArgs
unfolding safe_str
recover_from_dict show raw = record {
  strategy = safe_str show (value_of (Dict.get "strategy" raw)) "default";
  raw = raw;
}

unfoldable pub health_check_from_dict : Raw → HealthCheckArgs
unfolding safe_bool
health_check_from_dict raw = record {
  deep = safe_bool (value_of (Dict.get "deep" raw)) false;
  raw = raw;
}
