-- ===== src/Prelude/Floats.antt =====
-- Floats of 64 bits that are not negative, as far as times need them: a mantissa of at most 53 bits
-- over a power of 2. Each operation rounds to the nearest float, and to an even mantissa between
-- two. Quotients below 2 ^ -47, other than zero, and above 2 ^ 53 are out of the range.
use glady_s.Prelude.{ℕ, zero, suc, ◌+◌, ◌*◌, ◌/◌, ◌%◌}
use Prim.Native.Nat.{◌^◌}
use glady_s.Prelude.Tests.{ltb, nat_eq, if◌then◌else◌}

pub record Float64 : Type 0 where
  pub mantissa : ℕ
  pub scale : ℕ

-- n / d as a whole number, of two that are as near the even one.
unfoldable pub half_even : ℕ → ℕ → ℕ
half_even n d =
    let q = n / d in
    let twice = 2 * (n % d) in
    if ltb twice d then q else if ltb d twice then suc q else if nat_eq (q % 2) 0 then q else suc q

-- The largest scale at which the quotient has 53 bits.
unfoldable pub scaled : ℕ → ℕ → ℕ → Float64
unfolding half_even
scaled zero n d = record { mantissa = half_even n d; scale = 0 }
scaled (suc k) n d =
    let coarser = scaled k n d in
    if ltb (n * 2 ^ suc k / d) (2 ^ 53)
    then record { mantissa = half_even (n * 2 ^ suc k) d; scale = suc k }
    else coarser

-- The float nearest to n / d.
unfoldable pub nearest : ℕ → ℕ → Float64
unfolding scaled
nearest n d = scaled 100 n d

-- int(x * k)
unfoldable pub times_truncated : ℕ → Float64 → ℕ
unfolding nearest
times_truncated k x = let y = nearest (x.mantissa * k) (2 ^ x.scale) in y.mantissa / 2 ^ y.scale

-- datetime.fromtimestamp: whole seconds, and the rest rounded to microseconds.
unfoldable pub from_timestamp : Float64 → ℕ
unfolding nearest half_even
from_timestamp x =
    let unit = 2 ^ x.scale in
    let rest = nearest (x.mantissa % unit * 1000000) unit in
    x.mantissa / unit * 1000000 + half_even rest.mantissa (2 ^ rest.scale)
