-- ===== src/Prelude/Float.antt =====
-- Go's floats by their bit patterns in the IEEE 754 formats: the program copies them, tests one
-- against zero and widens a float32.
use Prim.Native.Nat.{ℕ, zero, suc, ◌+◌, ◌-◌, ◌*◌, ◌/◌, ◌%◌, ◌^◌}
use mathlib.Core.Bool.{Bool, ◌||◌}
use server_validator.Prelude.Tests.{ltb, ◌==◌, if◌then◌else◌}

-- A float64.
abbrev pub Float : Type 0
Float = ℕ

-- A float32.
abbrev pub Float32 : Type 0
Float32 = ℕ

-- `x == 0`, true of both zeros.
abbrev pub is_zero : Float → Bool
is_zero x = x == 0 || x == 0x8000000000000000

-- The float64 nearest to 0.01.
abbrev pub one_hundredth : Float
one_hundredth = 0x3f847ae147ae147b

-- Exponent and fraction of a subnormal float32 as a float64: shifts the fraction `m` up until its
-- leading bit stands at place 23. A fraction that is not zero takes at most 23 shifts.
normalise : ℕ → ℕ → ℕ → ℕ
normalise zero e m = e * 2 ^ 52
normalise (suc n) e m =
    let next = normalise n (e - 1) (m * 2) in
    if ltb m (2 ^ 23) then next else e * 2 ^ 52 + (m - 2 ^ 23) * 2 ^ 29

-- `float64(x)` for a float32; a NaN becomes quiet.
unfoldable pub widen : Float32 → Float
unfolding normalise
widen x =
    let sign = x / 2 ^ 31 * 2 ^ 63 in
    let e = x / 2 ^ 23 % 2 ^ 8 in
    let m = x % 2 ^ 23 in
    if e == 255
    then sign + 2047 * 2 ^ 52 + (if m == 0 then 0 else 2 ^ 22 + m % 2 ^ 22) * 2 ^ 29
    else if e == 0
    then (if m == 0 then sign else sign + normalise 24 897 m)
    else sign + (e + 896) * 2 ^ 52 + m * 2 ^ 29
