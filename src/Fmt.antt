-- ===== src/Fmt.antt =====
-- Formatting: what the source writes with `fmt`.
use server_validator.Prelude.{ℕ, zero, suc, ◌+◌, ◌/◌, ◌%◌, [], ◌∷◌, ◌==◌, if◌then◌else◌}
use server_validator.Prelude.Int.{ℤ, pos, negsuc}
use server_validator.Text.{Text}

-- The decimal digits of `n` before those in `out`; a number below `2 ^ 64` has at most 20.
digits : ℕ → ℕ → Text → Text
digits zero n out = out
digits (suc f) n out =
    let d = b'0' + n % 10 in
    let rest = digits f (n / 10) (d ∷ out) in if n / 10 == 0 then d ∷ out else rest

-- `%d` of a number that is not negative. The fuel is enough for every number: a number has no
-- more digits than it has units, plus one.
unfoldable pub decimal : ℕ → Text
unfolding digits
decimal n = digits (suc n) n []

-- `%d`
unfoldable pub decimal_ℤ : ℤ → Text
unfolding decimal
decimal_ℤ (pos n) = decimal n
decimal_ℤ (negsuc n) = b'-' ∷ decimal (suc n)

-- The two formats that rest on tables of the library: `%q`, which asks which code points are
-- printable, and `%s` of a `time.Duration` in nanoseconds that was rounded to seconds. No theorem
-- relies on either.
pub record Fmt : Type 0 where
  pub quote : Text → Text
  pub rounded_seconds : ℤ → Text
