-- ===== src/Validator/Endpoints/Skew.antt =====
-- The clock skew of the first step.
use server_validator.Prelude.{ℕ, ◌+◌, ◌-◌, ◌<◌, ◌≡◌, ◌↔◌, ◌⊎◌, arith, if◌then◌else◌}
use server_validator.Prelude.Int.{pos, negsuc, ltb_ℤ, wrap, half_word}
use server_validator.Validator.Status.{pass, warn}
use server_validator.Validator.Context.{Env, ValidationContext}
use server_validator.Validator.Endpoints.{added, skew_of, clock_result}

-- Between two times after 1970 nothing wraps around.
skew_of_pos :
    (n t : ℕ)
    → n < half_word
    → t < half_word
    → skew_of (pos n) (pos t) ≡ (if ltb_ℤ (pos n) (pos t) then pos (t - n) else pos (n - t))
unfolding skew_of wrap
skew_of_pos n t hn ht = ground arith

module _ (env : Env) (vc : ValidationContext) where
  -- For times from 1970 on that are `int64` values, the step warns exactly when the server's time
  -- and the clock's lie more than an hour apart, and passes otherwise.
  pub clock_result_iff :
      (n t : ℕ)
      → n < half_word
      → t < half_word
      → ((clock_result env vc (pos n) (pos t)).status ≡ warn
          ↔ ((t + 3600000 < n) ⊎ (n + 3600000 < t)))
        × ((clock_result env vc (pos n) (pos t)).status ≡ pass
            ↔ ((n < t + 3600001) × (t < n + 3600001)))
  unfolding clock_result added
  clock_result_iff n t hn ht = ground (arith, skew_of_pos n t hn ht)

  -- A server whose time lies exactly 2 ^ 63 milliseconds behind the clock is reported as right: the
  -- skew is the least `int64`, which negation leaves negative.
  pub clock_result_wraps :
      (n : ℕ)
      → n < half_word
      → (clock_result env vc (pos n) (negsuc (half_word - 1 - n))).status ≡ pass
  unfolding clock_result added skew_of wrap
  clock_result_wraps n h = ground arith
