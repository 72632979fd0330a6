-- ===== src/Validator/Sampling.antt =====
-- validator/util.go: `sampleByID`.
pub mod Sample
use server_validator.Prelude.{List, Option, none, some, length, take, if◌then◌else◌}
use server_validator.Prelude.Int.{ℤ, pos, negsuc, ltb_ℤ}
use server_validator.Text.{Text}
use server_validator.Sort.{sort_stable}

module _ {ℓ} {T : Type ℓ} (key_fn : T → Text) where
  -- `cp[:n]`, which panics at a negative `n`; the caller has tested that `n` is below the length.
  cut : List T → ℤ → Option (List T)
  cut cp (pos n) = some (take n cp)
  cut cp (negsuc n) = none

  -- `none` is a panic.
  unfoldable pub sample_by_id : List T → ℤ → Option (List T)
  unfolding sort_stable cut
  sample_by_id items n =
      let cp = sort_stable key_fn items in if ltb_ℤ n (pos (length cp)) then cut cp n else some cp
