-- ===== src/Sort.antt =====
-- `sort.SliceStable` and `sort.Strings` of Go's library, as an insertion sort: a stable sort has one
-- result.
pub mod Sorted
pub mod Stable
use server_validator.Prelude.{List, [], ◌∷◌, if◌then◌else◌}
use server_validator.Text.{Text}
use server_validator.Text.Order.{text_lt}

module _ {ℓ} {T : Type ℓ} (key_fn : T → Text) where
  -- Puts an item before the first one whose key is not smaller.
  unfoldable pub place : T → List T → List T
  place x [] = x ∷ []
  place x (y ∷ ys) = if text_lt (key_fn y) (key_fn x) then y ∷ place x ys else x ∷ y ∷ ys

  -- `sort.SliceStable(cp, func(i, j int) bool { return keyFn(cp[i]) < keyFn(cp[j]) })`
  unfoldable pub sort_stable : List T → List T
  unfolding place
  sort_stable [] = []
  sort_stable (x ∷ xs) = place x (sort_stable xs)

-- `sort.Strings`
unfoldable pub sort_strings : List Text → List Text
unfolding sort_stable
sort_strings = sort_stable (λ s. s)
