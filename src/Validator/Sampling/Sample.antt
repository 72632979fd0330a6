-- ===== src/Validator/Sampling/Sample.antt =====
-- The sample holds the items with the least keys, in order, and `sampleByID` panics exactly at a
-- negative size.
use Prim.Native.Nat.{min}
use mathlib.Core.List.{Perm, Permᴰ}
use server_validator.Prelude.{
  ℕ, ◌≡◌, ◌↔◌, List, ◌++◌, arith, none, some, length, take, drop, take-append-drop,
  take_of_length-le, length-take, All,
}
use server_validator.Prelude.Int.{ℤ, pos, negsuc, ◌<ℤ◌}
use server_validator.Text.{Text}
use server_validator.Sort.{sort_stable}
use server_validator.Sort.Sorted.{
  NotAfter, IsSorted, sort_stable-perm, length-sort_stable, sort_stable-IsSorted, take-IsSorted,
}
use server_validator.Sort.Stable.{DistinctKeys, sort_stable-eq_of_perm}
use server_validator.Validator.Sampling.{sample_by_id}

module _ {ℓ} {T : Type ℓ} (key_fn : T → Text) where
  sample_by_id-take :
      (items : List T) (n : ℕ)
      → sample_by_id key_fn items (pos n) ≡ some (take n (sort_stable key_fn items))
  unfolding sample_by_id
  sample_by_id-take items n = ground (arith, take_of_length-le n (sort_stable key_fn items))

  -- At a size that is not negative the sample is made, and together with what it leaves out it is
  -- a permutation of the items. It holds as many items as were asked for, or all if there are
  -- fewer, in the order of their keys, and no item that it leaves out has a smaller key than one
  -- that it holds.
  pub sample_by_id_lem :
      (items : List T) (n : ℕ)
      → (sample : List T) × (rest : List T) × (sample_by_id key_fn items (pos n) ≡ some sample)
        × Perm (sample ++ rest) items
        × (length sample ≡ min n (length items))
        × IsSorted key_fn sample
        × All (λ x. All (NotAfter key_fn x) rest) sample
  sample_by_id_lem items n =
      let cp = sort_stable key_fn items in
      let (kept, least) = take-IsSorted key_fn n cp (sort_stable-IsSorted key_fn items) in
      (
        take n cp,
        drop n cp,
        sample_by_id-take items n,
        rw (take-append-drop n cp) (sort_stable-perm key_fn items),
        omega (arith, length-take n cp, length-sort_stable key_fn items),
        kept,
        least,
      )

  -- `sampleByID` panics exactly when the size is negative, whatever the items are.
  pub sample_by_id-none_iff :
      (items : List T) (n : ℤ) → (sample_by_id key_fn items n ≡ none) ↔ (n <ℤ pos 0)
  sample_by_id-none_iff items (pos n) =
      (λ h. cc (sample_by_id-take items n), λ h. absurd (omega arith))
  sample_by_id-none_iff items (negsuc n) =
      (λ h. omega arith, λ h. unfold sample_by_id in ground arith)

  -- Two feeds with the same items in any order, no two with the same key, give the same sample.
  pub sample_by_id-eq_of_perm :
      {xs ys : List T} (n : ℤ)
      → Permᴰ xs ys
      → DistinctKeys key_fn xs
      → sample_by_id key_fn xs n ≡ sample_by_id key_fn ys n
  unfolding sample_by_id
  sample_by_id-eq_of_perm n p d = rw (sort_stable-eq_of_perm key_fn p d)
