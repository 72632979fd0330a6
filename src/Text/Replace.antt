-- ===== src/Text/Replace.antt =====
-- `strings.ReplaceAll`, and that what it replaces is gone.
use server_validator.Prelude.{
  ℕ, zero, suc, ◌≡◌, ◌≢◌, refl, true, false, [], ◌∷◌, ◌++◌, arith, if◌then◌else◌, length,
}
use server_validator.Text.Core.{Text}
use server_validator.Text.Search.{starts_with, contains, Lacks}

-- `strings.ReplaceAll(s, old, new)` for a non-empty `old`, given as its first byte and the
-- others. The number counts the bytes of a match that are still to be skipped.
replace_from : ℕ → Text → Text → ℕ → Text → Text
replace_from o old new skip [] = []
replace_from o old new (suc skip) (c ∷ s) = replace_from o old new skip s
replace_from o old new zero (c ∷ s) =
    let hit = replace_from o old new (length old) s in
    let miss = replace_from o old new zero s in
    if starts_with (c ∷ s) (o ∷ old) then new ++ hit else c ∷ miss

unfoldable pub replace_all : ℕ → Text → Text → Text → Text
unfolding replace_from
replace_all o old new s = replace_from o old new zero s

-- The mask that the source puts in place of a secret.
abbrev pub star : ℕ
star = b'*'

abbrev pub stars : Text
stars = star ∷ star ∷ star ∷ []

module _ (o : ℕ) (old : Text) where
  -- What the result starts with, short of a star, the text started with.
  starts_with-replace_from :
      (s p : Text)
      → Lacks star p
      → starts_with (replace_from o old stars zero s) p ≡ true
      → starts_with s p ≡ true
  unfolding replace_from starts_with
  starts_with-replace_from [] p h e = e
  starts_with-replace_from (c ∷ s) [] h e = refl
  starts_with-replace_from (c ∷ s) (d ∷ p) h e = ground (arith, starts_with-replace_from s p h.1)

  contains-replace_from_self :
      (s : Text) (skip : ℕ)
      → Lacks star (o ∷ old)
      → contains (replace_from o old stars skip s) (o ∷ old) ≡ false
  unfolding replace_from contains starts_with
  contains-replace_from_self [] skip h = refl
  contains-replace_from_self (c ∷ s) (suc skip) h = contains-replace_from_self s skip h
  contains-replace_from_self (c ∷ s) zero h = ground (
    arith,
    contains-replace_from_self s zero h,
    contains-replace_from_self s (length old) h,
    starts_with-replace_from s old h.1,
  )

  contains-replace_from :
      (s : Text) (skip d : ℕ) (p : Text)
      → Lacks star (d ∷ p)
      → contains s (d ∷ p) ≡ false
      → contains (replace_from o old stars skip s) (d ∷ p) ≡ false
  unfolding replace_from contains starts_with
  contains-replace_from [] skip d p h e = refl
  contains-replace_from (c ∷ s) (suc skip) d p h e =
      contains-replace_from s skip d p h (ground arith)
  contains-replace_from (c ∷ s) zero d p h e = ground (
    arith,
    contains-replace_from s zero d p h,
    contains-replace_from s (length old) d p h,
    starts_with-replace_from s p h.1,
  )

  replace_from-eq_self :
      (new s : Text) → contains s (o ∷ old) ≡ false → replace_from o old new zero s ≡ s
  unfolding replace_from contains
  replace_from-eq_self new [] e = refl
  replace_from-eq_self new (c ∷ s) e = ground (arith, replace_from-eq_self new s)

-- A secret without a star is gone from the text.
pub contains-replace_all_self :
    (o : ℕ) (old s : Text)
    → Lacks star (o ∷ old)
    → contains (replace_all o old stars s) (o ∷ old) ≡ false
unfolding replace_all
contains-replace_all_self o old s h = contains-replace_from_self o old s zero h

-- Masking one secret brings no other one in.
pub contains-replace_all :
    (o : ℕ) (old s p : Text)
    → p ≢ []
    → Lacks star p
    → contains s p ≡ false
    → contains (replace_all o old stars s) p ≡ false
unfolding replace_all
contains-replace_all o old s [] n h e = absurd (n refl)
contains-replace_all o old s (d ∷ p) n h e = contains-replace_from o old s zero d p h e

-- A text that does not hold the old part stays as it is.
pub replace_all-eq_self :
    (o : ℕ) (old new s : Text) → contains s (o ∷ old) ≡ false → replace_all o old new s ≡ s
unfolding replace_all
replace_all-eq_self o old new s e = replace_from-eq_self o old new s e
