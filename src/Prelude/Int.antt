-- ===== src/Prelude/Int.antt =====
-- Go's signed integers: ℤ over the native numbers, and the wrap-around of `int64` (which is
-- also `int` on the deployed platforms, and `time.Duration`).
use Prim.Native.Nat.{ℕ, suc, ◌+◌, ◌-◌, ◌*◌, ◌%◌, ◌≤◌, ◌<◌}
use mathlib.Core.Path.{◌≡◌}
use mathlib.Core.Bool.{Bool}
use native.Mathlib.Omega.{arith}
use server_validator.Prelude.Tests.{ltb, leb, if◌then◌else◌}

-- `negsuc n` is -(n + 1).
pub data ℤ : Type 0 where
  pos : ℕ → ℤ
  negsuc : ℕ → ℤ

abbrev pos_part : ℤ → ℕ
pos_part (pos n) = n
pos_part (negsuc n) = 0

abbrev neg_part : ℤ → ℕ
neg_part (pos n) = 0
neg_part (negsuc n) = suc n

-- a - b, as an integer.
abbrev sub_ℕ : ℕ → ℕ → ℤ
sub_ℕ a b = if leb b a then pos (a - b) else negsuc (b - a - 1)

infixl 65 ◌-ℤ◌
infixl 70 ◌*ℤ◌
infix 50 ◌≤ℤ◌ ◌<ℤ◌
abbrev pub ◌-ℤ◌ : ℤ → ℤ → ℤ
a -ℤ b = sub_ℕ (pos_part a + neg_part b) (neg_part a + pos_part b)

abbrev pub ◌*ℤ◌ : ℤ → ℤ → ℤ
a *ℤ b =
    sub_ℕ (pos_part a * pos_part b + neg_part a * neg_part b)
      (pos_part a * neg_part b + neg_part a * pos_part b)

abbrev ◌≤ℤ◌ : ℤ → ℤ → Type 0
a ≤ℤ b = pos_part a + neg_part b ≤ pos_part b + neg_part a

abbrev pub ◌<ℤ◌ : ℤ → ℤ → Type 0
a <ℤ b = pos_part a + neg_part b < pos_part b + neg_part a

abbrev pub ltb_ℤ : ℤ → ℤ → Bool
ltb_ℤ a b = ltb (pos_part a + neg_part b) (pos_part b + neg_part a)

abbrev pub half_word : ℕ
half_word = 9223372036854775808

abbrev full_word : ℕ
full_word = 18446744073709551616

-- The signed value of a 64-bit pattern.
abbrev signed : ℕ → ℤ
signed n = if ltb n half_word then pos n else negsuc (full_word - 1 - n)

-- The 64-bit pattern of an integer: its remainder by 2 ^ 64.
abbrev pattern_of : ℤ → ℕ
pattern_of (pos n) = n % full_word
pattern_of (negsuc n) = full_word - 1 - n % full_word

-- What an `int64` keeps of an exact result.
unfoldable pub wrap : ℤ → ℤ
wrap a = signed (pattern_of a)

-- The values of an `int64`.
abbrev InRange : ℤ → Type 0
InRange a = (pos_part a < half_word) × (neg_part a ≤ half_word)

wrap-eq_of_InRange : (a : ℤ) → InRange a → wrap a ≡ a
unfolding wrap
wrap-eq_of_InRange (pos n) h = ground arith
wrap-eq_of_InRange (negsuc n) h = ground arith

wrap-InRange : (a : ℤ) → InRange (wrap a)
unfolding wrap
wrap-InRange (pos n) = ground arith
wrap-InRange (negsuc n) = ground arith
