-- ===== src/Text/Order.antt =====
-- Go's `<` on strings: byte by byte, a proper prefix first.
use server_validator.Prelude.{◌≡◌, refl, Bool, true, false, [], ◌∷◌, arith, ltb, if◌then◌else◌}
use server_validator.Text.Core.{Text}

unfoldable pub text_lt : Text → Text → Bool
text_lt s [] = false
text_lt [] (d ∷ t) = true
text_lt (c ∷ s) (d ∷ t) = if ltb c d then true else if ltb d c then false else text_lt s t

text_lt_irrefl : (s : Text) → text_lt s s ≡ false
unfolding text_lt
text_lt_irrefl [] = refl
text_lt_irrefl (c ∷ s) = ground (arith, text_lt_irrefl s)

pub text_lt_asymm : (s t : Text) → text_lt s t ≡ true → text_lt t s ≡ false
unfolding text_lt
text_lt_asymm s [] h = cc
text_lt_asymm [] (d ∷ t) h = refl
text_lt_asymm (c ∷ s) (d ∷ t) h = ground (arith, text_lt_asymm s t)

-- "Not above" is transitive, and antisymmetric.
pub text_lt_not_trans :
    (s t u : Text) → text_lt t s ≡ false → text_lt u t ≡ false → text_lt u s ≡ false
unfolding text_lt
text_lt_not_trans [] t u h k = refl
text_lt_not_trans (c ∷ s) [] u h k = cc
text_lt_not_trans (c ∷ s) (d ∷ t) [] h k = cc
text_lt_not_trans (c ∷ s) (d ∷ t) (e ∷ u) h k = ground (arith, text_lt_not_trans s t u)

pub text_lt_antisymm : (s t : Text) → text_lt s t ≡ false → text_lt t s ≡ false → s ≡ t
unfolding text_lt
text_lt_antisymm [] [] h k = refl
text_lt_antisymm [] (d ∷ t) h k = cc
text_lt_antisymm (c ∷ s) [] h k = cc
text_lt_antisymm (c ∷ s) (d ∷ t) h k = ground (arith, text_lt_antisymm s t)

pub text_lt_trans : (s t u : Text) → text_lt s t ≡ true → text_lt t u ≡ true → text_lt s u ≡ true
unfolding text_lt
text_lt_trans s [] u h k = cc
text_lt_trans s (d ∷ t) [] h k = cc
text_lt_trans [] (d ∷ t) (e ∷ u) h k = refl
text_lt_trans (c ∷ s) (d ∷ t) (e ∷ u) h k = ground (arith, text_lt_trans s t u)
