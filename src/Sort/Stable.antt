-- ===== src/Sort/Stable.antt =====
-- The sorted list does not depend on the order of the items, if their keys differ.
use mathlib.Core.List.{Nodup, Permᴰ, Nodup-cons, mem-cons_self}
use mathlib.Core.List.Perm
use mathlib.Core.List.Permᴰ
use server_validator.Prelude.{◌≡◌, ◌≢◌, refl, ◌∙◌, List, [], ◌∷◌, arith, map}
use server_validator.Text.{Text}
use server_validator.Text.Order.{text_lt_asymm, text_lt_not_trans, text_lt_antisymm}
use server_validator.Sort.{place, sort_stable}

module _ {ℓ} {T : Type ℓ} (key_fn : T → Text) where
  place_comm :
      (x y : T) (zs : List T)
      → key_fn x ≢ key_fn y
      → place key_fn x (place key_fn y zs) ≡ place key_fn y (place key_fn x zs)
  unfolding place
  place_comm x y [] n =
      ground (arith, text_lt_asymm (key_fn x) (key_fn y), text_lt_antisymm (key_fn x) (key_fn y))
  place_comm x y (z ∷ zs) n = ground (
    arith,
    text_lt_asymm (key_fn x) (key_fn y),
    text_lt_antisymm (key_fn x) (key_fn y),
    text_lt_not_trans (key_fn x) (key_fn y) (key_fn z),
    text_lt_not_trans (key_fn y) (key_fn x) (key_fn z),
    text_lt_asymm (key_fn z) (key_fn x),
    text_lt_asymm (key_fn z) (key_fn y),
    text_lt_not_trans (key_fn x) (key_fn z) (key_fn y),
    text_lt_not_trans (key_fn y) (key_fn z) (key_fn x),
    place_comm x y zs n,
  )

  abbrev pub DistinctKeys : List T → Type 0
  DistinctKeys xs = Nodup (map key_fn xs)

  pub sort_stable-eq_of_perm :
      {xs ys : List T}
      → Permᴰ xs ys
      → DistinctKeys xs
      → sort_stable key_fn xs ≡ sort_stable key_fn ys
  unfolding sort_stable
  sort_stable-eq_of_perm Permᴰ.nil d = refl
  sort_stable-eq_of_perm (Permᴰ.cons e p) d = cc (e, sort_stable-eq_of_perm p (Nodup-cons.0 d).1)
  sort_stable-eq_of_perm (Permᴰ.swap {a = a} {b = b} {l = l} e f) d =
      place_comm a b (sort_stable key_fn l) (λ same. (Nodup-cons.0 d).0 (rw same mem-cons_self))
      ∙ cc (e, f)
  sort_stable-eq_of_perm (Permᴰ.trans p q) d =
      sort_stable-eq_of_perm p d ∙ sort_stable-eq_of_perm q (Perm.nodup ∣ Permᴰ.map key_fn p ∣₁ d)
