-- ===== src/Sort/Sorted.antt =====
-- Sorting permutes the list and puts it in order.
use mathlib.Core.List.{Perm}
use mathlib.Core.List.Perm
use server_validator.Prelude.{
  ℕ, zero, suc, ◌≡◌, refl, false, List, [], ◌∷◌, arith, length, take, drop, All, Bool-cases, inl,
  inr,
}
use server_validator.Text.{Text}
use server_validator.Text.Order.{text_lt, text_lt_asymm, text_lt_not_trans}
use server_validator.Sort.{place, sort_stable}

module _ {ℓ} {T : Type ℓ} (key_fn : T → Text) where
  abbrev pub NotAfter : T → T → Type 0
  NotAfter x y = text_lt (key_fn y) (key_fn x) ≡ false

  abbrev pub IsSorted : List T → Type 0
  IsSorted [] = Unit
  IsSorted (x ∷ xs) = All (NotAfter x) xs × IsSorted xs

  place-perm : (x : T) (xs : List T) → Perm (place key_fn x xs) (x ∷ xs)
  unfolding place
  place-perm x [] = Perm.refl _
  place-perm x (y ∷ ys) = elim (Bool-cases (text_lt (key_fn y) (key_fn x))) [
    | inl e ↦ rw e (Perm.trans (Perm.cons y (place-perm x ys)) (Perm.swap x y ys))
    | inr e ↦ rw e (Perm.refl _)
  ]

  pub sort_stable-perm : (xs : List T) → Perm (sort_stable key_fn xs) xs
  unfolding sort_stable
  sort_stable-perm [] = Perm.refl _
  sort_stable-perm (x ∷ xs) =
      Perm.trans (place-perm x (sort_stable key_fn xs)) (Perm.cons x (sort_stable-perm xs))

  length-place : (x : T) (xs : List T) → length (place key_fn x xs) ≡ suc (length xs)
  unfolding place
  length-place x [] = refl
  length-place x (y ∷ ys) = ground (arith, length-place x ys)

  pub length-sort_stable : (xs : List T) → length (sort_stable key_fn xs) ≡ length xs
  unfolding sort_stable
  length-sort_stable [] = refl
  length-sort_stable (x ∷ xs) =
      omega (arith, length-sort_stable xs, length-place x (sort_stable key_fn xs))

  All-NotAfter_trans :
      (x y : T) (xs : List T) → NotAfter x y → All (NotAfter y) xs → All (NotAfter x) xs
  All-NotAfter_trans x y [] h hs = tt
  All-NotAfter_trans x y (z ∷ zs) h (hz, hs) =
      (text_lt_not_trans (key_fn x) (key_fn y) (key_fn z) h hz, All-NotAfter_trans x y zs h hs)

  place-All : (P : T → Type 0) (x : T) (xs : List T) → P x → All P xs → All P (place key_fn x xs)
  unfolding place
  place-All P x [] h hs = (h, tt)
  place-All P x (y ∷ ys) h (hy, hs) = ground (arith, place-All P x ys h hs)

  place-IsSorted : (x : T) (xs : List T) → IsSorted xs → IsSorted (place key_fn x xs)
  unfolding place
  place-IsSorted x [] s = (tt, tt)
  place-IsSorted x (y ∷ ys) (hy, s) = elim (Bool-cases (text_lt (key_fn y) (key_fn x))) [
    | inl e ↦ rw e (
      place-All (NotAfter y) x ys (text_lt_asymm (key_fn y) (key_fn x) e) hy,
      place-IsSorted x ys s,
    )
    | inr e ↦ rw e ((e, All-NotAfter_trans x y ys e hy), (hy, s))
  ]

  pub sort_stable-IsSorted : (xs : List T) → IsSorted (sort_stable key_fn xs)
  unfolding sort_stable
  sort_stable-IsSorted [] = tt
  sort_stable-IsSorted (x ∷ xs) = place-IsSorted x (sort_stable key_fn xs) (sort_stable-IsSorted xs)

  All-take : (P : T → Type 0) (n : ℕ) (xs : List T) → All P xs → All P (take n xs)
  All-take P zero xs h = tt
  All-take P (suc n) [] h = tt
  All-take P (suc n) (x ∷ xs) (hx, h) = (hx, All-take P n xs h)

  All-drop : (P : T → Type 0) (n : ℕ) (xs : List T) → All P xs → All P (drop n xs)
  All-drop P zero xs h = h
  All-drop P (suc n) [] h = tt
  All-drop P (suc n) (x ∷ xs) (hx, h) = All-drop P n xs h

  pub take-IsSorted :
      (n : ℕ) (xs : List T)
      → IsSorted xs
      → IsSorted (take n xs) × All (λ x. All (NotAfter x) (drop n xs)) (take n xs)
  take-IsSorted zero xs s = (tt, tt)
  take-IsSorted (suc n) [] s = (tt, tt)
  take-IsSorted (suc n) (x ∷ xs) (h, s) =
      let (kept, least) = take-IsSorted n xs s in
      ((All-take (NotAfter x) n xs h, kept), (All-drop (NotAfter x) n xs h, least))
