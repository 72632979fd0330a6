-- ===== src/Feeds/Static/Agencies.antt =====
-- The list of agency ids is in strictly rising order and holds the ids of the agencies, and no
-- other.
use server_validator.Prelude.{
  ◌≡◌, refl, ◌∙◌, sym, inl, inr, Bool-cases, true, false, ◌||◌, List, [], ◌∷◌, ◌++◌, arith, map,
  All,
}
use server_validator.Text.{Text, text_eq, text_eq_iff}
use server_validator.Text.Order.{text_lt, text_lt_antisymm, text_lt_trans}
use server_validator.GoMap.{member}
use server_validator.Sort.{place, sort_stable, sort_strings}
use server_validator.Feeds.Gtfs.{Agency, Static}
use server_validator.Feeds.Static.{collect_ids, parsed_static_from}

abbrev pub Distinct : List Text → Type 0
Distinct [] = Unit
Distinct (x ∷ xs) = (member x xs ≡ false) × Distinct xs

abbrev pub IsRising : List Text → Type 0
IsRising [] = Unit
IsRising (x ∷ xs) = All (λ y. text_lt x y ≡ true) xs × IsRising xs

member-place :
    (k x : Text) (xs : List Text) → member k (place (λ s. s) x xs) ≡ (text_eq k x || member k xs)
unfolding member place
member-place k x [] = refl
member-place k x (y ∷ ys) = ground (arith, member-place k x ys)

member-sort_strings : (k : Text) (xs : List Text) → member k (sort_strings xs) ≡ member k xs
unfolding sort_strings member
member-sort_strings k [] = refl
member-sort_strings k (x ∷ xs) =
    member-place k x (sort_stable (λ s. s) xs) ∙ ground (arith, member-sort_strings k xs)

All-rising_trans :
    (x y : Text) (zs : List Text)
    → text_lt x y ≡ true
    → All (λ z. text_lt y z ≡ true) zs
    → All (λ z. text_lt x z ≡ true) zs
All-rising_trans x y [] h hs = tt
All-rising_trans x y (z ∷ zs) h (hz, hs) = (text_lt_trans x y z h hz, All-rising_trans x y zs h hs)

place-All :
    (w x : Text) (xs : List Text)
    → text_lt w x ≡ true
    → All (λ y. text_lt w y ≡ true) xs
    → All (λ y. text_lt w y ≡ true) (place (λ s. s) x xs)
unfolding place
place-All w x [] h hs = (h, tt)
place-All w x (y ∷ ys) h (hy, hs) = ground (arith, place-All w x ys h hs)

place-IsRising :
    (x : Text) (xs : List Text) → member x xs ≡ false → IsRising xs → IsRising (place (λ s. s) x xs)
unfolding place member
place-IsRising x [] n s = (tt, tt)
place-IsRising x (y ∷ ys) n (hy, s) = ground (
  arith,
  text_eq_iff x y,
  text_lt_antisymm x y,
  place-IsRising x ys,
  place-All y x ys,
  All-rising_trans x y ys,
)

sort_strings-IsRising : (xs : List Text) → Distinct xs → IsRising (sort_strings xs)
unfolding sort_strings
sort_strings-IsRising [] d = tt
sort_strings-IsRising (x ∷ xs) (n, d) =
    place-IsRising x (sort_strings xs) (member-sort_strings x xs ∙ n) (sort_strings-IsRising xs d)

member-append : (k : Text) (xs ys : List Text) → member k (xs ++ ys) ≡ (member k xs || member k ys)
unfolding member
member-append k [] ys = refl
member-append k (x ∷ xs) ys = ground (arith, member-append k xs ys)

append-Distinct :
    (x : Text) (xs : List Text) → Distinct xs → member x xs ≡ false → Distinct (xs ++ x ∷ [])
unfolding member
append-Distinct x [] d n = (refl, tt)
append-Distinct x (y ∷ ys) (m, d) n =
    ground
      (arith, append-Distinct x ys d, member-append y ys (x ∷ []), text_eq_iff x y, text_eq_iff y x)

abbrev ids_of : List Agency → List Text
ids_of = map (λ a. a.id)

collect_ids_lem :
    (as' : List Agency) (seen ids : List Text)
    → ((k : Text) → member k seen ≡ member k ids)
    → Distinct ids
    → Distinct (collect_ids as' seen ids)
      × ((k : Text) → member k (collect_ids as' seen ids) ≡ (member k ids || member k (ids_of as')))
unfolding collect_ids member
collect_ids_lem [] seen ids same d = (d, λ k. ground arith)
collect_ids_lem (a ∷ as') seen ids same d = elim (Bool-cases (member a.id seen)) [
  | inl old ↦
      let (distinct, found) = collect_ids_lem as' seen ids same d in
      rw old (distinct, λ k. ground (arith, found k, same a.id, text_eq_iff k a.id))
  | inr new ↦
      let (distinct, found) =
        collect_ids_lem as' (a.id ∷ seen) (ids ++ a.id ∷ [])
          (λ k. ground (arith, same k, member-append k ids (a.id ∷ [])))
          (append-Distinct a.id ids d (sym (same a.id) ∙ new)) in
      rw new (distinct, λ k. ground (arith, found k, member-append k ids (a.id ∷ [])))
]

-- The agency ids of a parsed feed rise strictly, so that each stands there once, and they are the
-- ids of the feed's agencies.
pub agency_ids_lem :
    (s : Static)
    → IsRising (parsed_static_from s).agency_ids
      × ((k : Text)
          → member k (parsed_static_from s).agency_ids ≡ member k (map (λ a. a.id) s.agencies))
unfolding parsed_static_from member
agency_ids_lem s =
    let (distinct, found) = collect_ids_lem s.agencies [] [] (λ k. refl) tt in
    let ids = collect_ids s.agencies [] [] in
    (sort_strings-IsRising ids distinct, λ k. member-sort_strings k ids ∙ found k)
