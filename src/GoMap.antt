-- ===== src/GoMap.antt =====
-- Go maps with string keys, as association lists with each key once. The order of the list is
-- the order of insertion and means nothing to the program: where the source ranges over a map,
-- the order is a parameter of the model (`Validator.Context.Env`), unless it sorts the keys at once.
use server_validator.Prelude.{
  ◌≡◌, ◌≢◌, ◌↔◌, refl, Bool, true, false, ◌||◌, List, [], ◌∷◌, arith, Option, none, some,
  if◌then◌else◌,
}
use server_validator.Text.{Text, text_eq, text_eq_iff}

abbrev pub GoMap {ℓ} : Type ℓ → Type ℓ
GoMap V = List (Text × V)

-- Is the text in the list? For a `map[string]bool` that is only ever set to true, the list of its
-- keys is the map.
unfoldable pub member : Text → List Text → Bool
member k [] = false
member k (j ∷ ks) = text_eq k j || member k ks

module _ {ℓ} {V : Type ℓ} where
  -- `v, ok := m[k]`
  unfoldable pub lookup : Text → GoMap V → Option V
  lookup k [] = none
  lookup k ((j, v) ∷ m) = if text_eq k j then some v else lookup k m

  -- `m[k] = v`
  unfoldable pub insert : Text → V → GoMap V → GoMap V
  insert k v [] = (k, v) ∷ []
  insert k v ((j, w) ∷ m) = if text_eq k j then (k, v) ∷ m else (j, w) ∷ insert k v m

  -- `delete(m, k)`
  unfoldable pub delete : Text → GoMap V → GoMap V
  delete k [] = []
  delete k ((j, w) ∷ m) = let rest = delete k m in if text_eq k j then rest else (j, w) ∷ rest

  unfoldable pub keys : GoMap V → List Text
  keys [] = []
  keys ((k, v) ∷ m) = k ∷ keys m

  pub lookup-insert :
      (j k : Text) (v : V) (m : GoMap V)
      → lookup j (insert k v m) ≡ (if text_eq j k then some v else lookup j m)
  unfolding lookup insert
  lookup-insert j k v [] = refl
  lookup-insert j k v ((i, w) ∷ m) =
      ground (arith, text_eq_iff j k, text_eq_iff j i, text_eq_iff k i, lookup-insert j k v m)

  pub lookup-delete :
      (j k : Text) (m : GoMap V)
      → lookup j (delete k m) ≡ (if text_eq j k then none else lookup j m)
  unfolding lookup delete
  lookup-delete j k [] = ground arith
  lookup-delete j k ((i, w) ∷ m) =
      ground (arith, text_eq_iff j k, text_eq_iff j i, text_eq_iff k i, lookup-delete j k m)

  -- A key is in the list of keys exactly when it has a value.
  member-keys : (k : Text) (m : GoMap V) → (member k (keys m) ≡ true) ↔ (lookup k m ≢ none)
  unfolding keys lookup member
  member-keys k [] = (λ h. cc, λ h. absurd (h refl))
  member-keys k ((j, v) ∷ m) = ground (arith, member-keys k m)
