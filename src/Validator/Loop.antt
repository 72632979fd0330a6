-- ===== src/Validator/Loop.antt =====
-- The loops of the checks over a sample: each round asks the world and appends its results. `none`
-- is a panic, which ends the run.
use server_validator.Prelude.{
  ◌≡◌, refl, List, [], ◌∷◌, ◌++◌, arith, Option, none, some, All, All-append,
}
use server_validator.Validator.Status.{Result}

module _ {W : Type 0} {T : Type 0} where
  unfoldable pub each : (T → W → Option (List Result × W)) → List T → W → Option (List Result × W)
  each round [] w = some ([], w)
  each round (x ∷ xs) w = elim (round x w) [
    | none ↦ none
    | some (rs, w1) ↦ elim (each round xs w1) [
      | none ↦ none
      | some (rest, w2) ↦ some (rs ++ rest, w2)
    ]
  ]

module _ {W : Type 0} where
  -- It does not panic, and every result has the property.
  abbrev pub Yields : (Result → Type 0) → Option (List Result × W) → Type 0
  Yields Q run = (rs : List Result) × (w : W) × (run ≡ some (rs, w)) × All Q rs

  pub each-Yields :
      {T : Type 0} (round : T → W → Option (List Result × W)) (Q : Result → Type 0)
      → ((x : T) (w : W) → Yields Q (round x w))
      → (xs : List T) (w : W) → Yields Q (each round xs w)
  unfolding each
  each-Yields round Q good [] w = ([], w, refl, tt)
  each-Yields round Q good (x ∷ xs) w =
      let (rs, w1, e, q) = good x w in
      let (rest, w2, f, r) = each-Yields round Q good xs w1 in
      (rs ++ rest, w2, ground arith, All-append Q rs rest q r)
