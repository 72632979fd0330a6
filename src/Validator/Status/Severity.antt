-- ===== src/Validator/Status/Severity.antt =====
-- `Report.Worst`: fail outranks warn, warn outranks pass, and nothing else counts.
use server_validator.Prelude.{ℕ, ◌≡◌, ◌≢◌, ◌↔◌, ◌⊎◌, inl, inr, refl, List, [], ◌∷◌, arith, Any}
use server_validator.Text.{Text}
use server_validator.Validator.Status.{
  Status, pass, warn, fail, other, Result, Report, worst_from, worst,
}

abbrev pub Has : Status → List Result → Type 0
Has s = Any (λ r. r.status ≡ s)

worst_from_warn :
    (rs : List Result)
    → (Has fail rs × (worst_from warn rs ≡ fail)) ⊎ ((¬ Has fail rs) × (worst_from warn rs ≡ warn))
unfolding worst_from
worst_from_warn [] = inr (λ h. h, refl)
worst_from_warn (r ∷ rs) = ground (arith, worst_from_warn rs)

worst_from_pass :
    (rs : List Result)
    → (Has fail rs × (worst_from pass rs ≡ fail))
      ⊎ ((¬ Has fail rs) × Has warn rs × (worst_from pass rs ≡ warn))
      ⊎ ((¬ Has fail rs) × (¬ Has warn rs) × (worst_from pass rs ≡ pass))
unfolding worst_from
worst_from_pass [] = inr (inr (λ h. h, λ h. h, refl))
worst_from_pass (r ∷ rs) = ground (arith, worst_from_pass rs, worst_from_warn rs)

-- The worst status is fail exactly when some result fails, warn exactly when some result warns
-- and none fails, and pass exactly when no result fails or warns.
pub worst_lem :
    (r : Report)
    → ((worst r ≡ fail) ↔ Has fail r.results)
      × ((worst r ≡ warn) ↔ (Has warn r.results × (¬ Has fail r.results)))
      × ((worst r ≡ pass) ↔ ((¬ Has fail r.results) × (¬ Has warn r.results)))
unfolding worst
worst_lem r = ground (arith, worst_from_pass r.results)

-- A result of a check that was tried: it is for the source with the label, and passes, warns or
-- fails.
abbrev pub IsTried : Text → Result → Type 0
IsTried label r = (r.source ≡ label) × ((r.status ≡ pass) ⊎ (r.status ≡ warn) ⊎ (r.status ≡ fail))

-- The result has one of the four named statuses.
abbrev pub Known : Result → Type 0
Known r = (n : ℕ) → r.status ≢ other n

pub IsTried-Known : (label : Text) (r : Result) → IsTried label r → Known r
IsTried-Known label r (named, inl e) n h = cc
IsTried-Known label r (named, inr (inl e)) n h = cc
IsTried-Known label r (named, inr (inr e)) n h = cc
