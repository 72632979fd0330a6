-- ===== src/Validator/GtfsSanity/Laws.antt =====
-- When the sanity check passes.
use mathlib.Core.Path.{subst}
use server_validator.Prelude.{
  ◌≡◌, ◌≢◌, ◌↔◌, ◌⊎◌, inl, inr, List-cases, Option-cases, refl, [], ◌∷◌, ◌++◌, arith, none, some,
}
use server_validator.Text.{lit}
use server_validator.GoMap.{lookup}
use server_validator.Feeds.Gtfs.{Static}
use server_validator.Validator.Status.{pass, fail, Result}
use server_validator.Validator.Redaction.{redact}
use server_validator.Validator.Context.{SourceContext, ValidationContext}
use server_validator.Validator.GtfsSanity.{
  static_of, note_missing, missing_of, sanity_result, unavailable, run_gtfs_sanity,
}

-- A feed with every kind of entity.
abbrev IsPopulated : Static → Type 0
IsPopulated s = (s.agencies ≢ []) × (s.routes ≢ []) × (s.stops ≢ []) × (s.trips ≢ [])

missing_of_lem : (s : Static) → (missing_of s ≡ []) ↔ IsPopulated s
unfolding missing_of note_missing
missing_of_lem s = ground arith

-- What the check asks for: no preparation error, and a parsed feed with every kind of entity.
abbrev pub IsSound : SourceContext → Type 0
IsSound src =
    (lookup (lit "staticGtfs") src.prep_errors ≡ none)
    × ((s : Static) × (static_of src ≡ some s) × IsPopulated s)

abbrev Verdict : SourceContext → Result → Type 0
Verdict src r = ((r.status ≡ pass) × IsSound src) ⊎ ((r.status ≡ fail) × (¬ IsSound src))

sanity_result_lem :
    (src : SourceContext) (s : Static)
    → ((sanity_result src s).source ≡ src.label)
      × (((sanity_result src s).status ≡ pass) × IsPopulated s
          ⊎ ((sanity_result src s).status ≡ fail) × (¬ IsPopulated s))
unfolding sanity_result
sanity_result_lem src s = elim (List-cases (missing_of s)) [
  | inl e ↦ (ground arith, inl (ground arith, (missing_of_lem s).0 e))
  | inr (m, ms, e) ↦
      (ground arith, inr (ground arith, λ full. absurd (cc ((missing_of_lem s).1 full, e))))
]

-- The check gives one result, for its source: it passes if the preparation left no error and the
-- feed was parsed and has agencies, routes, stops and trips, and it fails if not.
pub run_gtfs_sanity_lem :
    (vc : ValidationContext) (src : SourceContext)
    → (r : Result) × (run_gtfs_sanity vc src ≡ r ∷ [])
      × (r.source ≡ src.label)
      × (((r.status ≡ pass) × IsSound src) ⊎ ((r.status ≡ fail) × (¬ IsSound src)))
unfolding run_gtfs_sanity unavailable
run_gtfs_sanity_lem vc src = elim (Option-cases (lookup (lit "staticGtfs") src.prep_errors)) [
  | inr (e, p) ↦ (
    unavailable src (lit "static GTFS unavailable: " ++ redact (some e) vc.config.api_key),
    ground arith,
    refl,
    inr (refl, λ sound. cc (sound.0, p)),
  )
  | inl p ↦ elim (Option-cases (static_of src)) [
    | inl q ↦ (
      unavailable src (lit "static GTFS not parsed"),
      ground arith,
      refl,
      inr (refl, λ (_, (s, parsed, _)). cc (parsed, q)),
    )
    | inr (s, q) ↦
        let (named, verdict) = sanity_result_lem src s in
        (
          sanity_result src s,
          ground arith,
          named,
          elim verdict [
            | inl (ok, full) ↦ inl (ok, (p, (s, q, full)))
            | inr (bad, hole) ↦
                inr (bad, λ (_, (t, parsed, full)). hole (subst IsPopulated (cc) full))
          ],
        )
  ]
]
