-- ===== src/Validator/TripUpdates/Safety.antt =====
-- The check of the trip updates panics only at a negative sample size.
use server_validator.Prelude.{
  ◌≡◌, inl, inr, refl, List, [], ◌∷◌, ◌++◌, arith, some, Option-cases, List-cases,
}
use server_validator.Prelude.Int.{pos, ◌<ℤ◌}
use server_validator.Text.{lit}
use server_validator.GoMap.{lookup}
use server_validator.Feeds.Gtfs.{Trip}
use server_validator.Validator.Status.{warn, fail, Result}
use server_validator.Validator.Status.Severity.{IsTried}
use server_validator.Validator.Redaction.{redact}
use server_validator.Validator.Ids.{prefixed_id}
use server_validator.Validator.Sampling.{sample_by_id}
use server_validator.Validator.Sampling.Sample.{sample_by_id-none_iff}
use server_validator.Validator.Context.{Env, SourceContext, ValidationContext}
use server_validator.Validator.Loop.{Yields, each-Yields}
use server_validator.Validator.Arrivals.{query_arrivals, query_arrivals-IsTried, Sum-cases}
use server_validator.Validator.TripUpdates.{
  usable_trips, trip_update_agency, raw_stop_of, trip_found, trip_outcome, judge_trip, check_trip,
  sample_trips, run_trip_updates,
}

module _ (env : Env) (vc : ValidationContext) (src : SourceContext) where
  open env use {World}

  abbrev Tried : Result → Type 0
  Tried = IsTried src.label

  check_trip-Yields : (tr : Trip) (w : World) → Yields Tried (check_trip env vc src tr w)
  unfolding check_trip judge_trip trip_outcome
  check_trip-Yields tr w =
      let agency = trip_update_agency src tr in
      let stop = prefixed_id agency (raw_stop_of tr) in
      let asked = query_arrivals env vc (lit "trip-update-sampling") src.label stop w in
      elim (Sum-cases asked.0) [
        | inr (bad, e) ↦ (
          bad ∷ [],
          asked.1,
          ground arith,
          (query_arrivals-IsTried env vc (lit "trip-update-sampling") src.label stop w bad e, tt),
        )
        | inl (ad, e) ↦
            let r = judge_trip env vc src stop tr (trip_found tr.id.id agency ad.arrivals) in
            (r ∷ [], asked.1, ground arith, (ground arith, tt))
      ]

  sample_trips-Yields :
      (usable : List Trip) (w : World)
      → ¬ (vc.config.sample_size <ℤ pos 0)
      → Yields Tried (sample_trips env vc src usable w)
  unfolding sample_trips trip_outcome
  sample_trips-Yields [] w h = (
    trip_outcome env vc src warn (lit "no trip update has a predicted stop-time") [] ∷ [],
    w,
    refl,
    ((refl, inr (inl refl)), tt),
  )
  sample_trips-Yields (u ∷ us) w h =
      elim (Option-cases (sample_by_id (λ (t : Trip). t.id.id) (u ∷ us) vc.config.sample_size)) [
        | inl e ↦
            absurd (
              h (
                (sample_by_id-none_iff (λ (t : Trip). t.id.id) (u ∷ us) vc.config.sample_size).0 e))
        | inr (sample, e) ↦
            rw (e, sample_trips)
              (each-Yields (check_trip env vc src) Tried check_trip-Yields sample w)
      ]

  -- At a sample size that is not negative the check does not panic, and each of its results is for
  -- the source and passes, warns or fails.
  pub run_trip_updates-Yields :
      (w : World)
      → ¬ (vc.config.sample_size <ℤ pos 0)
      → Yields Tried (run_trip_updates env vc src w)
  unfolding run_trip_updates trip_outcome
  run_trip_updates-Yields w h = elim (Option-cases (lookup (lit "tripUpdates") src.prep_errors)) [
    | inr (e, p) ↦ (
      trip_outcome env vc src fail
            (lit "trip updates feed unavailable: " ++ redact (some e) vc.config.api_key) []
          ∷ [],
      w,
      ground arith,
      ((refl, inr (inr refl)), tt),
    )
    | inl p ↦ elim (Option-cases src.trip_updates) [
      | inl q ↦ (
        trip_outcome env vc src warn (lit "no trip updates in feed to sample") [] ∷ [],
        w,
        ground arith,
        ((refl, inr (inl refl)), tt),
      )
      | inr (rt, q) ↦ elim (List-cases rt.trips) [
        | inl r ↦ (
          trip_outcome env vc src warn (lit "no trip updates in feed to sample") [] ∷ [],
          w,
          ground arith,
          ((refl, inr (inl refl)), tt),
        )
        | inr (t, ts, r) ↦
            let same : run_trip_updates env vc src w
                ≡ sample_trips env vc src (usable_trips (t ∷ ts)) w =
              ground arith in
            rw (same, run_trip_updates) (sample_trips-Yields (usable_trips (t ∷ ts)) w h)
      ]
    ]
  ]
