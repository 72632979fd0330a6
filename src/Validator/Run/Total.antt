-- ===== src/Validator/Run/Total.antt =====
-- A run does not panic at a sample size that is not negative, and its results have named statuses.
use server_validator.Prelude.{
  ◌≡◌, inl, inr, refl, List, [], ◌∷◌, ◌++◌, arith, Option, some, Option-cases, Bool-cases, All,
  All-append,
}
use server_validator.Prelude.Int.{pos, ◌<ℤ◌}
use server_validator.Text.{Text}
use server_validator.GoMap.{GoMap, member}
use server_validator.Feeds.Gtfs.{Realtime}
use server_validator.Config.{Config}
use server_validator.Sink.Dsn.{ok}
use server_validator.Validator.Prepare.{State, prepared}
use server_validator.Validator.Status.{skip, Result, Report}
use server_validator.Validator.Status.Severity.{IsTried, Known, IsTried-Known}
use server_validator.Validator.Context.{Env, usable, SourceContext, ValidationContext}
use server_validator.Validator.Loop.{Yields, each-Yields}
use server_validator.Validator.Endpoints.{agencies_reply, run_endpoints}
use server_validator.Validator.Endpoints.Steps.{IsLadder, run_endpoints_lem}
use server_validator.Validator.AgencyUnion.{
  Expected, agency_outcome, not_served, check_expected, check_all_expected, unexpected,
  report_unexpected, compare_agencies, run_agency_union,
}
use server_validator.Validator.GtfsSanity.{run_gtfs_sanity}
use server_validator.Validator.GtfsSanity.Laws.{run_gtfs_sanity_lem}
use server_validator.Validator.Freshness.{
  freshness_result, aged_result, check_feed, check_feeds, run_freshness,
}
use server_validator.Validator.Vehicles.{run_vehicles}
use server_validator.Validator.Vehicles.Safety.{run_vehicles-Yields}
use server_validator.Validator.TripUpdates.Safety.{run_trip_updates-Yields}
use server_validator.Validator.ServiceAlerts.Safety.{run_service_alerts-Yields}
use server_validator.Validator.Run.{source_checks, run_checks, run_validator}

All-Known : (label : Text) (rs : List Result) → All (IsTried label) rs → All Known rs
All-Known label [] tried = tt
All-Known label (r ∷ rs) tried = (IsTried-Known label r tried.0, All-Known label rs tried.1)

skipped-Known : (rs : List Result) → All (λ s. s.status ≡ skip) rs → All Known rs
skipped-Known [] h = tt
skipped-Known (r ∷ rs) h = (λ n e. cc (h.0, e), skipped-Known rs h.1)

IsLadder-Known : (rs : List Result) → IsLadder rs → All Known rs
IsLadder-Known [] h = tt
IsLadder-Known (r ∷ rs) (inl (inl e, h)) = (λ n f. cc (e, f), IsLadder-Known rs h)
IsLadder-Known (r ∷ rs) (inl (inr e, h)) = (λ n f. cc (e, f), IsLadder-Known rs h)
IsLadder-Known (r ∷ rs) (inr (e, h)) = (λ n f. cc (e, f), skipped-Known rs h)

module _ (env : Env) (vc : ValidationContext) where
  open env use {World}

  check_all_expected-Known :
      (api : List Text) (names : GoMap Text) (es : List Expected) (expected_set : List Text)
      (w : World)
      → All Known (check_all_expected env vc api names es expected_set w).0
  unfolding check_all_expected check_expected not_served agency_outcome
  check_all_expected-Known api names [] expected_set w = tt
  check_all_expected-Known api names (e ∷ es) expected_set w =
      let grown = e.oba_id ∷ expected_set in
      (
        λ n h. ground arith,
        check_all_expected-Known api names es grown (check_expected env vc api names e grown w).1,
      )

  report_unexpected-Known :
      (expected_set ids : List Text) → All Known (report_unexpected env vc expected_set ids)
  unfolding report_unexpected unexpected agency_outcome
  report_unexpected-Known expected_set [] = tt
  report_unexpected-Known expected_set (id ∷ ids) =
      let rest = report_unexpected-Known expected_set ids in
      elim (Bool-cases (member id expected_set)) [
        | inl e ↦ rw (e, report_unexpected) rest
        | inr e ↦ rw (e, report_unexpected) (λ n h. cc h, rest)
      ]

  check_feed-IsTried :
      (src : SourceContext) (name : Text) (rt : Option Realtime) (w : World)
      → IsTried src.label (check_feed env vc src name rt w).0
  unfolding check_feed aged_result freshness_result
  check_feed-IsTried src name rt w = ground arith

  run_agency_union-Known : (w : World) → All Known (run_agency_union env vc w).0
  unfolding run_agency_union compare_agencies agency_outcome
  run_agency_union-Known w = elim (Option-cases (usable (agencies_reply vc))) [
    | inl e ↦ rw (e, run_agency_union) (λ n h. cc h, tt)
    | inr (answer, e) ↦
        rw (e, run_agency_union)
          (All-append Known _ _ (check_all_expected-Known _ _ _ [] w) (report_unexpected-Known _ _))
  ]

  module _ (src : SourceContext) where
    run_gtfs_sanity-Tried : All (IsTried src.label) (run_gtfs_sanity vc src)
    run_gtfs_sanity-Tried =
        let (r, e, named, verdict) = run_gtfs_sanity_lem vc src in rw e (ground arith, tt)

    run_freshness-Tried : (w : World) → All (IsTried src.label) (run_freshness env vc src w).0
    unfolding run_freshness check_feeds
    run_freshness-Tried w = (
      check_feed-IsTried src _ _ _,
      (check_feed-IsTried src _ _ _, (check_feed-IsTried src _ _ _, tt)),
    )

    vehicles-Yields :
        (w : World)
        → ¬ (vc.config.sample_size <ℤ pos 0)
        → Yields (IsTried src.label) (run_vehicles env vc src w)
    vehicles-Yields w h = elim (run_vehicles-Yields env vc src w) [
      | inl (negative, rest, panic) ↦ absurd (h negative)
      | inr (_, yields) ↦ yields
    ]

    -- At a sample size that is not negative the checks of a source do not panic, and each of their
    -- results is for the source and passes, warns or fails.
    pub source_checks-Yields :
        (w : World)
        → ¬ (vc.config.sample_size <ℤ pos 0)
        → Yields (IsTried src.label) (source_checks env vc src w)
    unfolding source_checks
    source_checks-Yields w h =
        let fresh = run_freshness env vc src w in
        let (vs, w2, e, v) = vehicles-Yields fresh.1 h in
        let (ts, w3, f, t) = run_trip_updates-Yields env vc src w2 h in
        let (as', w4, g, a) = run_service_alerts-Yields env vc src w3 h in
        let Q = IsTried src.label in
        (
          run_gtfs_sanity vc src ++ fresh.0 ++ vs ++ ts ++ as',
          w4,
          rw (e, f, g, source_checks) refl,
          All-append Q _ as'
              (All-append Q _ ts
                (All-append Q _ vs
                  (All-append Q _ fresh.0 run_gtfs_sanity-Tried (run_freshness-Tried w)) v)
                t)
              a,
        )

  -- At a sample size that is not negative a run does not panic, and each result of its report has
  -- one of the four named statuses.
  pub run_checks_lem :
      (w : World)
      → ¬ (vc.config.sample_size <ℤ pos 0)
      → (rep : Report) × (v : World) × (run_checks env vc w ≡ some (rep, v)) × All Known rep.results
  unfolding run_checks
  run_checks_lem w h =
      let endpoints = run_endpoints env vc w in
      let agencies = run_agency_union env vc endpoints.1 in
      let (rest, v, e, known) =
        each-Yields (source_checks env vc) Known
          (λ src u.
            let (rs, u', f, q) = source_checks-Yields src u h in
            (rs, u', f, All-Known src.label rs q))
          vc.sources agencies.1 in
      (
        record { results = endpoints.0 ++ agencies.0 ++ rest },
        v,
        rw (e, run_checks) refl,
        All-append Known (endpoints.0 ++ agencies.0) rest
            (All-append Known endpoints.0 agencies.0
              (IsLadder-Known endpoints.0 (run_endpoints_lem env vc w).1)
              (run_agency_union-Known endpoints.1))
            known,
      )

-- At a sample size that is not negative the whole of `Run` returns a report, whose results have named
-- statuses, however the preparation went.
pub run_validator_lem :
    (env : Env) (s : State) (cfg : Config) (w : env.World)
    → ¬ (cfg.sample_size <ℤ pos 0)
    → (rep : Report) × (run_validator env s cfg w ≡ some (ok rep)) × All Known rep.results
unfolding run_validator prepared
run_validator_lem env s cfg w h =
    let reply = env.agencies_with_coverage w in
    let vc = prepared cfg (reply.0).body (reply.0).error s in
    let (rep, v, e, known) = run_checks_lem env vc reply.1 h in
    (rep, rw (e, run_validator) refl, known)
