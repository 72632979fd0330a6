-- ===== src/Validator/Run/Placed.antt =====
-- Each result of a run is for the whole server or for one of the sources.
use server_validator.Prelude.{
  ℕ, suc, ◌≡◌, inl, inr, refl, List, [], ◌∷◌, ◌++◌, map, arith, some, Option-cases, Bool-cases, All,
  All-append,
}
use mathlib.Core.Path.{subst}
use server_validator.Prelude.Int.{pos, ◌<ℤ◌}
use server_validator.Text.{Text}
use server_validator.GoMap.{GoMap, member}
use server_validator.Config.{DataSource, Config}
use server_validator.Sink.Dsn.{ok}
use server_validator.Validator.Status.{Result, Report}
use server_validator.Validator.Context.{Env, usable, SourceContext, ValidationContext}
use server_validator.Validator.Loop.{Yields, each}
use server_validator.Validator.Endpoints.{agencies_reply, run_endpoints}
use server_validator.Validator.Endpoints.Steps.{IsServer, run_endpoints_lem}
use server_validator.Validator.AgencyUnion.{
  Expected, agency_outcome, not_served, check_expected, check_all_expected, unexpected,
  report_unexpected, compare_agencies, run_agency_union,
}
use server_validator.Validator.Prepare.{
  State, Sources, Run, initial, IsFinished, prepared, new_source,
}
use server_validator.Validator.Prepare.Filled.{AllPrepared, prepared-AllPrepared}
use server_validator.Validator.Run.{source_checks, run_checks, run_validator}
use server_validator.Validator.Run.Total.{source_checks-Yields}
use server_validator.Report.Document.{source_id}
use server_validator.Report.Document.Leftover.{source_ids, IsOneOf, IsPlaced}

All-map :
    {P Q : Result → Type 0} (rs : List Result) → ((r : Result) → P r → Q r) → All P rs → All Q rs
All-map [] f a = tt
All-map (r ∷ rs) f a = (f r a.0, All-map rs f a.1)

abbrev labels : List SourceContext → List Text
labels = map (λ s. s.label)

module _ (env : Env) (vc : ValidationContext) where
  open env use {World}

  check_all_expected-IsServer :
      (api : List Text) (names : GoMap Text) (es : List Expected) (expected_set : List Text)
      (w : World)
      → All IsServer (check_all_expected env vc api names es expected_set w).0
  unfolding check_all_expected check_expected not_served agency_outcome
  check_all_expected-IsServer api names [] expected_set w = tt
  check_all_expected-IsServer api names (e ∷ es) expected_set w =
      let grown = e.oba_id ∷ expected_set in
      (
        ground arith,
        check_all_expected-IsServer api names es grown
            (check_expected env vc api names e grown w).1,
      )

  report_unexpected-IsServer :
      (expected_set ids : List Text) → All IsServer (report_unexpected env vc expected_set ids)
  unfolding report_unexpected unexpected agency_outcome
  report_unexpected-IsServer expected_set [] = tt
  report_unexpected-IsServer expected_set (id ∷ ids) =
      let rest = report_unexpected-IsServer expected_set ids in
      elim (Bool-cases (member id expected_set)) [
        | inl e ↦ rw (e, report_unexpected) rest
        | inr e ↦ rw (e, report_unexpected) (refl, rest)
      ]

  run_agency_union-IsServer : (w : World) → All IsServer (run_agency_union env vc w).0
  unfolding run_agency_union compare_agencies agency_outcome
  run_agency_union-IsServer w = elim (Option-cases (usable (agencies_reply vc))) [
    | inl e ↦ rw (e, run_agency_union) (refl, tt)
    | inr (answer, e) ↦
        rw (e, run_agency_union)
          (All-append IsServer _ _ (check_all_expected-IsServer _ _ _ [] w)
            (report_unexpected-IsServer _ _))
  ]

  -- The results of the sources, each under the label of its source.
  each-labels :
      (srcs : List SourceContext) (w : World)
      → ¬ (vc.config.sample_size <ℤ pos 0)
      → Yields (λ r. IsOneOf (labels srcs) r.source) (each (source_checks env vc) srcs w)
  unfolding each
  each-labels [] w h = ([], w, refl, tt)
  each-labels (s ∷ srcs) w h =
      let (rs, w1, e, tried) = source_checks-Yields env vc s w h in
      let (rest, w2, f, later) = each-labels srcs w1 h in
      (
        rs ++ rest,
        w2,
        rw (e, each, f) refl,
        All-append (λ r. IsOneOf (labels (s ∷ srcs)) r.source) rs rest
            (All-map rs (λ r t. inl t.0) tried) (All-map rest (λ r i. inr i) later),
      )

  run_checks-IsPlaced :
      (w : World)
      → ¬ (vc.config.sample_size <ℤ pos 0)
      → (rep : Report) × (v : World) × (run_checks env vc w ≡ some (rep, v))
        × All (IsPlaced (labels vc.sources)) rep.results
  unfolding run_checks
  run_checks-IsPlaced w h =
      let endpoints = run_endpoints env vc w in
      let agencies = run_agency_union env vc endpoints.1 in
      let (rest, v, e, placed) = each-labels vc.sources agencies.1 h in
      let Q = IsPlaced (labels vc.sources) in
      (
        record { results = endpoints.0 ++ agencies.0 ++ rest },
        v,
        rw (e, run_checks) refl,
        All-append Q (endpoints.0 ++ agencies.0) rest
            (All-append Q endpoints.0 agencies.0
              (All-map endpoints.0 (λ r own. inl own) (run_endpoints_lem env vc w).2)
              (All-map agencies.0 (λ r own. inl own) (run_agency_union-IsServer endpoints.1)))
            (All-map rest (λ r i. inr i) placed),
      )

-- The labels of the prepared sources are the ids that the document gives them.
prepared-labels :
    (sources : Sources) (i : ℕ) (ds : List DataSource) (ss : List SourceContext)
    → AllPrepared sources i ds ss
    → labels ss ≡ source_ids i ds
unfolding new_source source_id
prepared-labels sources i [] [] a = refl
prepared-labels sources i [] (s ∷ ss) a = absurd a
prepared-labels sources i (d ∷ ds) [] a = absurd a
prepared-labels sources i (d ∷ ds) (s ∷ ss) a =
    cc (a.0.0.1, prepared-labels sources (suc i) ds ss a.1)

-- Behind a finished preparation, at a sample size that is not negative, each result of `Run` is for the
-- whole server or for a configured source, by the name that the document has for it.
pub run_validator-IsPlaced :
    (env : Env) (sources : Sources) (n : ℕ) (s : State) (cfg : Config) (w : env.World)
    → Run sources n (initial cfg) s
    → IsFinished s.cells
    → ¬ (cfg.sample_size <ℤ pos 0)
    → (rep : Report) × (run_validator env s cfg w ≡ some (ok rep))
      × All (IsPlaced (source_ids 0 cfg.data_sources)) rep.results
unfolding run_validator
run_validator-IsPlaced env sources n s cfg w r over h =
    let reply = env.agencies_with_coverage w in
    let vc = prepared cfg (reply.0).body (reply.0).error s in
    let named =
      prepared-labels sources 0 cfg.data_sources vc.sources
        (prepared-AllPrepared sources cfg (reply.0).body (reply.0).error n s r over) in
    let (rep, v, e, placed) = run_checks-IsPlaced env vc reply.1 (unfold prepared in h) in
    (rep, rw (e, run_validator) refl, subst (λ ids. All (IsPlaced ids) rep.results) named placed)
