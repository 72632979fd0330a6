-- ===== src/Validator/Endpoints/Steps.antt =====
-- However the server answers, the check reports its seven steps, in order, up to the first failure
-- as tried and from there on as skipped.
use server_validator.Prelude.{
  ◌≡◌, ◌⊎◌, ◌∙◌, append_assoc, Option-cases, List-cases, inl, inr, refl, List, [], ◌∷◌, ◌++◌, arith,
  map, All,
}
use server_validator.Prelude.Int.{ℤ}
use server_validator.Text.{Text, lit}
use server_validator.Validator.Status.{pass, warn, fail, skip, Details, Result}
use server_validator.Validator.Context.{usable, Stop, Env, ValidationContext}
use server_validator.Validator.Endpoints.{
  step_name, added, skip_rest, all_remaining, agencies_reply, nearby, same_stop, some_ids, pop,
  give_up, step2, step3, step4, step5, step6, step7, clock_result, run_endpoints,
}

abbrev checks_of : List Result → List Text
checks_of = map (λ r. r.check)

-- Passes and warnings, then perhaps one failure with nothing but skipped steps behind it.
abbrev pub IsLadder : List Result → Type 0
IsLadder [] = Unit
IsLadder (r ∷ rs) =
    (((r.status ≡ pass) ⊎ (r.status ≡ warn)) × IsLadder rs)
    ⊎ ((r.status ≡ fail) × All (λ s. s.status ≡ skip) rs)

-- The result is one of the whole server.
abbrev pub IsServer : Result → Type 0
IsServer r = r.source ≡ []

-- The results `new` report the steps `steps`, as a ladder, behind those that stand in `out`.
abbrev Reports : List Text → List Result → List Result → Type 0
Reports steps out all =
    (new : List Result) × (all ≡ out ++ new)
    × (checks_of new ≡ map step_name steps)
    × IsLadder new
    × All IsServer new

module _ (env : Env) (vc : ValidationContext) where
  open env use {World}

  step7-Reports :
      (stop_id : Text) (out : List Result) (w : World)
      → Reports (lit "arrivals-and-departures-for-stop" ∷ []) out (step7 env vc stop_id out w).0
  unfolding step7 added
  step7-Reports stop_id out w = (_, refl, ground arith, ground arith, (ground arith, tt))

  -- A step that passes, behind which the others report.
  Reports-pass :
      (step msg : Text) (det : Details) (steps : List Text) (out all : List Result)
      → Reports steps (out ++ added step pass msg det ∷ []) all
      → Reports (step ∷ steps) out all
  unfolding added
  Reports-pass step msg det steps out all (new, e, names, ladder, own) = (
    added step pass msg det ∷ new,
    e ∙ append_assoc out _ new,
    cc,
    inl (inl refl, ladder),
    (refl, own),
  )

  skip_rest-checks :
      (reason : Text) (steps : List Text)
      → (checks_of (skip_rest reason steps) ≡ map step_name steps)
        × All (λ s. s.status ≡ skip) (skip_rest reason steps)
        × All IsServer (skip_rest reason steps)
  unfolding skip_rest added
  skip_rest-checks reason [] = (refl, tt, tt)
  skip_rest-checks reason (step ∷ steps) =
      let (names, skipped, own) = skip_rest-checks reason steps in
      (cc, (refl, skipped), (refl, own))

  give_up-Reports :
      (step msg : Text) (det : Details) (reason : Text) (steps : List Text) (out : List Result)
      → Reports (step ∷ steps) out (give_up env vc step msg det reason (step ∷ steps) out)
  unfolding give_up pop
  give_up-Reports step msg det reason steps out =
      let (names, skipped, own) = skip_rest-checks reason steps in
      (
        added step fail msg det ∷ skip_rest reason steps,
        append_assoc out _ _,
        unfold added in cc,
        unfold added in inr (refl, skipped),
        unfold added in (refl, own),
      )

  abbrev steps6 : List Text
  steps6 = lit "stops-for-location" ∷ lit "arrivals-and-departures-for-stop" ∷ []

  step6-Reports :
      (stop_id : Text) (st : Stop) (out : List Result) (w : World)
      → Reports steps6 out (step6 env vc stop_id st steps6 out w).0
  unfolding step6 pop
  step6-Reports stop_id st out w =
      let (r, w') = env.stops_for_location st.lat st.lon w in
      elim (Option-cases (nearby r)) [
        | inl e ↦ rw (e, step6) (give_up-Reports (lit "stops-for-location") _ _ _ _ out)
        | inr ((s, stops), e) ↦
            rw (e, step6)
              (Reports-pass _ _ _ (lit "arrivals-and-departures-for-stop" ∷ []) out _
                (step7-Reports stop_id _ w'))
      ]

  abbrev steps5 : List Text
  steps5 = lit "stop" ∷ steps6

  step5-Reports :
      (stop_id : Text) (out : List Result) (w : World)
      → Reports steps5 out (step5 env vc stop_id steps5 out w).0
  unfolding step5 pop
  step5-Reports stop_id out w =
      let (r, w') = env.stop stop_id w in
      elim (Option-cases (same_stop stop_id r)) [
        | inl e ↦ rw (e, step5) (give_up-Reports (lit "stop") _ _ _ _ out)
        | inr (st, e) ↦
            rw (e, step5) (Reports-pass _ _ _ steps6 out _ (step6-Reports stop_id st _ w'))
      ]

  abbrev steps4 : List Text
  steps4 = lit "stops-for-route" ∷ steps5

  step4-Reports :
      (route_id : Text) (out : List Result) (w : World)
      → Reports steps4 out (step4 env vc route_id steps4 out w).0
  unfolding step4 pop
  step4-Reports route_id out w =
      let (r, w') = env.stops_for_route route_id w in
      elim (Option-cases (some_ids r)) [
        | inl e ↦ rw (e, step4) (give_up-Reports (lit "stops-for-route") _ _ _ _ out)
        | inr ((stop_id, more), e) ↦
            rw (e, step4) (Reports-pass _ _ _ steps5 out _ (step5-Reports stop_id _ w'))
      ]

  abbrev steps3 : List Text
  steps3 = lit "routes-for-agency" ∷ steps4

  step3-Reports :
      (agency_id : Text) (out : List Result) (w : World)
      → Reports steps3 out (step3 env vc agency_id steps3 out w).0
  unfolding step3 pop
  step3-Reports agency_id out w =
      let (r, w') = env.routes_for_agency agency_id w in
      elim (Option-cases (some_ids r)) [
        | inl e ↦ rw (e, step3) (give_up-Reports (lit "routes-for-agency") _ _ _ _ out)
        | inr ((route_id, more), e) ↦
            rw (e, step3) (Reports-pass _ _ _ steps4 out _ (step4-Reports route_id _ w'))
      ]

  -- The two first steps, and the theorem.
  abbrev steps2 : List Text
  steps2 = lit "agencies-with-coverage" ∷ steps3

  step2-Reports : (out : List Result) (w : World) → Reports steps2 out (step2 env vc steps2 out w).0
  unfolding step2 pop
  step2-Reports out w = elim (Option-cases (usable (agencies_reply vc))) [
    | inl e ↦ rw (e, step2) (give_up-Reports (lit "agencies-with-coverage") _ _ _ _ out)
    | inr (answer, e) ↦ elim (List-cases answer.list) [
      | inl f ↦ rw (e, step2, f) (give_up-Reports (lit "agencies-with-coverage") _ _ _ _ out)
      | inr (agency_id, more, f) ↦
          rw (e, step2, f) (Reports-pass _ _ _ steps3 out _ (step3-Reports agency_id _ w))
    ]
  ]

  clock_result_lem :
      (now server : ℤ)
      → ((clock_result env vc now server).check ≡ step_name (lit "current-time"))
        × (((clock_result env vc now server).status ≡ pass)
            ⊎ ((clock_result env vc now server).status ≡ warn))
        × IsServer (clock_result env vc now server)
  unfolding clock_result added
  clock_result_lem now server = ground arith

  run_endpoints_parts :
      (w : World)
      → (checks_of (run_endpoints env vc w).0 ≡ map step_name (lit "current-time" ∷ steps2))
        × IsLadder (run_endpoints env vc w).0
        × All IsServer (run_endpoints env vc w).0
  unfolding run_endpoints all_remaining
  run_endpoints_parts w =
      let (ct, w1) = env.current_time w in
      elim (Option-cases (usable ct)) [
        | inl e ↦
            let (names, skipped, own) =
              skip_rest-checks (lit "current-time failed") all_remaining in
            rw (e, run_endpoints) (unfold added in (cc, inr (refl, skipped), (refl, own)))
        | inr (server, e) ↦
            let (now, w2) = env.now_milli w1 in
            let first = clock_result env vc now server in
            let (named, tried, own) = clock_result_lem now server in
            let (new, split, names, ladder, owns) = step2-Reports (first ∷ []) w2 in
            rw (e, run_endpoints, split) (cc, inl (tried, ladder), (own, owns))
      ]

  -- Whatever the server answers, the check gives exactly seven results, one for each step in the
  -- order of the source; those before the first failure passed or warned, and those behind it are
  -- skipped. All of them are results of the whole server.
  pub run_endpoints_lem :
      (w : World)
      → (checks_of (run_endpoints env vc w).0 ≡ map step_name (lit "current-time" ∷ all_remaining))
        × IsLadder (run_endpoints env vc w).0
        × All IsServer (run_endpoints env vc w).0
  unfolding all_remaining
  run_endpoints_lem w = run_endpoints_parts w
