-- ===== src/Validator/AgencyUnion/Coverage.antt =====
-- What the union check reports of each agency.
use server_validator.Prelude.{
  ◌≡◌, refl, ◌∙◌, ap, not, ◌&&◌, ◌||◌, List, [], ◌∷◌, ◌++◌, some, arith, map, if◌then◌else◌,
}
use server_validator.Text.{Text, lit, text_eq_iff}
use server_validator.GoMap.{GoMap, member}
use server_validator.Validator.Status.{Status, pass, warn, fail, text, Details, Result}
use server_validator.Validator.Context.{Agencies, Env, usable, ValidationContext}
use server_validator.Validator.Endpoints.{agencies_reply}
use server_validator.Validator.AgencyUnion.{
  Expected, api_set, api_names, expected_agencies, agency_outcome, not_served, check_expected,
  check_all_expected, unexpected, report_unexpected, compare_agencies, run_agency_union,
}

-- The status of an expected agency, for the ids that the API serves.
abbrev pub judged : List Text → Expected → Status
judged api e = if member e.oba_id api then pass else if e.mapped then fail else warn

-- What the warning for an id of the API shows.
abbrev pub warning : Text → Status × Details
warning id = (warn, (lit "apiAgencyId", text id) ∷ [])

member-api_set : (k : Text) (ks : List Text) → member k (api_set ks) ≡ member k ks
unfolding api_set member
member-api_set k [] = refl
member-api_set k (j ∷ ks) =
    ground (arith, member-api_set k ks, member-api_set j ks, text_eq_iff k j)

-- The ids of a list that are in no other.
abbrev outside : List Text → List Text → List Text
outside expected_set [] = []
outside expected_set (k ∷ ks) =
    if member k expected_set then outside expected_set ks else k ∷ outside expected_set ks

member-outside :
    (k : Text) (expected_set ks : List Text)
    → member k (outside expected_set ks) ≡ (member k ks && not (member k expected_set))
unfolding member
member-outside k expected_set [] = refl
member-outside k expected_set (j ∷ ks) =
    ground (arith, member-outside k expected_set ks, text_eq_iff k j)

map-judged :
    (ks : List Text) (es : List Expected) → map (judged (api_set ks)) es ≡ map (judged ks) es
map-judged ks [] = refl
map-judged ks (e ∷ es) = cc (member-api_set e.oba_id ks, map-judged ks es)

module _ (env : Env) (vc : ValidationContext) where
  open env use {World}

  check_expected-status :
      (api : List Text) (names : GoMap Text) (e : Expected) (expected_set : List Text) (w : World)
      → (check_expected env vc api names e expected_set w).0.status ≡ judged api e
  unfolding check_expected not_served agency_outcome
  check_expected-status api names e expected_set w = ground arith

  check_all_expected-statuses :
      (api : List Text) (names : GoMap Text) (es : List Expected) (expected_set : List Text)
      (w : World)
      → map (λ r. r.status) (check_all_expected env vc api names es expected_set w).0
        ≡ map (judged api) es
  unfolding check_all_expected
  check_all_expected-statuses api names [] expected_set w = refl
  check_all_expected-statuses api names (e ∷ es) expected_set w =
      let grown = e.oba_id ∷ expected_set in
      cc (
        check_expected-status api names e grown w,
        check_all_expected-statuses api names es grown
            (check_expected env vc api names e grown w).1,
      )

  check_all_expected-set :
      (k : Text) (api : List Text) (names : GoMap Text) (es : List Expected)
      (expected_set : List Text) (w : World)
      → member k (check_all_expected env vc api names es expected_set w).1
        ≡ (member k (map (λ e. e.oba_id) es) || member k expected_set)
  unfolding check_all_expected member
  check_all_expected-set k api names [] expected_set w = refl
  check_all_expected-set k api names (e ∷ es) expected_set w =
      let grown = e.oba_id ∷ expected_set in
      ground (
        arith,
        check_all_expected-set k api names es grown (check_expected env vc api names e grown w).1,
      )

  report_unexpected-map :
      (expected_set ids : List Text)
      → report_unexpected env vc expected_set ids
        ≡ map (unexpected env vc) (outside expected_set ids)
  unfolding report_unexpected
  report_unexpected-map expected_set [] = refl
  report_unexpected-map expected_set (k ∷ ids) =
      ground (arith, report_unexpected-map expected_set ids)

  -- The status and the details of a warning for an agency of the API.
  unexpected_lem :
      (ids : List Text)
      → map (λ (r : Result). (r.status, r.details)) (map (unexpected env vc) ids) ≡ map warning ids
  unfolding unexpected agency_outcome
  unexpected_lem [] = refl
  unexpected_lem (k ∷ ids) = cc (unexpected_lem ids)

  -- Where ranging over a map meets each of its keys and no other, and the agencies were fetched,
  -- the check gives for each expected agency, in order, a result that passes if the API serves it,
  -- and otherwise fails if the agency was mapped and warns if not; behind these stands a result
  -- with the status warn and the id among its details for each agency that the API serves and no
  -- source expects, and for no other.
  pub run_agency_union_lem :
      (answer : Agencies) (w : World)
      → ((ks : List Text) (v : World) (k : Text) → member k (env.range_keys ks v).0 ≡ member k ks)
      → usable (agencies_reply vc) ≡ some answer
      → (rs : List Result) × (ws : List Result) × (extra : List Text) × ((run_agency_union env vc
            w).0
          ≡ rs ++ ws)
        × (map (λ (r : Result). (r.status, r.details)) ws ≡ map warning extra)
        × (map (λ r. r.status) rs ≡ map (judged answer.list) (expected_agencies vc.sources))
        × ((k : Text)
            → member k extra ≡ (
                member k answer.list
                && not (member k (map (λ e. e.oba_id) (expected_agencies vc.sources)))))
  unfolding run_agency_union compare_agencies member
  run_agency_union_lem answer w range fetched =
      let api = api_set answer.list in
      let names = api_names answer.references [] in
      let es = expected_agencies vc.sources in
      let run = check_all_expected env vc api names es [] w in
      let order = env.range_keys api run.2 in
      (
        run.0,
        map (unexpected env vc) (outside run.1 order.0),
        outside run.1 order.0,
        rw (fetched, run_agency_union)
            (ap (λ xs. run.0 ++ xs) (report_unexpected-map run.1 order.0)),
        unexpected_lem (outside run.1 order.0),
        check_all_expected-statuses api names es [] w ∙ map-judged answer.list es,
        λ k. ground (
          arith,
          member-outside k run.1 order.0,
          range api run.2 k,
          member-api_set k answer.list,
          check_all_expected-set k api names es [] w,
        ),
      )
