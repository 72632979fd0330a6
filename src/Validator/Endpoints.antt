-- ===== src/Validator/Endpoints.antt =====
-- validator/check_endpoints.go: the chain of calls against the whole server. Each numbered step of
-- the source is a function; a step that fails records the rest as skipped.
pub mod Steps
pub mod Skew
use server_validator.Prelude.{
  ◌||◌, not, Bool, true, false, List, [], ◌∷◌, ◌++◌, Option, none, some, map, length, if◌then◌else◌,
}
use server_validator.Prelude.Int.{ℤ, pos, negsuc, ◌-ℤ◌, ltb_ℤ, wrap}
use server_validator.Text.{Text, lit, text_eq}
use server_validator.Fmt.{decimal, decimal_ℤ}
use server_validator.Validator.Status.{
  Status, pass, warn, fail, skip, Detail, text, int, float, Details, Result,
}
use server_validator.Validator.Redaction.{GoError, with_reason}
use server_validator.Validator.Context.{
  Reply, Agencies, Stop, NearbyStops, Arrivals, Env, usable, ValidationContext,
}

unfoldable pub step_name : Text → Text
step_name step = lit "basic-endpoints/" ++ step

-- The result that the closure `add` appends.
unfoldable pub added : Text → Status → Text → Details → Result
added step st msg det = record {
  check = step_name step;
  source = [];
  status = st;
  message = msg;
  details = det;
}

-- The results that the closure `skipRest` appends for the steps that remain.
unfoldable pub skip_rest : Text → List Text → List Result
skip_rest reason remaining = map (λ step. added step skip (lit "skipped: " ++ reason) []) remaining

-- `remaining` before the first step.
unfoldable pub all_remaining : List Text
all_remaining =
    lit "agencies-with-coverage"
    ∷ lit "routes-for-agency"
    ∷ lit "stops-for-route"
    ∷ lit "stop"
    ∷ lit "stops-for-location"
    ∷ lit "arrivals-and-departures-for-stop"
    ∷ []

-- `remaining[1:]`; the source pops no more often than there are steps.
unfoldable pub pop : List Text → List Text
pop [] = []
pop (step ∷ rest) = rest

-- The clock skew in milliseconds, in the arithmetic of `int64`.
unfoldable pub skew_of : ℤ → ℤ → ℤ
skew_of now server =
    let skew = wrap (now -ℤ server) in if ltb_ℤ skew (pos 0) then wrap (pos 0 -ℤ skew) else skew

abbrev hour_milliseconds : ℤ
hour_milliseconds = pos 3600000

-- The ids of a good answer: `err != nil || r == nil || len(ids) == 0` fails.
unfoldable pub some_ids : Reply (List Text) → Option (Text × List Text)
some_ids r = elim (usable r) [
  | none ↦ none
  | some ids ↦ elim ids [ [] ↦ none | i ∷ is ↦ some (i, is) ]
]

-- The stop, if it is the one that was asked for.
unfoldable pub same_stop : Text → Reply Stop → Option Stop
same_stop stop_id r = elim (usable r) [
  | none ↦ none
  | some st ↦ if not (text_eq st.id stop_id) then none else some st
]

-- The stops near by, if the place is in range and there is one.
unfoldable pub nearby : Reply NearbyStops → Option (Text × List Text)
nearby r = elim (usable r) [
  | none ↦ none
  | some answer ↦
      let ids : Option (Text × List Text) = elim answer.list [
        | [] ↦ none
        | i ∷ is ↦ some (i, is)
      ] in
      if answer.out_of_range then none else ids
]

-- What the fetch before the checks left: `vc.Agencies` and `vc.AgenciesErr`.
abbrev pub agencies_reply : ValidationContext → Reply Agencies
agencies_reply vc = record { body = vc.agencies; error = vc.agencies_err }

module _ (env : Env) (vc : ValidationContext) where
  open env use {World}

  abbrev key : Text
  key = vc.config.api_key

  -- A step that fails: its result, one pop, and the rest as skipped.
  unfoldable pub give_up : Text → Text → Details → Text → List Text → List Result → List Result
  give_up step msg det reason remaining out =
      (out ++ added step fail msg det ∷ []) ++ skip_rest reason (pop remaining)

  -- 7. arrivals-and-departures-for-stop
  unfoldable pub step7 : Text → List Result → World → List Result × World
  step7 stop_id out w =
      let (ad, w') = env.arrivals_for_stop stop_id w in
      let step = lit "arrivals-and-departures-for-stop" in
      let det = (lit "stopId", text stop_id) ∷ [] in
      let result : Result = elim (usable ad) [
        | none ↦ added step fail (with_reason (lit "arrivals failed") ad.error key) det
        | some answer ↦ elim answer.arrivals [
          | [] ↦ added step warn (lit "endpoint OK but no arrivals at this time") det
          | a ∷ rest ↦
              added step pass (decimal (length (a ∷ rest)) ++ lit " arrivals/departures") det
        ]
      ] in
      (out ++ result ∷ [], w')

  -- 6. stops-for-location
  unfoldable pub step6 : Text → Stop → List Text → List Result → World → List Result × World
  step6 stop_id st remaining out w =
      let (loc, w') = env.stops_for_location st.lat st.lon w in
      let step = lit "stops-for-location" in
      elim (nearby loc) [
        | none ↦ (
          give_up step
              (with_reason (lit "stops-for-location empty/out-of-range/failed") loc.error key) []
              (lit "stops-for-location failed") remaining out,
          w',
        )
        | some (s, stops) ↦
            step7 stop_id
              (out ++ added step pass (decimal (length (s ∷ stops)) ++ lit " stops near") [] ∷ [])
              w'
      ]

  -- 5. stop
  unfoldable pub step5 : Text → List Text → List Result → World → List Result × World
  step5 stop_id remaining out w =
      let (r, w') = env.stop stop_id w in
      let step = lit "stop" in
      elim (same_stop stop_id r) [
        | none ↦ (
          give_up step (with_reason (lit "stop lookup failed/mismatch") r.error key)
              ((lit "stopId", text stop_id) ∷ []) (lit "stop failed") remaining out,
          w',
        )
        | some st ↦
            step6 stop_id st (pop remaining)
              (out
                ++ added step pass (lit "stop OK")
                    ((lit "lat", float st.lat) ∷ (lit "lon", float st.lon) ∷ [])
                  ∷ [])
              w'
      ]

  -- 4. stops-for-route
  unfoldable pub step4 : Text → List Text → List Result → World → List Result × World
  step4 route_id remaining out w =
      let (sfr, w') = env.stops_for_route route_id w in
      let step = lit "stops-for-route" in
      elim (some_ids sfr) [
        | none ↦ (
          give_up step (with_reason (lit "stops-for-route empty/failed") sfr.error key)
              ((lit "routeId", text route_id) ∷ []) (lit "stops-for-route failed") remaining out,
          w',
        )
        | some (stop_id, more) ↦
            step5 stop_id (pop remaining)
              (out
                ++ added step pass (decimal (length (stop_id ∷ more)) ++ lit " stops")
                    ((lit "stopId", text stop_id) ∷ [])
                  ∷ [])
              w'
      ]

  -- 3. routes-for-agency
  unfoldable pub step3 : Text → List Text → List Result → World → List Result × World
  step3 agency_id remaining out w =
      let (routes, w') = env.routes_for_agency agency_id w in
      let step = lit "routes-for-agency" in
      elim (some_ids routes) [
        | none ↦ (
          give_up step (with_reason (lit "routes-for-agency empty/failed") routes.error key)
              ((lit "agencyId", text agency_id) ∷ []) (lit "routes-for-agency failed") remaining
              out,
          w',
        )
        | some (route_id, more) ↦
            step4 route_id (pop remaining)
              (out
                ++ added step pass (decimal (length (route_id ∷ more)) ++ lit " routes")
                    ((lit "routeId", text route_id) ∷ [])
                  ∷ [])
              w'
      ]

  -- 2. agencies-with-coverage, which was fetched before.
  unfoldable pub step2 : List Text → List Result → World → List Result × World
  step2 remaining out w =
      let step = lit "agencies-with-coverage" in
      elim (usable (agencies_reply vc)) [
        | none ↦ (
          give_up step (with_reason (lit "agencies-with-coverage failed") vc.agencies_err key) []
              (lit "agencies-with-coverage failed") remaining out,
          w,
        )
        | some answer ↦ elim answer.list [
          | [] ↦ (give_up step (lit "no agencies returned") [] (lit "no agencies") remaining out, w)
          | agency_id ∷ more ↦
              step3 agency_id (pop remaining)
                (out
                  ++ added step pass (decimal (length (agency_id ∷ more)) ++ lit " agencies")
                      ((lit "agencyId", text agency_id) ∷ [])
                    ∷ [])
                w
        ]
      ]

  -- The result of the first step for the server's time and the clock's.
  unfoldable pub clock_result : ℤ → ℤ → Result
  clock_result now server =
      let skew = skew_of now server in
      if ltb_ℤ hour_milliseconds skew
      then added (lit "current-time") warn (lit "clock skew " ++ decimal_ℤ skew ++ lit "ms")
          ((lit "serverTimeMs", int server) ∷ [])
      else added (lit "current-time") pass (lit "current-time OK") []

  -- 1. current-time, and the rest.
  unfoldable pub run_endpoints : World → List Result × World
  run_endpoints w =
      let (ct, w1) = env.current_time w in
      elim (usable ct) [
        | none ↦ (
          (added (lit "current-time") fail (with_reason (lit "current-time failed") ct.error key) []
                ∷ [])
              ++ skip_rest (lit "current-time failed") all_remaining,
          w1,
        )
        | some server ↦
            let (now, w2) = env.now_milli w1 in
            step2 all_remaining (clock_result now server ∷ []) w2
      ]
