-- ===== src/Validator/Vehicles.antt =====
-- validator/check_vehicles.go: sampled vehicles of the feed against three endpoints.
pub mod Select
pub mod Safety
use server_validator.Prelude.{
  ℕ, Bool, true, false, not, ◌||◌, ◌&&◌, List, [], ◌∷◌, ◌++◌, Option, none, some, length,
  if◌then◌else◌,
}
use server_validator.Prelude.Float.{Float32, widen}
use server_validator.Text.{Text, lit, is_empty}
use server_validator.GoMap.{lookup}
use server_validator.Fmt.{decimal}
use server_validator.Feeds.Gtfs.{Vehicle, VehicleId, Trip, Position, Realtime}
use server_validator.Feeds.Static.{ParsedStatic, agency_for_trip, agency_for_route}
use server_validator.Validator.Status.{Status, pass, warn, fail, text, Details, Result}
use server_validator.Validator.Redaction.{redact}
use server_validator.Validator.Ids.{prefixed_id, id_match}
use server_validator.Validator.Sampling.{sample_by_id}
use server_validator.Validator.Context.{Reply, Env, SourceContext, map_agency, ValidationContext}
use server_validator.Validator.Loop.{each}
use server_validator.Validator.Vehicles.Select.{
  candidates_of, vehicle_key, vehicle_label, resolve_vehicle_agency, vehicle_listed, trip_listed,
}

module _ (env : Env) (vc : ValidationContext) (src : SourceContext) where
  open env use {World}

  abbrev quote : Text → Text
  quote = env.fmt.quote

  abbrev key : Text
  key = vc.config.api_key

  -- A result of the check, or of a step of it, whose name begins with a slash.
  unfoldable pub vehicle_outcome : Text → Status → Text → Details → Result
  vehicle_outcome step st msg det = record {
    check = lit "vehicle-positions-sampling" ++ step;
    source = src.label;
    status = st;
    message = msg;
    details = det;
  }

  -- (a) The verdict on the answer of vehicles-for-agency.
  unfoldable pub judge_listed : Text → Text → Text → Reply (List Text) → Result
  judge_listed agency raw_veh label vfa =
      let step = lit "/vehicles-for-agency" in
      let det = (lit "agencyId", text agency) ∷ [] in
      elim vfa.error [
        | some e ↦
            vehicle_outcome step fail (lit "vehicles-for-agency failed: " ++ redact (some e) key)
              det
        | none ↦ elim vfa.body [
          | none ↦
              vehicle_outcome step fail
                (lit "vehicles-for-agency "
                  ++ quote agency
                  ++ lit " returned a null response while feed has vehicles")
                det
          | some items ↦ elim items [
            | [] ↦
                vehicle_outcome step fail
                  (lit "vehicles-for-agency "
                    ++ quote agency
                    ++ lit " empty while feed has vehicles")
                  []
            | i ∷ is ↦
                if vehicle_listed raw_veh label agency (i ∷ is)
                then vehicle_outcome step pass (lit "vehicle " ++ quote raw_veh ++ lit " present")
                    []
                else vehicle_outcome step warn
                    (lit "vehicle "
                      ++ quote raw_veh
                      ++ lit " not found among "
                      ++ decimal (length (i ∷ is))
                      ++ lit " vehicles (possible id-convention mismatch)")
                    ((lit "vehicleId", text raw_veh) ∷ (lit "agencyId", text agency) ∷ [])
          ]
        ]
      ]

  -- (b) The verdict on the answer of trip-for-vehicle.
  unfoldable pub judge_trip_of : Text → Text → Text → Text → Reply Text → Result
  judge_trip_of agency raw_veh oba_veh raw_trip tfv =
      let step = lit "/trip-for-vehicle" in
      let det = (lit "vehicleId", text oba_veh) ∷ [] in
      elim tfv.error [
        | some e ↦
            vehicle_outcome step warn
              (lit "trip-for-vehicle returned no current trip: " ++ redact (some e) key) det
        | none ↦ elim tfv.body [
          | none ↦
              vehicle_outcome step warn
                (lit "trip-for-vehicle returned a null response for vehicle " ++ quote raw_veh) det
          | some trip_id ↦
              if id_match trip_id raw_trip agency
              then vehicle_outcome step pass
                  (lit "vehicle " ++ quote raw_veh ++ lit " on expected trip " ++ quote raw_trip) []
              else if is_empty trip_id
              then vehicle_outcome step warn
                  (lit "trip-for-vehicle returned no current trip for vehicle " ++ quote raw_veh)
                  det
              else vehicle_outcome step fail
                  (lit "trip-for-vehicle returned "
                    ++ quote trip_id
                    ++ lit ", feed says "
                    ++ quote raw_trip)
                  ((lit "apiTripId", text trip_id) ∷ (lit "feedTripId", text raw_trip) ∷ [])
        ]
      ]

  -- (c) The verdict on the answer of trips-for-location.
  unfoldable pub judge_nearby : Text → Text → Text → Reply (List Text) → Result
  judge_nearby agency raw_veh raw_trip tfl =
      let step = lit "/trips-for-location" in
      elim tfl.error [
        | some e ↦
            vehicle_outcome step warn (lit "trips-for-location failed: " ++ redact (some e) key) []
        | none ↦ elim tfl.body [
          | none ↦
              vehicle_outcome step warn
                (lit "trips-for-location returned a null response near vehicle " ++ quote raw_veh)
                []
          | some items ↦
              if trip_listed raw_trip agency items
              then vehicle_outcome step pass
                  (lit "trip " ++ quote raw_trip ++ lit " present near vehicle") []
              else vehicle_outcome step warn
                  (lit "trip "
                    ++ quote raw_trip
                    ++ lit " not in trips-for-location box (vehicle may have moved)")
                  []
        ]
      ]

  -- The vehicle's latitude and longitude, if it has both.
  unfoldable pub coordinates : Vehicle → Option (Float32 × Float32)
  coordinates v = elim v.position [
    | none ↦ none
    | some p ↦ elim p.latitude [
      | none ↦ none
      | some lat ↦ elim p.longitude [ none ↦ none | some lon ↦ some (lat, lon) ]
    ]
  ]

  -- Step (c) with its call.
  unfoldable pub locate : Text → Text → Text → Vehicle → World → Result × World
  locate agency raw_veh raw_trip v w = elim (coordinates v) [
    | none ↦ (
      vehicle_outcome (lit "/trips-for-location") warn
          (lit "vehicle " ++ quote raw_veh ++ lit " has no position to query") [],
      w,
    )
    | some (lat, lon) ↦
        let span = vc.config.location_span in
        let (tfl, w') = env.trips_for_location (widen lat) (widen lon) span w in
        (judge_nearby agency raw_veh raw_trip tfl, w')
  ]

  -- The three steps for a vehicle whose agency is known. `v.Trip.ID.ID` is read behind the two
  -- first calls, and panics where the vehicle has no trip.
  unfoldable pub query_vehicle : Text → Vehicle → World → Option (List Result × World)
  query_vehicle agency v w =
      let raw_veh = vehicle_key v in
      let oba_veh = prefixed_id agency raw_veh in
      let (vfa, w1) = env.vehicles_for_agency agency w in
      let (tfv, w2) = env.trip_for_vehicle oba_veh w1 in
      elim v.trip [
        | none ↦ none
        | some trip ↦
            let raw_trip = trip.id.id in
            let (near, w3) = locate agency raw_veh raw_trip v w2 in
            some (
              judge_listed agency raw_veh (vehicle_label v) vfa
                  ∷ judge_trip_of agency raw_veh oba_veh raw_trip tfv
                  ∷ near
                  ∷ [],
              w3,
            )
      ]

  -- One round of the loop over the sample.
  unfoldable pub check_vehicle : Vehicle → World → Option (List Result × World)
  check_vehicle v w = elim (resolve_vehicle_agency src v) [
    | none ↦ some (
      vehicle_outcome [] warn
            (lit "could not resolve agency for vehicle "
              ++ quote (vehicle_key v)
              ++ lit " (trip/route not in static GTFS)")
            ((lit "vehicleId", text (vehicle_key v)) ∷ [])
          ∷ [],
      w,
    )
    | some agency ↦ query_vehicle agency v w
  ]

  unfoldable pub sample_vehicles : List Vehicle → World → Option (List Result × World)
  sample_vehicles vehicles w =
      elim (sample_by_id vehicle_key (candidates_of vehicles) vc.config.sample_size) [
        | none ↦ none
        | some sample ↦ each check_vehicle sample w
      ]

  unfoldable pub run_vehicles : World → Option (List Result × World)
  run_vehicles w = elim (lookup (lit "vehiclePositions") src.prep_errors) [
    | some e ↦ some (
      vehicle_outcome [] fail (lit "vehicle positions feed unavailable: " ++ redact (some e) key) []
          ∷ [],
      w,
    )
    | none ↦ elim src.vehicle_positions [
      | none ↦ some (vehicle_outcome [] warn (lit "no vehicles in feed to sample") [] ∷ [], w)
      | some rt ↦ elim rt.vehicles [
        | [] ↦ some (vehicle_outcome [] warn (lit "no vehicles in feed to sample") [] ∷ [], w)
        | v ∷ vs ↦ sample_vehicles (v ∷ vs) w
      ]
    ]
  ]
