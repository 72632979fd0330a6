-- ===== src/Validator/Vehicles/Safety.antt =====
-- The check of the vehicles panics only at a negative sample size: it never reads the trip of a
-- vehicle without one.
use server_validator.Prelude.{
  ◌≡◌, ◌++◌, ◌≢◌, ◌⊎◌, refl, List, [], ◌∷◌, arith, none, some, Option-cases, List-cases, Bool-cases,
  inl, inr,
}
use server_validator.Prelude.Int.{pos, ◌<ℤ◌, ltb_ℤ}
use server_validator.Text.{Text, lit}
use server_validator.GoMap.{lookup}
use server_validator.Feeds.Gtfs.{Vehicle, Trip, Realtime}
use server_validator.Validator.Ids.{prefixed_id}
use server_validator.Validator.Status.{text, warn, fail, Result}
use server_validator.Validator.Status.Severity.{IsTried}
use server_validator.Validator.Redaction.{redact}
use server_validator.Validator.Sampling.{sample_by_id}
use server_validator.Validator.Sampling.Sample.{sample_by_id-none_iff}
use server_validator.Validator.Context.{Reply, Env, SourceContext, ValidationContext}
use server_validator.Validator.Loop.{Yields, each-Yields}
use server_validator.Validator.Vehicles.{
  vehicle_outcome, query_vehicle, check_vehicle, judge_listed, judge_trip_of, judge_nearby, locate,
  coordinates, sample_vehicles, run_vehicles,
}
use server_validator.Validator.Vehicles.Select.{
  resolve_vehicle_agency, vehicle_key, vehicle_label, candidates_of,
}

module _ (env : Env) (vc : ValidationContext) (src : SourceContext) where
  open env use {World}

  abbrev Tried : Result → Type 0
  Tried = IsTried src.label

  judge_listed-IsTried :
      (agency raw_veh label : Text) (r : Reply (List Text))
      → Tried (judge_listed env vc src agency raw_veh label r)
  unfolding judge_listed vehicle_outcome
  judge_listed-IsTried agency raw_veh label r = ground arith

  judge_trip_of-IsTried :
      (agency raw_veh oba_veh raw_trip : Text) (r : Reply Text)
      → Tried (judge_trip_of env vc src agency raw_veh oba_veh raw_trip r)
  unfolding judge_trip_of vehicle_outcome
  judge_trip_of-IsTried agency raw_veh oba_veh raw_trip r = ground arith

  judge_nearby-IsTried :
      (agency raw_veh raw_trip : Text) (r : Reply (List Text))
      → Tried (judge_nearby env vc src agency raw_veh raw_trip r)
  unfolding judge_nearby vehicle_outcome
  judge_nearby-IsTried agency raw_veh raw_trip r = ground arith

  locate-IsTried :
      (agency raw_veh raw_trip : Text) (v : Vehicle) (w : World)
      → Tried (locate env vc src agency raw_veh raw_trip v w).0
  unfolding locate vehicle_outcome
  locate-IsTried agency raw_veh raw_trip v w = elim (Option-cases (coordinates env vc src v)) [
    | inl e ↦ ground arith
    | inr ((lat, lon), e) ↦ rw (e, locate) (judge_nearby-IsTried agency raw_veh raw_trip _)
  ]

  -- An agency is resolved only for a vehicle with a trip.
  resolve_vehicle_agency-some :
      (v : Vehicle) (agency : Text)
      → resolve_vehicle_agency src v ≡ some agency
      → (trip : Trip) × (v.trip ≡ some trip)
  unfolding resolve_vehicle_agency
  resolve_vehicle_agency-some v agency h = ground arith

  query_vehicle-Yields :
      (agency : Text) (v : Vehicle) (trip : Trip) (w : World)
      → v.trip ≡ some trip
      → Yields Tried (query_vehicle env vc src agency v w)
  unfolding query_vehicle
  query_vehicle-Yields agency v trip w e =
      let raw = vehicle_key v in
      let oba = prefixed_id agency raw in
      let listed = env.vehicles_for_agency agency w in
      let on_trip = env.trip_for_vehicle oba listed.1 in
      let near = locate env vc src agency raw trip.id.id v on_trip.1 in
      (
        judge_listed env vc src agency raw (vehicle_label v) listed.0
            ∷ judge_trip_of env vc src agency raw oba trip.id.id on_trip.0
            ∷ near.0
            ∷ [],
        near.1,
        ground arith,
        (
          judge_listed-IsTried agency raw (vehicle_label v) listed.0,
          (
            judge_trip_of-IsTried agency raw oba trip.id.id on_trip.0,
            (locate-IsTried agency raw trip.id.id v on_trip.1, tt),
          ),
        ),
      )

  check_vehicle-Yields : (v : Vehicle) (w : World) → Yields Tried (check_vehicle env vc src v w)
  unfolding check_vehicle vehicle_outcome
  check_vehicle-Yields v w = elim (Option-cases (resolve_vehicle_agency src v)) [
    | inl e ↦ (
      vehicle_outcome env vc src [] warn
            (lit "could not resolve agency for vehicle "
              ++ env.fmt.quote (vehicle_key v)
              ++ lit " (trip/route not in static GTFS)")
            ((lit "vehicleId", text (vehicle_key v)) ∷ [])
          ∷ [],
      w,
      ground arith,
      (((refl, inr (inl refl)), tt)),
    )
    | inr (agency, e) ↦
        let (trip, f) = resolve_vehicle_agency-some v agency e in
        rw (e, check_vehicle) (query_vehicle-Yields agency v trip w f)
  ]

  sample_vehicles-Yields :
      (vehicles : List Vehicle) (w : World)
      → ¬ (vc.config.sample_size <ℤ pos 0)
      → Yields Tried (sample_vehicles env vc src vehicles w)
  unfolding sample_vehicles
  sample_vehicles-Yields vehicles w h =
      elim (Option-cases
        (sample_by_id vehicle_key (candidates_of vehicles) vc.config.sample_size)) [
          | inl e ↦ absurd (
              h (
                (sample_by_id-none_iff vehicle_key (candidates_of vehicles) vc.config.sample_size).0
                  e))
          | inr (sample, e) ↦
              rw (e, sample_vehicles)
                (each-Yields (check_vehicle env vc src) Tried check_vehicle-Yields sample w)
        ]

  -- The feed was read, and has a vehicle.
  abbrev pub HasVehicles : Type 0
  HasVehicles =
      (lookup (lit "vehiclePositions") src.prep_errors ≡ none)
      × ((rt : Realtime) × (src.vehicle_positions ≡ some rt) × (rt.vehicles ≢ []))

  -- Either the sample size is negative, the feed was read and has a vehicle, and the check panics;
  -- or one of these fails, the check returns, and each of its results is for the source and passes,
  -- warns or fails.
  pub run_vehicles-Yields :
      (w : World)
      → ((vc.config.sample_size <ℤ pos 0) × HasVehicles × (run_vehicles env vc src w ≡ none))
        ⊎ ((¬ ((vc.config.sample_size <ℤ pos 0) × HasVehicles))
            × Yields Tried (run_vehicles env vc src w))
  unfolding run_vehicles vehicle_outcome sample_vehicles
  run_vehicles-Yields w = elim (Option-cases (lookup (lit "vehiclePositions") src.prep_errors)) [
    | inr (e, h) ↦ inr (
      λ hyp. ground (arith),
      (
        vehicle_outcome env vc src [] fail
              (lit "vehicle positions feed unavailable: " ++ redact (some e) vc.config.api_key) []
            ∷ [],
        w,
        ground arith,
        ((refl, inr (inr refl)), tt),
      ),
    )
    | inl h ↦ elim (Option-cases src.vehicle_positions) [
      | inl i ↦ inr (
        λ hyp. ground (arith),
        (
          vehicle_outcome env vc src [] warn (lit "no vehicles in feed to sample") [] ∷ [],
          w,
          ground arith,
          ((refl, inr (inl refl)), tt),
        ),
      )
      | inr (rt, i) ↦ elim (List-cases rt.vehicles) [
        | inl j ↦ inr (
          λ hyp. ground (arith),
          (
            vehicle_outcome env vc src [] warn (lit "no vehicles in feed to sample") [] ∷ [],
            w,
            ground arith,
            ((refl, inr (inl refl)), tt),
          ),
        )
        | inr (v, vs, j) ↦
            let run_eq : run_vehicles env vc src w ≡ sample_vehicles env vc src (v ∷ vs) w =
              ground arith in
            elim (Bool-cases (ltb_ℤ vc.config.sample_size (pos 0))) [
              | inl neg ↦ inl (
                ground arith,
                (h, (rt, i, ground (arith, j))),
                rw
                    (
                      run_eq,
                      (sample_by_id-none_iff vehicle_key (candidates_of (v ∷ vs))
                            vc.config.sample_size).1
                          (ground arith),
                      sample_vehicles,
                    )
                    refl,
              )
              | inr nonneg ↦ inr (
                λ hyp. ground arith,
                rw (run_eq, run_vehicles) (sample_vehicles-Yields (v ∷ vs) w (λ n. ground arith)),
              )
            ]
      ]
    ]
  ]
