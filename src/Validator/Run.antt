-- ===== src/Validator/Run.antt =====
-- validator/validator.go: `Run`: the checks on a context that is the argument, and with the context
-- of a preparation. `none` is a panic of a check.
pub mod Total
pub mod Placed
use server_validator.Prelude.{List, ◌++◌, Option, none, some}
use server_validator.Config.{Config}
use server_validator.Sink.Dsn.{Result as Returned, ok}
use server_validator.Validator.Prepare.{State, prepared}
use server_validator.Validator.Status.{Result, Report}
use server_validator.Validator.Context.{Env, SourceContext, ValidationContext}
use server_validator.Validator.Loop.{each}
use server_validator.Validator.Endpoints.{run_endpoints}
use server_validator.Validator.AgencyUnion.{run_agency_union}
use server_validator.Validator.GtfsSanity.{run_gtfs_sanity}
use server_validator.Validator.Freshness.{run_freshness}
use server_validator.Validator.Vehicles.{run_vehicles}
use server_validator.Validator.TripUpdates.{run_trip_updates}
use server_validator.Validator.ServiceAlerts.{run_service_alerts}

module _ (env : Env) (vc : ValidationContext) where
  open env use {World}

  -- The inner loop, over the checks of `dataSourceChecks`.
  unfoldable pub source_checks : SourceContext → World → Option (List Result × World)
  source_checks src w =
      let (fresh, w1) = run_freshness env vc src w in
      elim (run_vehicles env vc src w1) [
        | none ↦ none
        | some (vehicles, w2) ↦ elim (run_trip_updates env vc src w2) [
          | none ↦ none
          | some (trips, w3) ↦ elim (run_service_alerts env vc src w3) [
            | none ↦ none
            | some (alerts, w4) ↦
                some (run_gtfs_sanity vc src ++ fresh ++ vehicles ++ trips ++ alerts, w4)
          ]
        ]
      ]

  unfoldable pub run_checks : World → Option (Report × World)
  run_checks w =
      let (endpoints, w1) = run_endpoints env vc w in
      let (agencies, w2) = run_agency_union env vc w1 in
      elim (each source_checks vc.sources w2) [
        | none ↦ none
        | some (rest, w3) ↦ some (record { results = endpoints ++ agencies ++ rest }, w3)
      ]

-- The whole of it, with the agencies and the state in which the preparation ended. There is no error:
-- `prepare` returns nil for it.
unfoldable pub run_validator : (env : Env) → State → Config → env.World → Option (Returned Report)
run_validator env s cfg w =
    let (reply, w1) = env.agencies_with_coverage w in
    elim (run_checks env (prepared cfg reply.body reply.error s) w1) [
      | none ↦ none
      | some (rep, w2) ↦ some (ok rep)
    ]
