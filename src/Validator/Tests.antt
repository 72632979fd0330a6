-- ===== src/Validator/Tests.antt =====
-- Runs of the checks of validator/ on a server, a feed and settings of a small size.
pub mod Data
use mathlib.Core.List.{Perm, Permᴰ, Nodup-cons, Nodup-nil, not-mem-nil}
use mathlib.Core.List.Memᴰ
use mathlib.Core.HLevel.{⊥_prop}
use mathlib.Core.Logic.{∥∥₁_elim}
use server_validator.Prelude.{
  ◌&&◌, not, ℕ, ◌+◌, ◌-◌, ◌≡◌, ◌≢◌, ◌⊎◌, ◌↔◌, ◌<◌, inl, inr, refl, Bool, true, false, List, [], ◌∷◌,
  ◌++◌, Option, none, some, map, length, All, Any, arith, ◌==◌, if◌then◌else◌,
}
use server_validator.Prelude.Int.{ℤ, pos, negsuc, ◌<ℤ◌, half_word}
use server_validator.Text.{Text, lit, text_eq}
use server_validator.Text.Search.{contains, Lacks}
use server_validator.Text.Replace.{star}
use server_validator.GoMap.{lookup, member}
use server_validator.Config.{is_zero_ℤ}
use server_validator.Feeds.Gtfs.{Vehicle}
use server_validator.Sort.Sorted.{NotAfter, IsSorted}
use server_validator.Sort.Stable.{DistinctKeys}
use server_validator.Validator.Status.{Status, pass, warn, fail, Result, Report, worst}
use server_validator.Validator.Status.Severity.{Has, worst_lem, IsTried, Known}
use server_validator.Validator.Redaction.{redact}
use server_validator.Validator.Ids.{underscore, raw_id, prefixed_id, id_match}
use server_validator.Validator.Ids.Matching.{NamesEntity, id_match_iff}
use server_validator.Validator.Sampling.{sample_by_id}
use server_validator.Validator.Sampling.Sample.{
  sample_by_id_lem, sample_by_id-none_iff, sample_by_id-eq_of_perm,
}
use server_validator.Validator.Context.{usable, Env, Arrivals}
use server_validator.Validator.Endpoints.{
  step_name, all_remaining, agencies_reply, clock_result, run_endpoints,
}
use server_validator.Validator.Endpoints.Steps.{IsLadder, IsServer, run_endpoints_lem}
use server_validator.Validator.Endpoints.Skew.{clock_result_iff, clock_result_wraps}
use server_validator.Validator.GtfsSanity.{run_gtfs_sanity}
use server_validator.Validator.GtfsSanity.Laws.{IsSound, run_gtfs_sanity_lem}
use server_validator.Validator.Freshness.{timestamp, check_feed, run_freshness}
use server_validator.Validator.Freshness.Laws.{expected, check_feed_lem}
use server_validator.Validator.Loop.{Yields}
use server_validator.Validator.ServiceAlerts.{
  run_service_alerts, SampleAlert, flags_of, judge_alert,
}
use server_validator.Validator.ServiceAlerts.Situations.{situations_of, judge_alert_lem}
use server_validator.Validator.TripUpdates.{run_trip_updates, trip_found, judge_trip}
use server_validator.Validator.TripUpdates.Presence.{judge_trip_lem}
use server_validator.Validator.Vehicles.{run_vehicles}
use server_validator.Validator.Vehicles.Select.{vehicle_key}
use server_validator.Validator.Vehicles.Safety.{HasVehicles, run_vehicles-Yields}
use server_validator.Validator.AgencyUnion.{expected_agencies, run_agency_union}
use server_validator.Validator.AgencyUnion.Coverage.{judged, warning, run_agency_union_lem}
use server_validator.Validator.TripUpdates.Safety.{run_trip_updates-Yields}
use server_validator.Validator.ServiceAlerts.Safety.{run_service_alerts-Yields}
use server_validator.Validator.Run.{source_checks, run_checks}
use server_validator.Validator.Run.Total.{source_checks-Yields, run_checks_lem}
use server_validator.Validator.Tests.Data.{
  small_env, settings, one_trip, one_vehicle, lost_vehicle, one_alert, realtime_feed, small_source,
  small_context, stop_answer,
}

abbrev failed : Result
failed = record { check = []; source = []; status = fail; message = []; details = [] }

abbrev failed_report : Report
failed_report = record { results = failed ∷ [] }

-- An agency's id with an underscore.
id_match_iff_example :
    id_match (b'1' ∷ b'_' ∷ b'1' ∷ b'_' ∷ b'2' ∷ []) (b'2' ∷ []) (b'1' ∷ b'_' ∷ b'1' ∷ []) ≡ true
id_match_iff_example =
    (id_match_iff (b'1' ∷ b'_' ∷ b'1' ∷ b'_' ∷ b'2' ∷ []) (b'2' ∷ []) (b'1' ∷ b'_' ∷ b'1' ∷ [])).1
      (inr (inr (λ e. cc, refl)))

sample_by_id_lem_example :
    (sample : List Vehicle) × (rest : List Vehicle) × (sample_by_id vehicle_key
        realtime_feed.vehicles
        (pos 1)
      ≡ some sample)
    × Perm (sample ++ rest) realtime_feed.vehicles
    × (length sample ≡ 1)
    × IsSorted vehicle_key sample
    × All (λ x. All (NotAfter vehicle_key x) rest) sample
sample_by_id_lem_example = sample_by_id_lem vehicle_key realtime_feed.vehicles 1

sample_by_id-none_iff_example : sample_by_id vehicle_key realtime_feed.vehicles (negsuc 0) ≡ none
sample_by_id-none_iff_example =
    (sample_by_id-none_iff vehicle_key realtime_feed.vehicles (negsuc 0)).1 (omega arith)

sample_by_id-eq_of_perm_example :
    sample_by_id vehicle_key (one_vehicle ∷ lost_vehicle ∷ []) (pos 1)
    ≡ sample_by_id vehicle_key (lost_vehicle ∷ one_vehicle ∷ []) (pos 1)
unfolding vehicle_key
sample_by_id-eq_of_perm_example =
    sample_by_id-eq_of_perm vehicle_key (pos 1) (Permᴰ.swap refl refl) (
      Nodup-cons.1 (
        λ m. ∥∥₁_elim m ⊥_prop (λ d. cc (Memᴰ.eq_of_singleton d)),
        Nodup-cons.1 (not-mem-nil, Nodup-nil),
      ))

run_endpoints_lem_example :
    (map (λ r. r.check) (run_endpoints small_env small_context 0).0
      ≡ map step_name (lit "current-time" ∷ all_remaining))
    × IsLadder (run_endpoints small_env small_context 0).0
    × All IsServer (run_endpoints small_env small_context 0).0
run_endpoints_lem_example = run_endpoints_lem small_env small_context 0

clock_result_iff_example :
    (clock_result small_env small_context (pos 5000000) (pos 1000000)).status ≡ warn
clock_result_iff_example =
    (clock_result_iff small_env small_context 5000000 1000000 (omega arith) (omega arith)).0.1
      (inl (omega arith))

run_gtfs_sanity_lem_example :
    (r : Result) × (run_gtfs_sanity small_context small_source ≡ r ∷ [])
    × (r.source ≡ small_source.label)
    × (((r.status ≡ pass) × IsSound small_source) ⊎ ((r.status ≡ fail) × (¬ IsSound small_source)))
run_gtfs_sanity_lem_example = run_gtfs_sanity_lem small_context small_source

-- A feed of 100 seconds ago.
check_feed_lem_example :
    (check_feed small_env small_context small_source (b'v' ∷ []) (some realtime_feed) 0).0.status
    ≡ pass
unfolding lookup timestamp is_zero_ℤ
check_feed_lem_example =
    check_feed_lem small_env small_context small_source (b'v' ∷ []) (some realtime_feed) 300 0 refl
      (omega arith)

abbrev one_sample : SampleAlert
one_sample = record { alert = one_alert; raw_stop = b's' ∷ [] }

judge_alert_lem_example :
    (judge_alert small_env small_context small_source
      (b's' ∷ [])
      one_sample
      (flags_of (b'x' ∷ []) (b'a' ∷ []) stop_answer)).status
    ≡ pass
judge_alert_lem_example =
    (judge_alert_lem small_env small_context small_source (b's' ∷ []) (b'a' ∷ []) one_sample
        stop_answer).0.1
      (inl (inr (inr (λ e. cc, refl))))

judge_trip_lem_example :
    (judge_trip small_env small_context small_source
      (b's' ∷ [])
      one_trip
      (trip_found (b't' ∷ []) (b'a' ∷ []) stop_answer.arrivals)).status
    ≡ pass
judge_trip_lem_example =
    (judge_trip_lem small_env small_context small_source (b's' ∷ []) (b'a' ∷ []) one_trip
        stop_answer).0.1
      (inl (inr (inr (λ e. cc, refl))))

run_vehicles-Yields_example :
    ((settings.sample_size <ℤ pos 0)
      × HasVehicles small_env small_context small_source
      × (run_vehicles small_env small_context small_source 0 ≡ none))
    ⊎ ((¬ ((settings.sample_size <ℤ pos 0) × HasVehicles small_env small_context small_source))
        × Yields (IsTried small_source.label) (run_vehicles small_env small_context small_source 0))
run_vehicles-Yields_example = run_vehicles-Yields small_env small_context small_source 0

clock_result_wraps_example :
    (clock_result small_env small_context (pos 5) (negsuc (half_word - 1 - 5))).status ≡ pass
clock_result_wraps_example = clock_result_wraps small_env small_context 5 (omega arith)

-- An agency that the API serves and is expected.
run_agency_union_lem_example :
    (rs : List Result) × (ws : List Result) × (extra : List Text) × ((run_agency_union small_env
        small_context 0).0
      ≡ rs ++ ws)
    × (map (λ (r : Result). (r.status, r.details)) ws ≡ map warning extra)
    × (map (λ r. r.status) rs
        ≡ map (judged ((b'a' ∷ []) ∷ [])) (expected_agencies small_context.sources))
    × ((k : Text)
        → member k extra ≡ (
            member k ((b'a' ∷ []) ∷ [])
            && not (member k (map (λ e. e.oba_id) (expected_agencies small_context.sources)))))
unfolding usable
run_agency_union_lem_example =
    run_agency_union_lem small_env small_context
      (record { list = (b'a' ∷ []) ∷ []; references = [] }) 0 (λ ks v k. refl) refl

run_checks_lem_example :
    (rep : Report) × (v : ℕ) × (run_checks small_env small_context 0 ≡ some (rep, v))
    × All Known rep.results
run_checks_lem_example = run_checks_lem small_env small_context 0 (λ h. omega arith)
