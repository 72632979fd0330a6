-- ===== src/Validator/TripUpdates.antt =====
-- validator/check_tripupdates.go: predicted trips of the feed against the arrivals at their stops.
pub mod Presence
pub mod Safety
use server_validator.Prelude.{
  ◌⊎◌, inl, inr, Bool, true, false, not, ◌||◌, List, [], ◌∷◌, ◌++◌, Option, none, some,
  if◌then◌else◌,
}
use server_validator.Text.{Text, lit, is_empty}
use server_validator.GoMap.{lookup}
use server_validator.Feeds.Gtfs.{StopTimeUpdate, Trip, Realtime}
use server_validator.Feeds.Static.{ParsedStatic, agency_for_trip, agency_for_route}
use server_validator.Validator.Status.{Status, pass, warn, fail, text, Details, Result}
use server_validator.Validator.Redaction.{redact}
use server_validator.Validator.Ids.{prefixed_id, id_match}
use server_validator.Validator.Sampling.{sample_by_id}
use server_validator.Validator.Context.{
  Arrival, Arrivals, Env, SourceContext, map_agency, ValidationContext,
}
use server_validator.Validator.Arrivals.{query_arrivals}
use server_validator.Validator.Loop.{each}

-- The stop id of the first update with a stop and a predicted arrival or departure.
unfoldable pub predicted_stop : List StopTimeUpdate → Option Text
predicted_stop [] = none
predicted_stop (stu ∷ rest) = elim stu.stop_id [
  | none ↦ predicted_stop rest
  | some s ↦ if stu.arrival || stu.departure then some s else predicted_stop rest
]

unfoldable pub usable_trips : List Trip → List Trip
usable_trips [] = []
usable_trips (tr ∷ rest) = elim (predicted_stop tr.stop_time_updates) [
  | none ↦ usable_trips rest
  | some s ↦ tr ∷ usable_trips rest
]

-- The OBA agency of a trip, by its id or else by its route; "" where neither is known.
unfoldable pub trip_update_agency : SourceContext → Trip → Text
trip_update_agency src tr = elim src.static [
  | none ↦ []
  | some p ↦ elim (agency_for_trip p tr.id.id) [
    | some gid ↦ (map_agency src gid).0
    | none ↦
        if not (is_empty tr.id.route_id)
        then (elim (agency_for_route p tr.id.route_id) [
          | some gid ↦ (map_agency src gid).0
          | none ↦ []
        ])
        else []
  ]
]

-- The stop that is asked for; "" where there is none.
unfoldable pub raw_stop_of : Trip → Text
raw_stop_of tr = elim (predicted_stop tr.stop_time_updates) [ some s ↦ s | none ↦ [] ]

-- The search through the arrivals.
unfoldable pub trip_found : Text → Text → List Arrival → Bool
trip_found trip_id agency [] = false
trip_found trip_id agency (a ∷ rest) =
    if id_match a.trip_id trip_id agency then true else trip_found trip_id agency rest

module _ (env : Env) (vc : ValidationContext) (src : SourceContext) where
  open env use {World}

  unfoldable pub trip_outcome : Status → Text → Details → Result
  trip_outcome st msg det = record {
    check = lit "trip-update-sampling";
    source = src.label;
    status = st;
    message = msg;
    details = det;
  }

  unfoldable pub judge_trip : Text → Trip → Bool → Result
  judge_trip oba_stop tr found =
      let id = env.fmt.quote tr.id.id in
      let stop = env.fmt.quote (raw_stop_of tr) in
      if found
      then trip_outcome pass (lit "predicted trip " ++ id ++ lit " present at stop " ++ stop) []
      else trip_outcome fail
          (lit "trip " ++ id ++ lit " predicted in feed but absent from arrivals at stop " ++ stop)
          ((lit "feedTripId", text tr.id.id) ∷ (lit "stopId", text oba_stop) ∷ [])

  -- One round of the loop over the sample.
  unfoldable pub check_trip : Trip → World → Option (List Result × World)
  check_trip tr w =
      let agency = trip_update_agency src tr in
      let oba_stop = prefixed_id agency (raw_stop_of tr) in
      let (answer, w') = query_arrivals env vc (lit "trip-update-sampling") src.label oba_stop w in
      elim answer [
        | inr bad ↦ some (bad ∷ [], w')
        | inl ad ↦ some (judge_trip oba_stop tr (trip_found tr.id.id agency ad.arrivals) ∷ [], w')
      ]

  unfoldable pub sample_trips : List Trip → World → Option (List Result × World)
  sample_trips usable w = elim usable [
    | [] ↦ some (trip_outcome warn (lit "no trip update has a predicted stop-time") [] ∷ [], w)
    | u ∷ us ↦ elim (sample_by_id (λ t. t.id.id) (u ∷ us) vc.config.sample_size) [
      | none ↦ none
      | some sample ↦ each check_trip sample w
    ]
  ]

  unfoldable pub run_trip_updates : World → Option (List Result × World)
  run_trip_updates w = elim (lookup (lit "tripUpdates") src.prep_errors) [
    | some e ↦ some (
      trip_outcome fail (lit "trip updates feed unavailable: " ++ redact (some e) vc.config.api_key)
            []
          ∷ [],
      w,
    )
    | none ↦ elim src.trip_updates [
      | none ↦ some (trip_outcome warn (lit "no trip updates in feed to sample") [] ∷ [], w)
      | some rt ↦ elim rt.trips [
        | [] ↦ some (trip_outcome warn (lit "no trip updates in feed to sample") [] ∷ [], w)
        | t ∷ ts ↦ sample_trips (usable_trips (t ∷ ts)) w
      ]
    ]
  ]
