-- ===== src/Validator/Vehicles/Select.antt =====
-- validator/check_vehicles.go: which vehicles can be sampled, their ids and their agency, and the
-- search for a vehicle or a trip in an answer.
use server_validator.Prelude.{
  Bool, true, false, not, ◌||◌, ◌&&◌, List, [], ◌∷◌, Option, none, some, if◌then◌else◌,
}
use server_validator.Text.{Text, is_empty}
use server_validator.Feeds.Gtfs.{Vehicle}
use server_validator.Feeds.Static.{agency_for_trip, agency_for_route}
use server_validator.Validator.Ids.{id_match}
use server_validator.Validator.Context.{SourceContext, map_agency}

-- The vehicles with a trip and a position.
unfoldable pub with_trip_and_position : List Vehicle → List Vehicle
with_trip_and_position [] = []
with_trip_and_position (v ∷ rest) = elim v.trip [
  | none ↦ with_trip_and_position rest
  | some t ↦ elim v.position [
    | none ↦ with_trip_and_position rest
    | some p ↦ v ∷ with_trip_and_position rest
  ]
]

-- Those, or all vehicles where there is none.
unfoldable pub candidates_of : List Vehicle → List Vehicle
candidates_of vehicles = elim (with_trip_and_position vehicles) [ [] ↦ vehicles | v ∷ vs ↦ v ∷ vs ]

-- `v.ID.ID` and `v.ID.Label`, or "" where the vehicle has no id.
unfoldable pub vehicle_key : Vehicle → Text
vehicle_key v = elim v.id [ some i ↦ i.id | none ↦ [] ]

unfoldable pub vehicle_label : Vehicle → Text
vehicle_label v = elim v.id [ some i ↦ i.label | none ↦ [] ]

unfoldable pub resolve_vehicle_agency : SourceContext → Vehicle → Option Text
resolve_vehicle_agency src v = elim v.trip [
  | none ↦ none
  | some trip ↦ elim src.static [
    | none ↦ none
    | some p ↦ elim (agency_for_trip p trip.id.id) [
      | some gid ↦ some (map_agency src gid).0
      | none ↦
          if not (is_empty trip.id.route_id)
          then (elim (agency_for_route p trip.id.route_id) [
            | some gid ↦ some (map_agency src gid).0
            | none ↦ none
          ])
          else none
    ]
  ]
]

-- Is the vehicle in the list, by its id or by its label?
unfoldable pub vehicle_listed : Text → Text → Text → List Text → Bool
vehicle_listed raw_veh label agency [] = false
vehicle_listed raw_veh label agency (item ∷ rest) =
    if id_match item raw_veh agency || (not (is_empty label) && id_match item label agency)
    then true
    else vehicle_listed raw_veh label agency rest

unfoldable pub trip_listed : Text → Text → List Text → Bool
trip_listed raw_trip agency [] = false
trip_listed raw_trip agency (item ∷ rest) =
    if id_match item raw_trip agency then true else trip_listed raw_trip agency rest
