-- ===== src/Feeds/Tests.antt =====
-- The indexes of a feed with two agencies, of which one is listed twice.
use server_validator.Prelude.{◌≡◌, [], ◌∷◌, none, some}
use server_validator.Text.{text_eq}
use server_validator.Feeds.Gtfs.{Agency, Route, Static}
use server_validator.Feeds.Static.{
  route_owner, trip_owner, parsed_static_from, agency_for_trip, agency_for_route,
}
use server_validator.Feeds.Static.Index.{last_owner, agency_for_lem}

abbrev metro : Agency
metro = record { id = b'm' ∷ []; name = b'M' ∷ [] }

abbrev ferry : Agency
ferry = record { id = b'f' ∷ []; name = b'F' ∷ [] }

abbrev line : Route
line = record { id = b'1' ∷ []; agency = some metro }

abbrev crossing : Route
crossing = record { id = b'1' ∷ []; agency = some ferry }

abbrev two_agencies : Static
two_agencies = record {
  agencies = metro ∷ ferry ∷ metro ∷ [];
  routes = line ∷ crossing ∷ [];
  stops = (b's' ∷ []) ∷ [];
  trips =
      record { id = b't' ∷ []; route = some line } ∷ record { id = b'u' ∷ []; route = none } ∷ [];
}

agency_for_lem_example :
    (agency_for_trip (parsed_static_from two_agencies) (b'1' ∷ [])
      ≡ last_owner (λ t. t.id) trip_owner (b'1' ∷ []) two_agencies.trips)
    × (agency_for_route (parsed_static_from two_agencies) (b'1' ∷ []) ≡ some (b'f' ∷ []))
unfolding route_owner text_eq
agency_for_lem_example = agency_for_lem two_agencies (b'1' ∷ [])
