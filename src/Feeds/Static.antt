-- ===== src/Feeds/Static.antt =====
-- feeds/gtfs.go: the parsed static feed with its indexes.
pub mod Index
pub mod Agencies
use server_validator.Prelude.{
  Bool, true, false, List, [], ◌∷◌, ◌++◌, Option, none, some, if◌then◌else◌,
}
use server_validator.Text.{Text}
use server_validator.GoMap.{GoMap, member, lookup, insert}
use server_validator.Sort.{sort_strings}
use server_validator.Feeds.Gtfs.{Agency, Route, ScheduledTrip, Static}

pub record ParsedStatic : Type 0 where
  pub static : Option Static
  pub agency_ids : List Text
  pub agency_names : GoMap Text
  pub trip_agency : GoMap Text
  pub route_agency : GoMap Text

-- The first loop over the agencies, for `AgencyNames`.
unfoldable pub index_names : List Agency → GoMap Text → GoMap Text
index_names [] names = names
index_names (a ∷ as') names = index_names as' (insert a.id a.name names)

-- The same loop, for `seen` and `AgencyIDs`: an id is appended when it is first seen.
unfoldable pub collect_ids : List Agency → List Text → List Text → List Text
collect_ids [] seen ids = ids
collect_ids (a ∷ as') seen ids =
    let new = collect_ids as' (a.id ∷ seen) (ids ++ a.id ∷ []) in
    let old = collect_ids as' seen ids in if member a.id seen then old else new

-- The agency of a route, where it is known.
unfoldable pub route_owner : Route → Option Text
route_owner r = elim r.agency [ some a ↦ some a.id | none ↦ none ]

unfoldable pub trip_owner : ScheduledTrip → Option Text
unfolding route_owner
trip_owner t = elim t.route [ some r ↦ route_owner r | none ↦ none ]

-- `m[k] = v` where there is a value.
unfoldable pub record_owner : Text → Option Text → GoMap Text → GoMap Text
record_owner k none m = m
record_owner k (some v) m = insert k v m

unfoldable pub index_routes : List Route → GoMap Text → GoMap Text
index_routes [] m = m
index_routes (r ∷ rs) m = index_routes rs (record_owner r.id (route_owner r) m)

unfoldable pub index_trips : List ScheduledTrip → GoMap Text → GoMap Text
index_trips [] m = m
index_trips (t ∷ ts) m = index_trips ts (record_owner t.id (trip_owner t) m)

unfoldable pub parsed_static_from : Static → ParsedStatic
parsed_static_from s = record {
  static = some s;
  agency_ids = sort_strings (collect_ids s.agencies [] []);
  agency_names = index_names s.agencies [];
  trip_agency = index_trips s.trips [];
  route_agency = index_routes s.routes [];
}

unfoldable pub agency_for_trip : ParsedStatic → Text → Option Text
agency_for_trip p trip_id = lookup trip_id p.trip_agency

unfoldable pub agency_for_route : ParsedStatic → Text → Option Text
agency_for_route p route_id = lookup route_id p.route_agency
