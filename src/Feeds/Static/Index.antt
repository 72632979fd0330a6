-- ===== src/Feeds/Static/Index.antt =====
-- The indexes of trips and routes give the owner that the feed names last.
use mathlib.Core.Option.{or_else}
use server_validator.Prelude.{◌≡◌, refl, List, [], ◌∷◌, arith, Option, none, some, if◌then◌else◌}
use server_validator.Text.{Text, text_eq}
use server_validator.GoMap.{GoMap, lookup, lookup-insert}
use server_validator.Feeds.Gtfs.{Route, ScheduledTrip, Static}
use server_validator.Feeds.Static.{
  route_owner, trip_owner, record_owner, index_routes, index_trips, parsed_static_from,
  agency_for_trip, agency_for_route,
}

-- The owner that the last entry with the id and an owner names.
module _ {A : Type 0} (id : A → Text) (owner : A → Option Text) (k : Text) where
  abbrev pub last_owner : List A → Option Text
  last_owner [] = none
  last_owner (x ∷ xs) = elim (last_owner xs) [
    | some a ↦ some a
    | none ↦ if text_eq k (id x) then owner x else none
  ]

lookup-record_owner :
    (k j : Text) (o : Option Text) (m : GoMap Text)
    → lookup k (record_owner j o m)
      ≡ (if text_eq k j then (elim o [ some a ↦ some a | none ↦ lookup k m ]) else lookup k m)
unfolding record_owner
lookup-record_owner k j none m = ground arith
lookup-record_owner k j (some a) m = lookup-insert k j a m

lookup-index_trips :
    (k : Text) (ts : List ScheduledTrip) (m : GoMap Text)
    → lookup k (index_trips ts m) ≡ or_else (last_owner (λ t. t.id) trip_owner k ts) (lookup k m)
unfolding index_trips or_else
lookup-index_trips k [] m = refl
lookup-index_trips k (t ∷ ts) m = ground (
  arith,
  lookup-index_trips k ts (record_owner t.id (trip_owner t) m),
  lookup-record_owner k t.id (trip_owner t) m,
)

lookup-index_routes :
    (k : Text) (rs : List Route) (m : GoMap Text)
    → lookup k (index_routes rs m) ≡ or_else (last_owner (λ r. r.id) route_owner k rs) (lookup k m)
unfolding index_routes or_else
lookup-index_routes k [] m = refl
lookup-index_routes k (r ∷ rs) m = ground (
  arith,
  lookup-index_routes k rs (record_owner r.id (route_owner r) m),
  lookup-record_owner k r.id (route_owner r) m,
)

-- The agency of a trip is the one that the last scheduled trip of that id with a route and an
-- agency names, and that of a route the one that the last route of that id with an agency names;
-- where there is none, the id is unknown.
pub agency_for_lem :
    (s : Static) (k : Text)
    → (agency_for_trip (parsed_static_from s) k ≡ last_owner (λ t. t.id) trip_owner k s.trips)
      × (agency_for_route (parsed_static_from s) k ≡ last_owner (λ r. r.id) route_owner k s.routes)
unfolding agency_for_trip agency_for_route parsed_static_from lookup or_else
agency_for_lem s k = (
  ground (arith, lookup-index_trips k s.trips []),
  ground (arith, lookup-index_routes k s.routes []),
)
