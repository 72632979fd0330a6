-- ===== src/Validator/Context.antt =====
-- validator/context.go: what the checks share, and the world that they ask: the OBA server, the
-- clock, and the order in which Go ranges over a map.
use server_validator.Prelude.{ℕ, Bool, true, false, List, Option, none, some}
use server_validator.Prelude.Int.{ℤ}
use server_validator.Prelude.Float.{Float}
use server_validator.Text.{Text}
use server_validator.GoMap.{GoMap, lookup, insert}
use server_validator.Fmt.{Fmt}
use server_validator.Config.{Config, DataSource}
use server_validator.Feeds.Gtfs.{Realtime, Time}
use server_validator.Feeds.Static.{ParsedStatic}
use server_validator.Validator.Redaction.{GoError}

-- What a call of the SDK returns: a pointer to the answer, which may be nil, and an error.
pub record Reply {ℓ} (A : Type ℓ) : Type ℓ where
  pub body : Option A
  pub error : GoError

-- The answers, with the fields that the checks read. A list of entities is the list of their ids.
pub record Agencies : Type 0 where
  pub list : List Text
  -- id and name
  pub references : List (Text × Text)

pub record Stop : Type 0 where
  pub id : Text
  pub lat : Float
  pub lon : Float

pub record NearbyStops : Type 0 where
  pub out_of_range : Bool
  pub list : List Text

pub record Arrival : Type 0 where
  pub trip_id : Text
  pub situation_ids : List Text

pub record Arrivals : Type 0 where
  pub arrivals : List Arrival
  pub situations : List Text

-- The world outside. Every call may change it, so that no two calls need to be answered alike.
pub record Env : Type 1 where
  pub World : Type 0
  pub fmt : Fmt
  -- The keys of a map in the order in which a loop meets them.
  pub range_keys : List Text → World → List Text × World
  -- `time.Now().UnixMilli()` and `time.Now()`
  pub now_milli : World → ℤ × World
  pub now : World → Time × World
  -- The calls of the SDK's client.
  pub current_time : World → Reply ℤ × World
  pub agencies_with_coverage : World → Reply Agencies × World
  pub routes_for_agency : Text → World → Reply (List Text) × World
  pub stops_for_route : Text → World → Reply (List Text) × World
  pub stop : Text → World → Reply Stop × World
  -- latitude, longitude
  pub stops_for_location : Float → Float → World → Reply NearbyStops × World
  pub arrivals_for_stop : Text → World → Reply Arrivals × World
  pub vehicles_for_agency : Text → World → Reply (List Text) × World
  pub trip_for_vehicle : Text → World → Reply Text × World
  -- latitude, longitude, and the span of both
  pub trips_for_location : Float → Float → Float → World → Reply (List Text) × World

-- `err != nil || body == nil` fails; otherwise the body.
unfoldable pub usable {ℓ} : {A : Type ℓ} → Reply A → Option A
usable r = elim r.error [ some e ↦ none | none ↦ r.body ]

-- One data source's feeds. The map of preparation errors holds no nil error.
pub record SourceContext : Type 0 where
  pub index : ℕ
  pub label : Text
  pub config : DataSource
  pub static : Option ParsedStatic
  pub vehicle_positions : Option Realtime
  pub trip_updates : Option Realtime
  pub service_alerts : Option Realtime
  pub prep_errors : GoMap Text

unfoldable pub prep_err : Text → Text → SourceContext → SourceContext
prep_err feed e s = record s { prep_errors = insert feed e s.prep_errors }

unfoldable pub map_agency : SourceContext → Text → Text × Bool
map_agency s gtfs_agency_id = elim (lookup gtfs_agency_id s.config.agency_mapping) [
  | some v ↦ (v, true)
  | none ↦ (gtfs_agency_id, false)
]

pub record ValidationContext : Type 0 where
  pub config : Config
  pub agencies : Option Agencies
  pub agencies_err : GoError
  pub sources : List SourceContext
