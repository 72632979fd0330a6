-- ===== src/Feeds/Gtfs.antt =====
-- The values that the GTFS library gives back, with the fields that the program reads. Pointers
-- are options.
use server_validator.Prelude.{Bool, List, Option}
use server_validator.Prelude.Int.{ℤ}
use server_validator.Prelude.Float.{Float32}
use server_validator.Text.{Text}

pub record Agency : Type 0 where
  pub id : Text
  pub name : Text

pub record Route : Type 0 where
  pub id : Text
  pub agency : Option Agency

pub record ScheduledTrip : Type 0 where
  pub id : Text
  pub route : Option Route

-- A static feed; of its stops only their number counts.
pub record Static : Type 0 where
  pub agencies : List Agency
  pub routes : List Route
  pub stops : List Text
  pub trips : List ScheduledTrip

pub record TripId : Type 0 where
  pub id : Text
  pub route_id : Text

-- `arrival` and `departure` say whether the update has the event.
pub record StopTimeUpdate : Type 0 where
  pub stop_id : Option Text
  pub arrival : Bool
  pub departure : Bool

pub record Trip : Type 0 where
  pub id : TripId
  pub stop_time_updates : List StopTimeUpdate

pub record VehicleId : Type 0 where
  pub id : Text
  pub label : Text

pub record Position : Type 0 where
  pub latitude : Option Float32
  pub longitude : Option Float32

pub record Vehicle : Type 0 where
  pub id : Option VehicleId
  pub trip : Option Trip
  pub position : Option Position

-- The stop ids of the informed entities, in order.
pub record Alert : Type 0 where
  pub id : Text
  pub informed_stops : List (Option Text)

-- An instant: the nanoseconds since the zero `time.Time`.
abbrev pub Time : Type 0
Time = ℤ

pub record Realtime : Type 0 where
  pub created_at : Time
  pub vehicles : List Vehicle
  pub trips : List Trip
  pub alerts : List Alert
