-- ===== src/Validator/Tests/Data.antt =====
-- A server that answers every call, a feed of two vehicles, and the context of their check.
use server_validator.Prelude.{true, ℕ, ◌+◌, false, [], ◌∷◌, none, some}
use server_validator.Prelude.Int.{pos}
use server_validator.Fmt.{decimal_ℤ}
use server_validator.Config.{DataSource, Config}
use server_validator.Feeds.Gtfs.{Static, Trip, Vehicle, Alert, Realtime}
use server_validator.Feeds.Static.{ParsedStatic}
use server_validator.Validator.Context.{Reply, Arrivals, Env, SourceContext, ValidationContext}

-- A call that the server answers, and counts.
abbrev answered : {A : Type 0} → A → ℕ → Reply A × ℕ
answered a w = (record { body = some a; error = none }, w + 1)

abbrev pub stop_answer : Arrivals
stop_answer = record {
  arrivals = record { trip_id = b'a' ∷ b'_' ∷ b't' ∷ []; situation_ids = [] } ∷ [];
  situations = (b'a' ∷ b'_' ∷ b'x' ∷ []) ∷ [];
}

-- The world is the number of calls so far.
abbrev pub small_env : Env
small_env = record {
  World = ℕ;
  fmt = record { quote = λ s. s; rounded_seconds = λ n. decimal_ℤ n };
  range_keys = λ ks w. (ks, w);
  now_milli = λ w. (pos 5000000, w);
  now = λ w. (pos 900000000000, w);
  current_time = λ w. answered (pos 4000000) w;
  agencies_with_coverage = λ w. answered (record { list = (b'a' ∷ []) ∷ []; references = [] }) w;
  routes_for_agency = λ a w. answered ((b'r' ∷ []) ∷ []) w;
  stops_for_route = λ r w. answered [] w;
  stop = λ s w. answered (record { id = s; lat = 0; lon = 0 }) w;
  stops_for_location = λ lat lon w. answered (record { out_of_range = false; list = [] }) w;
  arrivals_for_stop = λ s w. answered stop_answer w;
  vehicles_for_agency = λ a w. answered ((b'a' ∷ b'_' ∷ b'v' ∷ []) ∷ []) w;
  trip_for_vehicle = λ v w. answered (b'a' ∷ b'_' ∷ b't' ∷ []) w;
  trips_for_location = λ lat lon span w. answered [] w;
}

abbrev pub one_source : DataSource
one_source = record {
  static_gtfs_feed_url = [];
  vehicle_positions_url = [];
  trip_updates_url = [];
  service_alerts_url = [];
  agency_mapping = [];
  realtime_headers = [];
}

abbrev pub settings : Config
settings = record {
  oba_server_url = b'h' ∷ [];
  api_key = b'k' ∷ [];
  data_sources = one_source ∷ [];
  sample_size = pos 3;
  rt_freshness_seconds = pos 300;
  location_span = 1;
  max_concurrency = pos 4;
  timeout_seconds = pos 120;
  cache_dir = [];
  db_url = [];
  db_user = [];
  db_pass = [];
  correlation_id = [];
  result_table = [];
  no_cache = false;
  refresh = false;
}

abbrev static_feed : Static
static_feed = record {
  agencies = record { id = b'a' ∷ []; name = b'A' ∷ [] } ∷ [];
  routes = [];
  stops = (b's' ∷ []) ∷ [];
  trips = [];
}

abbrev parsed : ParsedStatic
parsed = record {
  static = some static_feed;
  agency_ids = (b'a' ∷ []) ∷ [];
  agency_names = [];
  trip_agency = (b't' ∷ [], b'a' ∷ []) ∷ [];
  route_agency = [];
}

abbrev pub one_trip : Trip
one_trip = record {
  id = record { id = b't' ∷ []; route_id = b'r' ∷ [] };
  stop_time_updates = record { stop_id = some (b's' ∷ []); arrival = true; departure = false } ∷ [];
}

abbrev pub one_vehicle : Vehicle
one_vehicle = record {
  id = some (record { id = b'v' ∷ []; label = [] });
  trip = some one_trip;
  position = none;
}

abbrev pub lost_vehicle : Vehicle
lost_vehicle = record {
  id = some (record { id = b'v' ∷ b'v' ∷ []; label = [] });
  trip = none;
  position = none;
}

abbrev pub one_alert : Alert
one_alert = record { id = b'x' ∷ []; informed_stops = none ∷ some (b's' ∷ []) ∷ [] }

abbrev pub realtime_feed : Realtime
realtime_feed = record {
  created_at = pos 800000000000;
  vehicles = one_vehicle ∷ lost_vehicle ∷ [];
  trips = one_trip ∷ [];
  alerts = one_alert ∷ [];
}

abbrev pub small_source : SourceContext
small_source = record {
  index = 0;
  label = b'd' ∷ [];
  config = one_source;
  static = some parsed;
  vehicle_positions = some realtime_feed;
  trip_updates = some realtime_feed;
  service_alerts = some realtime_feed;
  prep_errors = [];
}

abbrev pub small_context : ValidationContext
small_context = record {
  config = settings;
  agencies = some (record { list = (b'a' ∷ []) ∷ []; references = [] });
  agencies_err = none;
  sources = small_source ∷ [];
}
