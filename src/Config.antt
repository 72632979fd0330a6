-- ===== src/Config.antt =====
-- config/config.go: the configuration, its defaults and its validation. Reading a file, decoding
-- JSON and the environment are parameters.
pub mod Loaded
mod Tests
use server_validator.Prelude.{
  ◌==◌, Bool, true, false, List, [], ◌∷◌, ◌++◌, Option, none, some, if◌then◌else◌,
}
use server_validator.Prelude.Int.{ℤ, pos, negsuc}
use server_validator.Prelude.Float.{Float, is_zero, one_hundredth}
use server_validator.Text.{Text, lit, is_empty}
use server_validator.Text.Search.{starts_with}
use server_validator.Text.Space.{trim_space}
use server_validator.GoMap.{GoMap}
use server_validator.Fmt.{Fmt}
use server_validator.Sink.{SinkConfig, validate as validate_sink}
use server_validator.Sink.Dsn.{Result, ok, err}

pub record DataSource : Type 0 where
  pub static_gtfs_feed_url : Text
  pub vehicle_positions_url : Text
  pub trip_updates_url : Text
  pub service_alerts_url : Text
  pub agency_mapping : GoMap Text
  pub realtime_headers : GoMap Text

pub record Config : Type 0 where
  pub oba_server_url : Text
  pub api_key : Text
  pub data_sources : List DataSource
  pub sample_size : ℤ
  pub rt_freshness_seconds : ℤ
  pub location_span : Float
  pub max_concurrency : ℤ
  pub timeout_seconds : ℤ
  pub cache_dir : Text
  pub db_url : Text
  pub db_user : Text
  pub db_pass : Text
  pub correlation_id : Text
  pub result_table : Text
  pub no_cache : Bool
  pub refresh : Bool

-- What `Load` asks of the operating system and of `encoding/json`. A decoded configuration has
-- the zero value in every field that the JSON does not name.
pub record Host : Type 0 where
  pub getenv : Text → Text
  pub read_file : Text → Result Text
  pub unmarshal : Text → Result Config

-- `x == 0`
unfoldable pub is_zero_ℤ : ℤ → Bool
is_zero_ℤ (pos n) = n == 0
is_zero_ℤ (negsuc n) = false

unfoldable pub or_default : ℤ → ℤ → ℤ
unfolding is_zero_ℤ
or_default x d = if is_zero_ℤ x then d else x

unfoldable pub apply_defaults : Host → Config → Config
apply_defaults host c = record c {
  api_key = (if is_empty c.api_key then host.getenv (lit "ONEBUSAWAY_API_KEY") else c.api_key);
  sample_size = or_default c.sample_size (pos 3);
  rt_freshness_seconds = or_default c.rt_freshness_seconds (pos 300);
  location_span = (if is_zero c.location_span then one_hundredth else c.location_span);
  max_concurrency = or_default c.max_concurrency (pos 4);
  timeout_seconds = or_default c.timeout_seconds (pos 120);
}

unfoldable pub sink_config : Config → SinkConfig
sink_config c = record {
  db_url = c.db_url;
  db_user = c.db_user;
  db_pass = c.db_pass;
  correlation_id = c.correlation_id;
  result_table = c.result_table;
}

-- The error, or `none` for nil.
unfoldable pub validate : Fmt → Config → Option Text
validate fmt c =
    if is_empty c.oba_server_url
    then some (lit "obaServerURL is required")
    else if is_empty c.api_key
    then some (lit "apiKey is required (set in config or ONEBUSAWAY_API_KEY)")
    else elim c.data_sources [
      | [] ↦ some (lit "at least one dataSource is required")
      | _ ∷ _ ↦ validate_sink fmt (sink_config c)
    ]

-- The raw JSON of the argument: the argument itself, or the file that it names.
unfoldable pub read_raw : Host → Text → Result Text
read_raw host path_or_json =
    if starts_with (trim_space path_or_json) (lit "{")
    then ok path_or_json
    else elim (host.read_file path_or_json) [
      | err e ↦ err (lit "reading config file: " ++ e)
      | ok b ↦ ok b
    ]

-- What is done with the raw JSON.
unfoldable pub decode : Fmt → Host → Text → Result Config
decode fmt host raw = elim (host.unmarshal raw) [
  | err e ↦ err (lit "parsing config JSON: " ++ e)
  | ok decoded ↦
      let cfg = apply_defaults host decoded in
      elim (validate fmt cfg) [ some e ↦ err e | none ↦ ok cfg ]
]

unfoldable pub load : Fmt → Host → Text → Result Config
load fmt host path_or_json = elim (read_raw host path_or_json) [
  | err e ↦ err e
  | ok raw ↦ decode fmt host raw
]
