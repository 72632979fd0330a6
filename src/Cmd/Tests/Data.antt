-- ===== src/Cmd/Tests/Data.antt =====
-- A machine that takes every flag for what it is, decodes one configuration with an active sink, and
-- finds one failure.
use server_validator.Prelude.{true, false, [], ◌∷◌, ◌++◌, none, some}
use server_validator.Prelude.Int.{pos}
use server_validator.Text.{Text, lit}
use server_validator.Fmt.{Fmt, decimal_ℤ}
use server_validator.Config.{DataSource, Config}
use server_validator.Sink.Dsn.{Result as Returned, Url, ok, err}
use server_validator.Validator.Status.{fail, Result, Report}
use server_validator.Report.Render.{Json}
use server_validator.Cmd.Overrides.{Overrides}
use server_validator.Cmd.Run.{Machine}

abbrev pub plain_fmt : Fmt
plain_fmt = record { quote = λ s. s; rounded_seconds = λ n. decimal_ℤ n }

abbrev pub no_source : DataSource
no_source = record {
  static_gtfs_feed_url = [];
  vehicle_positions_url = [];
  trip_updates_url = [];
  service_alerts_url = [];
  agency_mapping = [];
  realtime_headers = [];
}

abbrev pub settings : Config
settings = record {
  oba_server_url = b'h' ∷ [];
  api_key = b'k' ∷ [];
  data_sources = no_source ∷ [];
  sample_size = pos 3;
  rt_freshness_seconds = pos 300;
  location_span = 1;
  max_concurrency = pos 4;
  timeout_seconds = pos 120;
  cache_dir = [];
  db_url = b'd' ∷ [];
  db_user = b'u' ∷ [];
  db_pass = b'p' ∷ [];
  correlation_id = b'7' ∷ [];
  result_table = lit "oba_validator_results";
  no_cache = false;
  refresh = false;
}

abbrev pub plain_url : Url
plain_url = record { scheme = []; host = []; user = none; raw_query = []; others = [] }

abbrev pub json_flags : Overrides
json_flags = record {
  json_out = true;
  sample_size = pos 5;
  freshness = pos 0;
  timeout = pos 0;
  cache_dir = [];
  no_cache = false;
  refresh = false;
}

abbrev pub failure : Result
failure = record {
  check = b'c' ∷ [];
  source = [];
  status = fail;
  message = b'm' ∷ [];
  details = [];
}

abbrev pub one_failure : Report
one_failure = record { results = failure ∷ [] }

abbrev pub plain_json : Json
plain_json = record {
  marshal = λ doc. ok doc.summary.verdict;
  marshal_error = λ doc. ok doc.error;
  rfc3339 = λ t. [];
}

-- A machine that decodes as the argument says.
abbrev pub machine : (Text → Returned Config) → Machine
machine unmarshal = record {
  fmt = plain_fmt;
  host = record { getenv = λ name. []; read_file = λ path. ok path; unmarshal = unmarshal };
  url = record {
    parse = λ s. ok plain_url;
    to_string = λ u. [];
    parse_query = λ s. [];
    encode = λ q. [];
  };
  json = plain_json;
  parse_flags = λ args. ok (json_flags, args);
  flag_defaults = [];
  stdout_error = λ h. none;
  database = λ calls. none;
  now = pos 0;
  validated = λ cfg. some (ok one_failure);
}

abbrev pub working : Machine
working = machine (λ raw. ok settings)

-- A text with a key, and a machine that cannot decode it and says so.
abbrev pub bad_text : Text
bad_text = lit "{ \"apiKey\": \"s3\""

abbrev pub refusing : Machine
refusing = machine (λ raw. err (lit "invalid: " ++ raw))
