-- ===== src/Config/Tests.antt =====
-- A run of config/ on a host that decodes one configuration.
use server_validator.Prelude.{◌≡◌, inl, refl, false, [], ◌∷◌}
use server_validator.Prelude.Int.{pos, negsuc}
use server_validator.Text.{lit, is_empty}
use server_validator.Text.Search.{starts_with}
use server_validator.Text.Space.{trim_space}
use server_validator.Fmt.{Fmt, decimal_ℤ}
use server_validator.Sink.{configured, is_blank}
use server_validator.Sink.Dsn.{ok}
use server_validator.Config.{
  DataSource, Config, Host, is_zero_ℤ, or_default, apply_defaults, sink_config, read_raw, load,
}
use server_validator.Config.Loaded.{IsValid, load-ok_iff}

abbrev plain_fmt : Fmt
plain_fmt = record { quote = λ s. s; rounded_seconds = λ n. decimal_ℤ n }

abbrev one_source : DataSource
one_source = record {
  static_gtfs_feed_url = [];
  vehicle_positions_url = [];
  trip_updates_url = [];
  service_alerts_url = [];
  agency_mapping = [];
  realtime_headers = [];
}

-- What the JSON names: the server, a source and a negative sample size.
abbrev decoded : Config
decoded = record {
  oba_server_url = b'h' ∷ [];
  api_key = [];
  data_sources = one_source ∷ [];
  sample_size = negsuc 1;
  rt_freshness_seconds = pos 0;
  location_span = 0;
  max_concurrency = pos 0;
  timeout_seconds = pos 7;
  cache_dir = [];
  db_url = [];
  db_user = [];
  db_pass = [];
  correlation_id = [];
  result_table = [];
  no_cache = false;
  refresh = false;
}

abbrev plain_host : Host
plain_host = record {
  getenv = λ name. b'k' ∷ [];
  read_file = λ path. ok (b'{' ∷ b'}' ∷ []);
  unmarshal = λ raw. ok decoded;
}

decoded-IsValid : IsValid (apply_defaults plain_host decoded)
unfolding apply_defaults or_default is_zero_ℤ is_empty configured sink_config is_blank trim_space
decoded-IsValid = record {
  server_set = λ e. cc;
  key_set = λ e. cc;
  has_source = λ e. cc;
  sample_set = λ e. cc;
  freshness_set = λ e. cc;
  span_set = refl;
  concurrency_set = λ e. cc;
  timeout_set = λ e. cc;
  sink_complete = inl refl;
}

file_read : read_raw plain_host (b'c' ∷ []) ≡ ok (b'{' ∷ b'}' ∷ [])
unfolding read_raw starts_with trim_space lit
file_read = refl

-- A file is read, and a negative sample size stays as it is.
load-ok_iff_example : load plain_fmt plain_host (b'c' ∷ []) ≡ ok (apply_defaults plain_host decoded)
load-ok_iff_example =
    (load-ok_iff plain_fmt plain_host (b'c' ∷ []) (apply_defaults plain_host decoded)).1
      (b'{' ∷ b'}' ∷ [], decoded, file_read, refl, refl, decoded-IsValid)
