-- ===== src/Validator/Prepare/Tests.antt =====
-- The preparation of one source with two feeds, of which one cannot be fetched, under a limit of one
-- fetch at a time.
use server_validator.Prelude.{ℕ, ◌+◌, ◌≤◌, ◌≡◌, ◌↔◌, refl, false, [], ◌∷◌, ◌*◌, none}
use server_validator.Prelude.Int.{pos}
use server_validator.Config.{DataSource, Config}
use server_validator.Sink.Dsn.{ok, err}
use server_validator.Validator.Prepare.{
  static_gtfs, vehicle_positions, feed_url, State, Sources, capacity, first_phase, new_cell,
  new_cells, initial, set_phase, act, advance, advance_at, step, Run, stop, go, IsFinished,
  prepared,
}
use server_validator.Validator.Prepare.Moves.{held, sum}
use server_validator.Validator.Prepare.Tokens.{feed_count, IsLimit, Run-held}
use server_validator.Validator.Prepare.Ends.{Run-finishes}
use server_validator.Validator.Prepare.Filled.{AllPrepared, prepared-AllPrepared}

abbrev two_feeds : DataSource
two_feeds = record {
  static_gtfs_feed_url = b's' ∷ [];
  vehicle_positions_url = b'v' ∷ [];
  trip_updates_url = [];
  service_alerts_url = [];
  agency_mapping = [];
  realtime_headers = [];
}

abbrev pub settings : Config
settings = record {
  oba_server_url = b'h' ∷ [];
  api_key = b'k' ∷ [];
  data_sources = two_feeds ∷ [];
  sample_size = pos 3;
  rt_freshness_seconds = pos 300;
  location_span = 1;
  max_concurrency = pos 1;
  timeout_seconds = pos 120;
  cache_dir = [];
  db_url = [];
  db_user = [];
  db_pass = [];
  correlation_id = [];
  result_table = [];
  no_cache = false;
  refresh = false;
}

abbrev pub answers : Sources
answers = record {
  fetch = λ i f. elim f [ static_gtfs ↦ err (b'x' ∷ []) | _ ↦ ok [] ];
  parse_static_lib = λ b. err [];
  parse_realtime_lib =
      λ b. ok (record { created_at = pos 1; vehicles = []; trips = []; alerts = [] });
}

-- The vehicle positions are fetched first, and the place of the semaphore goes to the static feed
-- before the first goroutine is over.
abbrev Played : Type 0
Played = (s : State) × Run answers 10 (initial settings) s

pub played : Played
unfolding initial capacity new_cells new_cell feed_url first_phase step advance_at advance act
    set_phase
played = (
  _,
  go 9 0 vehicle_positions _ _ _ refl (
      go 8 0 vehicle_positions _ _ _ refl (
        go 7 0 vehicle_positions _ _ _ refl (
          go 6 0 vehicle_positions _ _ _ refl (
            go 5 0 static_gtfs _ _ _ refl (
              go 4 0 vehicle_positions _ _ _ refl (
                go 3 0 static_gtfs _ _ _ refl (
                  go 2 0 static_gtfs _ _ _ refl
                    (go 1 0 static_gtfs _ _ _ refl (go 0 0 static_gtfs _ _ _ refl (stop _)))))))))),
)

-- Ten acts are all.
pub played_over : IsFinished (played.0).cells
played_over = (Run-finishes answers settings 10 played.0 played.1).0.1 refl

Run-held_example :
    (limit : ℕ) × IsLimit (pos 1) limit
    × ((played.0).free + sum held (played.0).cells ≡ limit)
    × (sum held (played.0).cells ≤ limit)
Run-held_example = Run-held answers settings 10 played.0 played.1

Run-finishes_example :
    (IsFinished (played.0).cells ↔ (10 ≡ 5 * feed_count settings.data_sources))
    × ((m : ℕ) × (10 + m ≡ 5 * feed_count settings.data_sources)
        × ((t : State) × Run answers m played.0 t × IsFinished t.cells))
Run-finishes_example = Run-finishes answers settings 10 played.0 played.1

prepared-AllPrepared_example :
    AllPrepared answers 0 settings.data_sources (prepared settings none none played.0).sources
prepared-AllPrepared_example =
    prepared-AllPrepared answers settings none none 10 played.0 played.1 played_over
