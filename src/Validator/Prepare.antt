-- ===== src/Validator/Prepare.antt =====
-- validator/validator.go: `prepare`. A goroutine fetches each feed that has a URL; a channel of
-- limited capacity is the semaphore. A state is what all of them have done so far, and a step is
-- one act of one of them. A goroutine that was not started yet is one that waits for the semaphore.
-- What a fetch returns, and the parsers of the GTFS library, are parameters.
pub mod Moves
pub mod Tokens
pub mod Ends
pub mod Views
pub mod Sound
pub mod Filled
pub mod Headers
pub mod Tests
use server_validator.Prelude.{
  ℕ, zero, suc, ◌≡◌, Bool, true, false, List, [], ◌∷◌, ◌++◌, Option, none, some, map,
}
use server_validator.Prelude.Int.{ℤ, pos, negsuc}
use server_validator.Text.{Text, lit}
use server_validator.Fmt.{decimal}
use server_validator.Config.{DataSource, Config}
use server_validator.Feeds.Gtfs.{Static, Realtime}
use server_validator.Feeds.Static.{ParsedStatic, parsed_static_from}
use server_validator.Sink.Dsn.{Result, ok, err}
use server_validator.Validator.Redaction.{GoError}
use server_validator.Validator.Context.{Agencies, SourceContext, prep_err, ValidationContext}

pub data Feed : Type 0 where
  static_gtfs : Feed
  vehicle_positions : Feed
  trip_updates : Feed
  service_alerts : Feed

unfoldable pub feed_name : Feed → Text
feed_name static_gtfs = lit "staticGtfs"
feed_name vehicle_positions = lit "vehiclePositions"
feed_name trip_updates = lit "tripUpdates"
feed_name service_alerts = lit "serviceAlerts"

unfoldable pub feed_url : Feed → DataSource → Text
feed_url static_gtfs d = d.static_gtfs_feed_url
feed_url vehicle_positions d = d.vehicle_positions_url
feed_url trip_updates d = d.trip_updates_url
feed_url service_alerts d = d.service_alerts_url

abbrev pub same_feed : Feed → Feed → Bool
same_feed static_gtfs g = elim g [ static_gtfs ↦ true | _ ↦ false ]
same_feed vehicle_positions g = elim g [ vehicle_positions ↦ true | _ ↦ false ]
same_feed trip_updates g = elim g [ trip_updates ↦ true | _ ↦ false ]
same_feed service_alerts g = elim g [ service_alerts ↦ true | _ ↦ false ]

-- How far a goroutine has come. `absent`: the feed has no URL and no goroutine.
pub data Phase : Type 0 where
  absent : Phase
  -- before `sem <- struct{}{}`
  waiting : Phase
  -- before and behind the fetch
  fetching : Phase
  fetched : Result Text → Phase
  -- the result is in the source's context
  recorded : Phase
  -- behind `<-sem`, and behind `wg.Done()`
  released : Phase
  done : Phase

-- A source with its goroutines.
pub record Cell : Type 0 where
  pub context : SourceContext
  pub phase : Feed → Phase

pub record State : Type 0 where
  -- the free places of the semaphore
  pub free : ℕ
  pub cells : List Cell

-- What the preparation asks of the outside.
pub record Sources : Type 0 where
  -- what the fetch of a feed returns, by the index of its source
  pub fetch : ℕ → Feed → Result Text
  pub parse_static_lib : Text → Result Static
  pub parse_realtime_lib : Text → Result Realtime

unfoldable pub capacity : ℤ → ℕ
capacity (pos zero) = 4
capacity (pos (suc n)) = suc n
capacity (negsuc n) = 4

unfoldable pub new_source : ℕ → DataSource → SourceContext
new_source i d = record {
  index = i;
  label = lit "dataSource[" ++ decimal i ++ lit "]";
  config = d;
  static = none;
  vehicle_positions = none;
  trip_updates = none;
  service_alerts = none;
  prep_errors = [];
}

-- Whether a goroutine is started.
unfoldable pub first_phase : Text → Phase
first_phase [] = absent
first_phase (c ∷ url) = waiting

unfoldable pub new_cell : ℕ → DataSource → Cell
new_cell i d = record { context = new_source i d; phase = λ f. first_phase (feed_url f d) }

-- The loop over the sources from the `i`-th on.
unfoldable pub new_cells : ℕ → List DataSource → List Cell
new_cells i [] = []
new_cells i (d ∷ ds) = new_cell i d ∷ new_cells (suc i) ds

unfoldable pub initial : Config → State
initial cfg = record { free = capacity cfg.max_concurrency; cells = new_cells 0 cfg.data_sources }

unfoldable pub set_phase : Feed → Phase → (Feed → Phase) → Feed → Phase
set_phase f p phase g = elim (same_feed f g) [ true ↦ p | false ↦ phase g ]

module _ (sources : Sources) where
  unfoldable pub parse_static : Text → Result ParsedStatic
  parse_static b = elim (sources.parse_static_lib b) [
    | err e ↦ err e
    | ok s ↦ ok (parsed_static_from s)
  ]

  unfoldable pub parse_realtime : Text → Result Realtime
  parse_realtime b = sources.parse_realtime_lib b

  -- What a goroutine does with what its fetch returned.
  unfoldable pub settle_static : Result Text → SourceContext → SourceContext
  settle_static (err e) s = prep_err (lit "staticGtfs") e s
  settle_static (ok b) s = elim (parse_static b) [
    | err e ↦ prep_err (lit "staticGtfs") e s
    | ok p ↦ record s { static = some p }
  ]

  -- The same for a realtime feed, by the name of the feed and the assignment to its field.
  unfoldable pub settle_realtime :
      Text
      → (Realtime → SourceContext → SourceContext)
      → Result Text
      → SourceContext
      → SourceContext
  settle_realtime name assign (err e) s = prep_err name e s
  settle_realtime name assign (ok b) s = elim (parse_realtime b) [
    | err e ↦ prep_err name e s
    | ok rt ↦ assign rt s
  ]

  unfoldable pub settle : Feed → Result Text → SourceContext → SourceContext
  settle static_gtfs = settle_static
  settle vehicle_positions =
      settle_realtime (lit "vehiclePositions") (λ rt s. record s { vehicle_positions = some rt })
  settle trip_updates =
      settle_realtime (lit "tripUpdates") (λ rt s. record s { trip_updates = some rt })
  settle service_alerts =
      settle_realtime (lit "serviceAlerts") (λ rt s. record s { service_alerts = some rt })

  -- The next act of the goroutine of a feed: the free places, its phase and the source's context
  -- behind it. `none`: it cannot act, since it is done, or there is none, or no place is free.
  unfoldable pub act : Feed → Phase → ℕ → SourceContext → Option (ℕ × Phase × SourceContext)
  act f absent free s = none
  act f waiting zero s = none
  act f waiting (suc n) s = some (n, fetching, s)
  act f fetching free s = some (free, fetched (sources.fetch s.index f), s)
  act f (fetched b) free s = some (free, recorded, settle f b s)
  act f recorded free s = some (suc free, released, s)
  act f released free s = some (free, done, s)
  act f done free s = none

  unfoldable pub advance : Feed → ℕ → Cell → Option (ℕ × Cell)
  advance f free c = elim (act f (c.phase f) free c.context) [
    | none ↦ none
    | some (free', p, s) ↦ some (free', record { context = s; phase = set_phase f p c.phase })
  ]

  -- The same for the source at a place of the list.
  unfoldable pub advance_at : ℕ → Feed → ℕ → List Cell → Option (ℕ × List Cell)
  advance_at k f free [] = none
  advance_at zero f free (c ∷ cs) = elim (advance f free c) [
    | none ↦ none
    | some (free', c') ↦ some (free', c' ∷ cs)
  ]
  advance_at (suc k) f free (c ∷ cs) = elim (advance_at k f free cs) [
    | none ↦ none
    | some (free', cs') ↦ some (free', c ∷ cs')
  ]

  unfoldable pub step : ℕ → Feed → State → Option State
  step k f s = elim (advance_at k f s.free s.cells) [
    | none ↦ none
    | some (free', cs) ↦ some (record { free = free'; cells = cs })
  ]

  -- A number of steps, of goroutines in any order.
  pub data Run : ℕ → State → State → Type 0 where
    stop : (s : State) → Run 0 s s
    go : (n k : ℕ) (f : Feed) (s t u : State) → step k f s ≡ some t → Run n t u → Run (suc n) s u

-- The goroutine has called `wg.Done`, or there is none.
abbrev pub IsOver : Phase → Type 0
IsOver absent = Unit
IsOver waiting = ⊥
IsOver fetching = ⊥
IsOver (fetched b) = ⊥
IsOver recorded = ⊥
IsOver released = ⊥
IsOver done = Unit

-- `wg.Wait()` returns.
abbrev pub IsFinished : List Cell → Type 0
IsFinished [] = Unit
IsFinished (c ∷ cs) = ((f : Feed) → IsOver (c.phase f)) × IsFinished cs

-- What `prepare` returns behind `wg.Wait()`. The agencies come from one call before.
unfoldable pub prepared : Config → Option Agencies → GoError → State → ValidationContext
prepared cfg agencies agencies_err s = record {
  config = record cfg { max_concurrency = pos (capacity cfg.max_concurrency) };
  agencies = agencies;
  agencies_err = agencies_err;
  sources = map (λ (c : Cell). c.context) s.cells;
}
