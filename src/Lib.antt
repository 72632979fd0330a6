-- ===== src/Lib.antt =====
-- The OBA validator: a command that checks a OneBusAway server against the feeds that it should
-- serve. It loads a configuration, fetches the feeds of each data source, asks the server, and
-- reports one result for each thing that it tried; the report goes to stdout and, if asked for, to
-- a table of a database.
--
-- What models what (paths from the root of the repository):
--   Config         config/config.go: `Load`, its defaults and its validation
--   Sink           sink/sink.go: the settings and `Validate`
--   Sink.Dsn       sink/dsn.go: `normalizeDSN`
--   Sink.Write     sink/sink.go: `redactErr` and `Write`
--   Feeds          feeds/: `Static` is the index of gtfs.go, `Fetch` is fetch.go and cache.go for
--                  one URL, `Cache` is cache.go on the disk, and `Gtfs` has the types of the
--                  GTFS library
--   Validator      validator/: `Status` is status.go and result.go, `Redaction` and `Sampling` are
--                  util.go, `Ids` is idnorm.go, `Context` is context.go, and `Endpoints`,
--                  `AgencyUnion`, `GtfsSanity`, `Freshness`, `Vehicles`, `TripUpdates` and
--                  `ServiceAlerts` are the files check_*.go, `Prepare` is `prepare` of
--                  validator.go, and `Run` its `Run`
--   Report         report/: `Document` is document.go, and `Render` and `Lines` are report.go
--   Cmd            cmd/oba-validator/main.go: `Secrets` and `Overrides` are what they are named
--                  for, and `Run` is `run`
--   Prelude, Text, Sort, GoMap, Http, Fmt
--                  what the source uses of Go: `int64`, strings, sorting, maps, the headers of
--                  net/http, formatting
--
-- A Go string is the list of its bytes, and a Go map an association list with each key once. A
-- pointer is an option. An `error` is an option of its text. A panic is `none` in the result of the
-- function that can raise it.
--
-- The checks ask a world that may change at every call (`Validator.Context.Env`): the calls of
-- the OBA client, the clock, and the order in which Go ranges over a map. Nothing is assumed of the
-- answers. The database is a function from the calls so far to its answer to the last one, and
-- `Write` returns the calls that it made. `net/url`, `encoding/json`, the file system and the
-- environment are fields of `Sink.Dsn.UrlLib` and `Config.Host`.
--
-- The numbers of the configuration are integers; the clock skew and the ages of the feeds are kept
-- in the 64 bits of `int64`, with their wrap-around, and the difference of two times saturates. Go's
-- floats are bit patterns. Fuel stands in `Fmt.decimal`, which gives a digit's division to each unit
-- of the number, and in `Prelude.Float.widen`, where a subnormal fraction of 23 bits takes 24 steps.
--
-- The preparation is a relation: each goroutine has a phase, a step is one act of one of them, and a
-- run is any sequence of steps. What a fetch returns is a parameter, by source and feed, so that the
-- theorems hold for every way in which the fetches can end. The fetch of one URL is modelled in
-- `Feeds.Fetch`; the mutex of a URL is there the order of its fetches. The headers of a request, from
-- the configuration to the request, are `Prepare.Headers` and `Feeds.Fetch.Request`.
--
-- The command is a function from its arguments to the list of what it did outside, in order, and its
-- exit code: bytes on stdout and stderr, and the call of the sink with the calls of the database
-- that it made. Whether a write to stdout fails may depend on all that was done before. The regular
-- expressions for the secrets are a matcher, and the theorem about it says which texts they describe.
-- `Cmd.Run` names the validation as a field of its machine, and `Cmd.Run.Whole` fills it with that of
-- `Validator.Run`.
--
-- Not modelled: building the HTTP client and the client of the OBA server; a panic in a goroutine
-- of the preparation; what a stop of the whole system leaves of the files of the cache, which are
-- never synced; the parsing of flags and the encoding of JSON, which are those of Go's
-- library.
pub mod Prelude
pub mod Text
pub mod Sort
pub mod GoMap
pub mod Http
pub mod Fmt
pub mod Sink
pub mod Config
pub mod Feeds
pub mod Validator
pub mod Report
pub mod Cmd
