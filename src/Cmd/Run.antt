-- ===== src/Cmd/Run.antt =====
-- cmd/oba-validator/main.go: `run`, from the arguments to the exit code. What it does outside is a
-- list of events, the first one first. `none` in place of an exit code is a panic.
pub mod Steps
pub mod Order
pub mod Exit
pub mod Row
pub mod Hidden
pub mod Whole
pub mod Groups
use server_validator.Prelude.{ℕ, Bool, List, [], ◌∷◌, ◌++◌, Option, none, some, if◌then◌else◌}
use server_validator.Text.{Text, lit}
use server_validator.Fmt.{Fmt}
use server_validator.Config.{Config, Host, sink_config, load}
use server_validator.Feeds.Gtfs.{Time}
use server_validator.Sink.{configured}
use server_validator.Sink.Dsn.{Result, ok, err, UrlLib}
use server_validator.Sink.Write.{DbCall, write}
use server_validator.Validator.Status.{Report, exit_code}
use server_validator.Report.Render.{Json, Writer, render_json, write_error_json}
use server_validator.Report.Lines.{write_text}
use server_validator.Cmd.Secrets.{redaction_secrets, scrub}
use server_validator.Cmd.Overrides.{Overrides, apply_overrides}

pub data Event : Type 0 where
  -- bytes for stdout, and for stderr
  printed : Text → Event
  complained : Text → Event
  -- a call of the sink's `Write` with its status, data and error message, and the calls of the
  -- database that it made
  stored : Text → Text → Text → List DbCall → Event

abbrev pub Trace : Type 0
Trace = List Event

-- What the command asks of the libraries and the system. An answer may depend on all that was done.
pub record Machine : Type 0 where
  pub fmt : Fmt
  pub host : Host
  pub url : UrlLib
  pub json : Json
  -- The package `flag`: the flags and the arguments behind them, or what it prints about an error.
  pub parse_flags : List Text → Result (Overrides × List Text)
  pub flag_defaults : Text
  -- the error of a write to stdout that was just done
  pub stdout_error : Trace → Option Text
  pub database : List DbCall → Option Text
  -- the clock when the report is rendered, which happens at most once
  pub now : Time
  -- `validator.Run`, by its contract: `none` is a panic
  pub validated : Config → Option (Result Report)

-- `fmt.Fprintln(stderr, prefix, x)`
unfoldable pub complain : Text → Text → Trace → Trace
complain prefix x h = h ++ complained (prefix ++ lit " " ++ x ++ 10 ∷ []) ∷ []

-- The same, if the error is not nil.
unfoldable pub complain_of : Text → Option Text → Trace → Trace
complain_of prefix none h = h
complain_of prefix (some e) h = complain prefix e h

unfoldable pub sink_write_failed : Text
sink_write_failed = lit "result sink write failed:"

module _ (m : Machine) where
  -- A write to stdout.
  unfoldable pub print : Text → Trace → Trace × Option Text
  print text h = let h' = h ++ printed text ∷ [] in (h', m.stdout_error h')

  abbrev pub stdout : Writer Trace
  stdout = record { write = print }

  -- `sinkWrite`, and the complaint about its error.
  unfoldable pub store_row : Config → Text → Text → Text → Trace → Trace
  store_row cfg status data_ message h =
      let (calls, werr) = write m.fmt m.url m.database (sink_config cfg) status data_ message in
      complain_of sink_write_failed werr (h ++ stored status data_ message calls ∷ [])

  -- The same, if the sink is configured.
  unfoldable pub store_if_configured : Config → Text → Text → Text → Trace → Trace
  store_if_configured cfg status data_ message h =
      if configured (sink_config cfg) then store_row cfg status data_ message h else h

  -- An error before there is a report: a document on stdout, or a complaint.
  unfoldable pub report_error : Bool → Text → Text → Trace → Trace
  report_error json_out prefix msg h =
      let (h1, werr) = write_error_json m.json stdout msg [] h in
      if json_out then complain_of (lit "output error:") werr h1 else complain prefix msg h

  unfoldable pub load_failed : Overrides → Text → Text → Trace
  load_failed o arg e =
      let secrets = redaction_secrets m.host.getenv arg in
      report_error o.json_out (lit "config error:") (scrub e secrets) []

  unfoldable pub run_failed : Overrides → Config → Text → Trace
  run_failed o cfg e =
      let msg = scrub e (cfg.api_key ∷ cfg.db_pass ∷ []) in
      store_if_configured cfg (lit "error") [] msg
        (report_error o.json_out (lit "run error:") msg [])

  -- The row of a report that could not be rendered.
  unfoldable pub store_unrendered : Config → Text → Trace → Trace
  store_unrendered cfg e h =
      store_if_configured cfg (lit "error") [] (lit "internal: render JSON failed: " ++ e) h

  unfoldable pub deliver_json : Config → Report → Trace × Option ℕ
  deliver_json cfg rep = elim (render_json m.json m.now rep cfg) [
    | none ↦ ([], none)
    | some (err e) ↦ (store_unrendered cfg e (complain (lit "output error:") e []), some 2)
    | some (ok bytes) ↦
        let (h, werr) = print bytes [] in
        elim werr [
          | some e ↦ (complain (lit "output error:") e h, some 2)
          | none ↦ (store_if_configured cfg (lit "completed") bytes [] h, some (exit_code rep))
        ]
  ]

  -- Behind the text: the JSON for the sink.
  unfoldable pub deliver_row : Config → Report → Trace → Trace × Option ℕ
  deliver_row cfg rep h =
      if configured (sink_config cfg)
      then elim (render_json m.json m.now rep cfg) [
        | none ↦ (h, none)
        | some (err e) ↦ (
          store_unrendered cfg e (complain (lit "result sink: render JSON failed:") e h),
          some (exit_code rep),
        )
        | some (ok bytes) ↦ (store_row cfg (lit "completed") bytes [] h, some (exit_code rep))
      ]
      else (h, some (exit_code rep))

  unfoldable pub deliver_text : Config → Report → Trace × Option ℕ
  deliver_text cfg rep =
      let (h, werr) = write_text stdout rep [] in
      elim werr [
        | some e ↦ (complain (lit "output error:") e h, some 2)
        | none ↦ deliver_row cfg rep h
      ]

  unfoldable pub deliver : Overrides → Config → Report → Trace × Option ℕ
  deliver o cfg rep = if o.json_out then deliver_json cfg rep else deliver_text cfg rep

  -- Behind the configuration.
  unfoldable pub run_loaded : Overrides → Config → Trace × Option ℕ
  run_loaded o cfg = elim (m.validated cfg) [
    | none ↦ ([], none)
    | some (err e) ↦ (run_failed o cfg e, some 2)
    | some (ok rep) ↦ deliver o cfg rep
  ]

  -- Behind the flags.
  unfoldable pub run_parsed : Overrides → List Text → Trace × Option ℕ
  run_parsed o (arg ∷ []) = elim (load m.fmt m.host arg) [
    | err e ↦ (load_failed o arg e, some 2)
    | ok cfg ↦ run_loaded o (apply_overrides cfg o)
  ]
  run_parsed o _ = (
    complained (lit "usage: oba-validator [flags] <config.json | raw-json>\n\n")
        ∷ complained m.flag_defaults
        ∷ [],
    some 2,
  )

  -- The first argument is the name of the command.
  unfoldable pub run : List Text → Trace × Option ℕ
  run [] = ([], none)
  run (name ∷ args) = elim (m.parse_flags args) [
    | err text ↦ (complained text ∷ [], some 2)
    | ok (o, rest) ↦ run_parsed o rest
  ]
