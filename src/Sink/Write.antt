-- ===== src/Sink/Write.antt =====
-- sink/sink.go: `redactErr` and `Write`. The database is a function from the calls that it was
-- sent, the last one included, to its answer to the last.
pub mod Redacted
mod Leak
pub mod Calls
use server_validator.Prelude.{
  ◌≡◌, ◌≢◌, Bool, true, false, not, ◌&&◌, List, [], ◌∷◌, ◌++◌, Option, none, some, if◌then◌else◌,
}
use server_validator.Text.{Text, lit, text_eq, is_empty}
use server_validator.Text.Replace.{replace_all, stars}
use server_validator.Text.Escape.{query_escape}
use server_validator.GoMap.{member}
use server_validator.Fmt.{Fmt}
use server_validator.Sink.{SinkConfig, configured, allowed_tables, validate}
use server_validator.Sink.Dsn.{Result, ok, err, UrlLib, normalize_dsn}

-- The calls of the driver. `close` is the deferred `conn.Close`, whose error is dropped.
pub data DbCall : Type 0 where
  connect : Text → DbCall
  exec : Text → List Text → DbCall
  close : DbCall

unfoldable pub create_table_sql : Text → Text
create_table_sql table =
    lit "CREATE TABLE IF NOT EXISTS "
    ++ table
    ++ lit
        " (\n  correlation_id TEXT PRIMARY KEY,\n  status         TEXT NOT NULL,\n  result_data    TEXT,\n  error_message  TEXT\n)"

unfoldable pub insert_row_sql : Text → Text
insert_row_sql table =
    lit "INSERT INTO "
    ++ table
    ++ lit
        " (correlation_id, status, result_data, error_message)\nVALUES ($1, $2, $3, $4)\nON CONFLICT (correlation_id) DO NOTHING"

unfoldable pub statement_timeout_sql : Text
statement_timeout_sql = lit "SET statement_timeout = '5s'"

-- `redactErr` of an error that is not nil, on its text. The first argument is the password. The form
-- that it scrubs is that of a query, not that of the connection string.
unfoldable pub redact_err : Text → Text → Text
redact_err [] s = s
redact_err (p ∷ ps) s =
    let once = replace_all p ps stars s in
    elim (query_escape (p ∷ ps)) [
      | [] ↦ once
      | e ∷ es ↦ if not (text_eq (e ∷ es) (p ∷ ps)) then replace_all e es stars once else once
    ]

module _ (fmt : Fmt) (lib : UrlLib) (answer : List DbCall → Option Text) where
  -- Sends a call after those in `sent`: goes on if it succeeds, and otherwise returns the error.
  unfoldable pub send :
      SinkConfig
      → DbCall
      → Text
      → (List DbCall → List DbCall × Option Text)
      → List DbCall
      → List DbCall × Option Text
  send c call what next sent =
      let sent' = sent ++ call ∷ [] in
      elim (answer sent') [
        | some e ↦ (sent', some (redact_err c.db_pass (what ++ e)))
        | none ↦ next sent'
      ]

  -- `defer conn.Close(ctx)`
  unfoldable pub and_close : List DbCall × Option Text → List DbCall × Option Text
  and_close (sent, e) = (sent ++ close ∷ [], e)

  -- The statements, once the connection is open.
  unfoldable pub statements : SinkConfig → List Text → List DbCall → List DbCall × Option Text
  statements c row = send c (exec statement_timeout_sql []) (lit "set statement_timeout: ") (
      send c (exec (create_table_sql c.result_table) []) (lit "create table: ") (
        send c (exec (insert_row_sql c.result_table) row) (lit "insert row: ")
          (λ sent. (sent, none))))

  unfoldable pub write : SinkConfig → Text → Text → Text → List DbCall × Option Text
  write c status result_data error_message =
      if not (configured c)
      then ([], some (lit "sink: Write called on unconfigured Config (programming error)"))
      else if not (text_eq status (lit "completed")) && not (text_eq status (lit "error"))
      then (
        [],
        some (
            lit "sink: unsupported status "
            ++ fmt.quote status
            ++ lit " (allowed: \"completed\", \"error\")"),
      )
      else elim (validate fmt c) [
        | some e ↦ ([], some e)
        | none ↦
            if not (member c.result_table allowed_tables)
            then (
              [],
              some (lit "result sink: unsupported result_table " ++ fmt.quote c.result_table),
            )
            else elim (normalize_dsn lib c.db_url c.db_user c.db_pass) [
              | err e ↦ ([], some (redact_err c.db_pass e))
              | ok dsn ↦
                  send c (connect dsn) (lit "connect: ")
                    (λ sent. and_close (
                      statements c (c.correlation_id ∷ status ∷ result_data ∷ error_message ∷ [])
                        sent))
                    []
            ]
      ]
