-- ===== src/Report/Render.antt =====
-- report/report.go: the JSON of a report and of an error. The encoding is that of `encoding/json`;
-- `none` is the panic of the document's `add`.
use server_validator.Prelude.{[], ◌∷◌, ◌++◌, Option, none, some}
use server_validator.Text.{Text, lit}
use server_validator.Config.{Config}
use server_validator.Feeds.Gtfs.{Time}
use server_validator.Sink.Dsn.{Result, ok, err}
use server_validator.Validator.Status.{Report}
use server_validator.Report.Document.{Document, redact_string, build_document}

pub record ErrorDocument : Type 0 where
  pub schema_version : Text
  pub error : Text

-- `json.MarshalIndent` and the format of a time.
pub record Json : Type 0 where
  pub marshal : Document → Result Text
  pub marshal_error : ErrorDocument → Result Text
  pub rfc3339 : Time → Text

-- An `io.Writer` on a state: what a write of bytes makes of the state, and its error.
pub record Writer (S : Type 0) : Type 0 where
  pub write : Text → S → S × Option Text

-- The argument is what `json.MarshalIndent` returns.
unfoldable pub marshal_indented : Result Text → Result Text
marshal_indented (err e) = err e
marshal_indented (ok b) = ok (b ++ 10 ∷ [])

unfoldable pub error_document : Text → Text → ErrorDocument
error_document msg api_key = record {
  schema_version = lit "1.0";
  error = redact_string msg api_key;
}

module _ (json : Json) where
  -- The time is that of the call.
  unfoldable pub render_json : Time → Report → Config → Option (Result Text)
  render_json now rep cfg = elim (build_document json.rfc3339 rep cfg now) [
    | none ↦ none
    | some doc ↦ some (marshal_indented (json.marshal doc))
  ]

  unfoldable pub render_error_json : Text → Text → Result Text
  render_error_json msg api_key = marshal_indented (json.marshal_error (error_document msg api_key))

  module _ {S : Type 0} (w : Writer S) where
    -- The bytes, unless there was an error.
    unfoldable pub write_rendered : Result Text → S → S × Option Text
    write_rendered (err e) s = (s, some e)
    write_rendered (ok b) s = w.write b s

    unfoldable write_json : Time → Report → Config → S → Option (S × Option Text)
    write_json now rep cfg s = elim (render_json now rep cfg) [
      | none ↦ none
      | some rendered ↦ some (write_rendered rendered s)
    ]

    unfoldable pub write_error_json : Text → Text → S → S × Option Text
    write_error_json msg api_key s = write_rendered (render_error_json msg api_key) s
