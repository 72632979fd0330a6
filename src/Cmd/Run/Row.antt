-- ===== src/Cmd/Run/Row.antt =====
-- The row of a run whose configuration was loaded.
use server_validator.Prelude.{
  ℕ, ◌≡◌, ◌⊎◌, inl, inr, refl, ◌∙◌, List, [], ◌∷◌, ◌++◌, Option, none, some, Option-cases,
  Bool-cases, All, append_assoc, true,
}
use server_validator.Text.{Text, lit}
use server_validator.Config.{Config, sink_config, load}
use server_validator.Sink.{configured}
use server_validator.Sink.Dsn.{Result as Returned, ok, err, Result-cases}
use server_validator.Sink.Write.{write}
use server_validator.Validator.Status.{Report, exit_code}
use server_validator.Validator.Status.Severity.{Known}
use server_validator.Report.Render.{marshal_indented, render_json}
use server_validator.Report.Document.Verdict.{build_document_lem}
use server_validator.Report.Lines.{write_text}
use server_validator.Report.Lines.Tally.{write_text_lem, write_all-none}
use server_validator.Cmd.Overrides.{Overrides, apply_overrides}
use server_validator.Cmd.Run.{
  printed, complained, stored, Trace, Machine, complain, complain_of, sink_write_failed, print,
  stdout, store_row, store_if_configured, run_failed, store_unrendered, deliver_json, deliver_row,
  deliver_text, deliver, run,
}
use server_validator.Cmd.Run.Steps.{run_loaded-report, run_loaded-failed, run-loaded}

-- The trace holds a call of the sink with this status and these data, and the calls of the database
-- that `Write` makes for it.
abbrev pub HasRow : Machine → Config → Text → Text → Trace → Type 0
HasRow m cfg status data_ h =
    (before : Trace) × (after : Trace) × (message : Text) × (h
      ≡ before
        ++ stored status data_ message
            (write m.fmt m.url m.database (sink_config cfg) status data_ message).0
          ∷ after)

module _ (m : Machine) where
  store_row-HasRow :
      (cfg : Config) (status data_ message : Text) (h : Trace)
      → HasRow m cfg status data_ (store_row m cfg status data_ message h)
  unfolding store_row complain_of complain
  store_row-HasRow cfg status data_ message h =
      let w = write m.fmt m.url m.database (sink_config cfg) status data_ message in
      elim (Option-cases w.1) [
        | inl q ↦ (h, [], message, rw (q, store_row) refl)
        | inr (e, q) ↦ (
          h,
          complained (sink_write_failed ++ lit " " ++ e ++ 10 ∷ []) ∷ [],
          message,
          rw (q, store_row) (append_assoc h _ _),
        )
      ]

  store_if_configured-HasRow :
      (cfg : Config) (status data_ message : Text) (h : Trace)
      → configured (sink_config cfg) ≡ true
      → HasRow m cfg status data_ (store_if_configured m cfg status data_ message h)
  unfolding store_if_configured
  store_if_configured-HasRow cfg status data_ message h q =
      rw (q, store_if_configured) (store_row-HasRow cfg status data_ message h)

  -- A report with named statuses can be rendered, or encoding it fails.
  render_json_known :
      (rep : Report) (cfg : Config)
      → All Known rep.results
      → (r : Returned Text) × (render_json m.json m.now rep cfg ≡ some r)
  unfolding render_json
  render_json_known rep cfg known =
      let (doc, e, a, b, c, d) = build_document_lem m.json.rfc3339 rep cfg m.now known in
      (marshal_indented (m.json.marshal doc), rw (e, render_json) refl)

  -- What is stored for a report.
  abbrev Recorded : Config → Report → Trace × Option ℕ → Type 0
  Recorded cfg rep r =
      ((data_ : Text) × (render_json m.json m.now rep cfg ≡ some (ok data_))
        × HasRow m cfg (lit "completed") data_ r.0
        × (r.1 ≡ some 0))
      ⊎ ((e : Text) × (render_json m.json m.now rep cfg ≡ some (err e))
          × HasRow m cfg (lit "error") [] r.0)

  module _ (cfg : Config) (on : configured (sink_config cfg) ≡ true)
      (open_stdout : (h : Trace) → m.stdout_error h ≡ none) where
    deliver_json-Recorded :
        (rep : Report) → All Known rep.results → Recorded cfg rep (deliver_json m cfg rep)
    unfolding deliver_json store_unrendered print exit_code
    deliver_json-Recorded rep known =
        let (rendered, q) = render_json_known rep cfg known in
        elim (Result-cases rendered) [
          | inl (e, r) ↦
              let q' : render_json m.json m.now rep cfg ≡ some (err e) = cc (q, r) in
              inr (e, q', rw (q', deliver_json) (store_if_configured-HasRow cfg _ _ _ _ on))
          | inr (data_, r) ↦
              let q' : render_json m.json m.now rep cfg ≡ some (ok data_) = cc (q, r) in
              inl (
                data_,
                q',
                rw (q', open_stdout (printed data_ ∷ []), deliver_json)
                    (store_if_configured-HasRow cfg _ _ _ _ on),
                rw (q', open_stdout (printed data_ ∷ []), deliver_json) refl,
              )
        ]

    deliver_row-Recorded :
        (rep : Report) (h : Trace)
        → All Known rep.results
        → Recorded cfg rep (deliver_row m cfg rep h)
    unfolding deliver_row store_unrendered exit_code
    deliver_row-Recorded rep h known =
        let (rendered, q) = render_json_known rep cfg known in
        elim (Result-cases rendered) [
          | inl (e, r) ↦
              let q' : render_json m.json m.now rep cfg ≡ some (err e) = cc (q, r) in
              inr (e, q', rw (on, q', deliver_row) (store_if_configured-HasRow cfg _ _ _ _ on))
          | inr (data_, r) ↦
              let q' : render_json m.json m.now rep cfg ≡ some (ok data_) = cc (q, r) in
              inl (
                data_,
                q',
                rw (on, q', deliver_row) (store_row-HasRow cfg _ _ _ h),
                rw (on, q', deliver_row) refl,
              )
        ]

    write_text-none : (rep : Report) → (write_text (stdout m) rep []).1 ≡ none
    unfolding print
    write_text-none rep =
        rw (write_text_lem (stdout m) rep [])
          (write_all-none (stdout m) (λ t h. open_stdout (h ++ printed t ∷ [])) _ [])

    deliver_text-row :
        (rep : Report)
        → deliver_text m cfg rep ≡ deliver_row m cfg rep (write_text (stdout m) rep []).0
    unfolding deliver_text
    deliver_text-row rep = rw (write_text-none rep, deliver_text) refl

    deliver-Recorded :
        (o : Overrides) (rep : Report)
        → All Known rep.results
        → Recorded cfg rep (deliver m o cfg rep)
    unfolding deliver
    deliver-Recorded o rep known = elim (Bool-cases o.json_out) [
      | inl q ↦ rw (q, deliver) (deliver_json-Recorded rep known)
      | inr q ↦
          rw (q, deliver, deliver_text-row rep)
            (deliver_row-Recorded rep (write_text (stdout m) rep []).0 known)
    ]

    run_failed-HasRow :
        (o : Overrides) (e : Text) → HasRow m cfg (lit "error") [] (run_failed m o cfg e)
    unfolding run_failed
    run_failed-HasRow o e = store_if_configured-HasRow cfg _ _ _ _ on

-- Where the configuration is loaded, the sink is active, the validation comes back, with a report
-- whose results have named statuses if it gives one, and no write to stdout fails, the run calls
-- the sink: with the status "completed" and the JSON of the report, and then it exits with 0; or
-- with the status "error" and no data, and then the validation or the rendering failed.
pub run-HasRow :
    (m : Machine) (name : Text) (args : List Text) (o : Overrides) (arg : Text) (loaded : Config)
    (answer : Returned Report)
    → m.parse_flags args ≡ ok (o, arg ∷ [])
    → load m.fmt m.host arg ≡ ok loaded
    → m.validated (apply_overrides loaded o) ≡ some answer
    → ((rep : Report) → answer ≡ ok rep → All Known rep.results)
    → configured (sink_config (apply_overrides loaded o)) ≡ true
    → ((h : Trace) → m.stdout_error h ≡ none)
    → ((rep : Report) × (data_ : Text) × (answer ≡ ok rep)
        × (render_json m.json m.now rep (apply_overrides loaded o) ≡ some (ok data_))
        × HasRow m (apply_overrides loaded o) (lit "completed") data_ (run m (name ∷ args)).0
        × ((run m (name ∷ args)).1 ≡ some 0))
      ⊎ (((rep : Report) × (e : Text) × (answer ≡ ok rep)
            × (render_json m.json m.now rep (apply_overrides loaded o) ≡ some (err e)))
          ⊎ ((e : Text) × (answer ≡ err e)))
        × HasRow m (apply_overrides loaded o) (lit "error") [] (run m (name ∷ args)).0
run-HasRow m name args o arg loaded (err e) p q r known on out =
    let cfg = apply_overrides loaded o in
    let same = run-loaded m name args o arg loaded p q ∙ run_loaded-failed m o cfg e r in
    inr (inr (e, refl), rw same (run_failed-HasRow m cfg on out o e))
run-HasRow m name args o arg loaded (ok rep) p q r known on out =
    let cfg = apply_overrides loaded o in
    let same = run-loaded m name args o arg loaded p q ∙ run_loaded-report m o cfg rep r in
    elim (deliver-Recorded m cfg on out o rep (known rep refl)) [
      | inl (data_, s, row, code) ↦ inl (rep, data_, refl, s, rw same row, rw same code)
      | inr (e, s, row) ↦ inr (inl (rep, e, refl, s), rw same row)
    ]
