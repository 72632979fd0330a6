-- ===== src/Cmd/Run/Whole.antt =====
-- The command and the validator together.
use server_validator.Prelude.{
  ◌≡◌, inl, inr, ◌∙◌, true, arith, Option-cases, List, [], ◌∷◌, none, some, All,
}
use server_validator.Prelude.Int.{pos, ◌<ℤ◌}
use mathlib.Core.Path.{subst}
use server_validator.Text.{Text, lit}
use server_validator.Config.{Config, sink_config, load}
use server_validator.Config.Loaded.{load-ok_iff}
use server_validator.Sink.{configured}
use server_validator.Sink.Dsn.{Result as Returned, ok, err}
use server_validator.Validator.Status.{Report}
use server_validator.Validator.Status.Severity.{Known}
use server_validator.Validator.Context.{Env}
use server_validator.Validator.Prepare.{State}
use server_validator.Validator.Run.{run_validator}
use server_validator.Validator.Run.Total.{run_validator_lem}
use server_validator.Report.Document.{Document, build_document}
use server_validator.Report.Render.{marshal_indented, render_json}
use server_validator.Cmd.Overrides.{Overrides, apply_overrides, apply_overrides-IsValid}
use server_validator.Cmd.Run.{Trace, Machine, run}
use server_validator.Cmd.Run.Row.{HasRow, run-HasRow}

-- The JSON can be encoded, so that rendering does not fail.
render_json-no_err :
    (m : Machine) (cfg : Config) (rep : Report) (e : Text)
    → ((doc : Document) → (b : Text) × (m.json.marshal doc ≡ ok b))
    → ¬ (render_json m.json m.now rep cfg ≡ some (err e))
unfolding render_json marshal_indented
render_json-no_err m cfg rep e encodes h =
    elim (Option-cases (build_document m.json.rfc3339 rep cfg m.now)) [
      | inl q ↦ absurd (ground arith)
      | inr (doc, q) ↦ let (b, r) = encodes doc in absurd (ground arith)
    ]

ok-Known :
    (rep r : Report)
    → ◌≡◌ {A = Returned Report} (ok rep) (ok r)
    → All Known rep.results
    → All Known r.results
ok-Known rep r e known =
    let same : rep ≡ r = ground arith in subst (λ x. All Known x.results) same known

-- Where the validation is that of the package validator/, with whatever the preparation left, the
-- configuration is loaded with a sample size that is not negative and an active sink, no write to
-- stdout fails and the JSON can be encoded, the run calls the sink with the status "completed" and
-- the JSON of a report whose results have named statuses, and exits with 0.
pub run-completes :
    (m : Machine) (env : Env) (s : State) (w : env.World) (name : Text) (args : List Text)
    (o : Overrides) (arg : Text) (loaded : Config)
    → m.parse_flags args ≡ ok (o, arg ∷ [])
    → load m.fmt m.host arg ≡ ok loaded
    → m.validated (apply_overrides loaded o) ≡ run_validator env s (apply_overrides loaded o) w
    → ¬ (loaded.sample_size <ℤ pos 0)
    → configured (sink_config (apply_overrides loaded o)) ≡ true
    → ((h : Trace) → m.stdout_error h ≡ none)
    → ((doc : Document) → (b : Text) × (m.json.marshal doc ≡ ok b))
    → (rep : Report) × (data_ : Text) × All Known rep.results
      × (render_json m.json m.now rep (apply_overrides loaded o) ≡ some (ok data_))
      × HasRow m (apply_overrides loaded o) (lit "completed") data_ (run m (name ∷ args)).0
      × ((run m (name ∷ args)).1 ≡ some 0)
run-completes m env s w name args o arg loaded p q whole size on out encodes =
    let cfg = apply_overrides loaded o in
    let (raw, d, a, b, c, valid) = (load-ok_iff m.fmt m.host arg loaded).0 q in
    let (rep, e, known) =
      run_validator_lem env s cfg w
        (λ negative. size ((apply_overrides-IsValid loaded o valid).1 negative)) in
    elim (run-HasRow m name args o arg loaded (ok rep) p q (whole ∙ e)
      (λ r f. ok-Known rep r f known) on out) [
        | inl (r, data_, f, shown, row, code) ↦ (r, data_, ok-Known rep r f known, shown, row, code)
        | inr (inl (r, t, f, bad), row) ↦ absurd (render_json-no_err m cfg r t encodes bad)
        | inr (inr (t, f), row) ↦ absurd cc
      ]
