-- ===== src/Cmd/Run/Exit.antt =====
-- When a run exits with 0.
use server_validator.Prelude.{
  true, false, ◌≡◌, ◌⊎◌, inl, inr, ◌↔◌, ◌≢◌, refl, List, [], ◌∷◌, arith, none, some, Option-cases,
  Bool-cases,
}
use server_validator.Text.{Text}
use server_validator.Config.{Config, sink_config, load}
use server_validator.Sink.{configured}
use server_validator.Sink.Dsn.{ok, err, Result-cases}
use server_validator.Validator.Status.{Report, exit_code}
use server_validator.Report.Render.{render_json}
use server_validator.Report.Lines.{write_text}
use server_validator.Cmd.Overrides.{Overrides, apply_overrides}
use server_validator.Cmd.Run.Steps.{
  run_loaded-report, run_parsed-loaded, run_parsed-failed, run-parsed, run-loaded,
}
use server_validator.Cmd.Run.{
  printed, Machine, print, stdout, deliver_json, deliver_row, deliver_text, deliver, run_loaded,
  run_parsed, run,
}

module _ (m : Machine) where
  -- The report reaches stdout, and what the sink is to get can be rendered without a panic.
  abbrev pub Shown : Overrides → Config → Report → Type 0
  Shown o cfg rep =
      ((o.json_out ≡ true)
        × ((bytes : Text) × (render_json m.json m.now rep cfg ≡ some (ok bytes))
            × (m.stdout_error (printed bytes ∷ []) ≡ none)))
      ⊎ ((o.json_out ≡ false)
          × ((write_text (stdout m) rep []).1 ≡ none)
          × ((configured (sink_config cfg) ≡ false) ⊎ (render_json m.json m.now rep cfg ≢ none)))

  deliver_json-exit :
      (cfg : Config) (rep : Report)
      → ((deliver_json m cfg rep).1 ≡ some 0) ↔ (
          (bytes : Text) × (render_json m.json m.now rep cfg ≡ some (ok bytes))
          × (m.stdout_error (printed bytes ∷ []) ≡ none))
  unfolding deliver_json print exit_code
  deliver_json-exit cfg rep = elim (Option-cases (render_json m.json m.now rep cfg)) [
    | inl q ↦ ground arith
    | inr (err e, q) ↦ ground arith
    | inr (ok bytes, q) ↦ elim (Option-cases (m.stdout_error (printed bytes ∷ []))) [
      | inl r ↦ (λ h. (bytes, q, r), λ h. ground arith)
      | inr (e, r) ↦ (λ h. absurd (ground arith), λ (b, f, g). absurd (ground arith))
    ]
  ]

  deliver_text-exit :
      (cfg : Config) (rep : Report)
      → ((deliver_text m cfg rep).1 ≡ some 0) ↔ (
          ((write_text (stdout m) rep []).1 ≡ none)
          × ((configured (sink_config cfg) ≡ false) ⊎ (render_json m.json m.now rep cfg ≢ none)))
  unfolding deliver_text deliver_row exit_code
  deliver_text-exit cfg rep = elim (Option-cases (write_text (stdout m) rep []).1) [
    | inr (e, p) ↦ ground arith
    | inl p ↦ elim (Bool-cases (configured (sink_config cfg))) [
      | inr q ↦ ground arith
      | inl q ↦ elim (Option-cases (render_json m.json m.now rep cfg)) [
        | inl r ↦ ground arith
        | inr (err e, r) ↦ ground arith
        | inr (ok bytes, r) ↦ ground arith
      ]
    ]
  ]

  deliver-exit :
      (o : Overrides) (cfg : Config) (rep : Report)
      → ((deliver m o cfg rep).1 ≡ some 0) ↔ Shown o cfg rep
  unfolding deliver
  deliver-exit o cfg rep = ground (arith, deliver_json-exit cfg rep, deliver_text-exit cfg rep)

  abbrev Succeeds : List Text → Type 0
  Succeeds args =
      (o : Overrides) × (arg : Text) × (loaded : Config) × (rep : Report) × (m.parse_flags args
        ≡ ok (o, arg ∷ []))
      × (load m.fmt m.host arg ≡ ok loaded)
      × (m.validated (apply_overrides loaded o) ≡ some (ok rep))
      × Shown o (apply_overrides loaded o) rep

  run_loaded-exit :
      (o : Overrides) (cfg : Config)
      → ((run_loaded m o cfg).1 ≡ some 0)
        ↔ ((rep : Report) × (m.validated cfg ≡ some (ok rep)) × Shown o cfg rep)
  unfolding run_loaded
  run_loaded-exit o cfg = elim (Option-cases (m.validated cfg)) [
    | inl q ↦ (λ h. absurd (ground arith), λ (rep, e, f). absurd (ground arith))
    | inr (err e, q) ↦ (λ h. absurd (ground arith), λ (rep, f, g). absurd (ground arith))
    | inr (ok rep, q) ↦ (
      λ h. (rep, q, (deliver-exit o cfg rep).0 (cc (run_loaded-report m o cfg rep q, h))),
      λ (r, e, f). cc (run_loaded-report m o cfg r e, (deliver-exit o cfg r).1 f),
    )
  ]

  run_parsed-exit_two :
      (o : Overrides) (rest : List Text)
      → (run_parsed m o rest).1 ≡ some 0
      → (arg : Text) × (rest ≡ arg ∷ [])
  unfolding run_parsed
  run_parsed-exit_two o [] h = absurd (ground arith)
  run_parsed-exit_two o (arg ∷ []) h = (arg, refl)
  run_parsed-exit_two o (a ∷ b ∷ rest) h = absurd (ground arith)

  run-exit_sound :
      (name : Text) (args : List Text) → (run m (name ∷ args)).1 ≡ some 0 → Succeeds args
  unfolding run
  run-exit_sound name args h = elim (Result-cases (m.parse_flags args)) [
    | inl (text, p) ↦ absurd (ground arith)
    | inr ((o, rest), p) ↦
        let e = run-parsed m name args o rest p in
        let (arg, one) = run_parsed-exit_two o rest (cc (e, h)) in
        elim (Result-cases (load m.fmt m.host arg)) [
          | inl (why, q) ↦ absurd (cc (run_parsed-failed m o arg why q, e, h, one))
          | inr (cfg, q) ↦
              let f = run_parsed-loaded m o arg cfg q in
              let (rep, r, s) = (run_loaded-exit o (apply_overrides cfg o)).0 (cc (e, f, h, one)) in
              (o, arg, cfg, rep, cc (p, one), q, r, s)
        ]
  ]

  run-exit_complete :
      (name : Text) (args : List Text) → Succeeds args → (run m (name ∷ args)).1 ≡ some 0
  run-exit_complete name args (o, arg, cfg, rep, p, q, r, s) = cc (
    run-loaded m name args o arg cfg p q,
    (run_loaded-exit o (apply_overrides cfg o)).1 (rep, r, s),
  )

  -- A run exits with 0 exactly when the flags can be read and one argument follows, its
  -- configuration is loaded, the validation under the overrides gives a report, and this is shown.
  pub run-exit_iff :
      (name : Text) (args : List Text)
      → ((run m (name ∷ args)).1 ≡ some 0) ↔ (
          (o : Overrides) × (arg : Text) × (loaded : Config) × (rep : Report) × (m.parse_flags args
            ≡ ok (o, arg ∷ []))
          × (load m.fmt m.host arg ≡ ok loaded)
          × (m.validated (apply_overrides loaded o) ≡ some (ok rep))
          × Shown o (apply_overrides loaded o) rep)
  run-exit_iff name args = (run-exit_sound name args, run-exit_complete name args)
