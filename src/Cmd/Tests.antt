-- ===== src/Cmd/Tests.antt =====
-- Runs of the command on a machine with one configuration.
mod Data
use server_validator.Prelude.{
  map, ◌≡◌, ◌⊎◌, ◌↔◌, inl, inr, refl, true, false, [], ◌∷◌, ◌++◌, arith, none, some, All,
}
use server_validator.Prelude.Int.{pos, ◌<ℤ◌}
use mathlib.Core.Path.{subst}
use server_validator.Text.{Text, lit, text_eq, is_empty}
use server_validator.Text.Search.{contains, Lacks, starts_with}
use server_validator.Text.Replace.{star}
use server_validator.Text.Space.{trim_space}
use server_validator.GoMap.{member}
use server_validator.Fmt.{Fmt, decimal_ℤ}
use server_validator.Config.{
  DataSource, Config, is_zero_ℤ, or_default, apply_defaults, sink_config, validate, read_raw,
  decode, load,
}
use server_validator.Config.Loaded.{IsValid}
use server_validator.Sink.{
  configured, is_blank, allowed_tables, siblings, first_blank, validate as validate_sink,
}
use server_validator.Sink.Dsn.{Result as Returned, Url, ok, err}
use server_validator.Validator.Status.{fail, Result, Report}
use server_validator.Validator.Status.Severity.{Known}
use server_validator.Report.Render.{Json, render_json}
use server_validator.Report.Lines.{write_text}
use server_validator.Report.Lines.Printed.{line_of, summary_of}
use server_validator.Report.Lines.Tally.{write_all, write_text_lem}
use server_validator.Cmd.Secrets.{skip_space, expect, prepend, string_body, field_at, sniff}
use server_validator.Cmd.Secrets.Sniff.{First, sniff_iff}
use server_validator.Cmd.Overrides.{Overrides, apply_overrides, apply_overrides-IsValid}
use server_validator.Cmd.Run.{Machine, report_error, stdout, run}
use server_validator.Cmd.Run.Order.{Ordered, run-Ordered}
use server_validator.Cmd.Run.Exit.{Shown, run-exit_iff}
use server_validator.Cmd.Run.Row.{HasRow, run-HasRow}
use server_validator.Validator.Prepare.{initial}
use server_validator.Validator.Run.{run_validator}
use server_validator.Validator.Prepare.Tests.{
  settings as two_feed_settings, answers, played, played_over,
}
use server_validator.Report.Document.{Document, build_document}
use server_validator.Report.Document.Leftover.{source_ids}
use server_validator.Cmd.Run.Groups.{run_validator-groups}
use server_validator.Validator.Tests.Data.{small_env}
use server_validator.Cmd.Run.Whole.{run-completes}
use server_validator.Cmd.Run.Hidden.{run-hidden}
use server_validator.Cmd.Tests.Data.{
  plain_fmt, no_source, settings, plain_url, json_flags, failure, one_failure, plain_json, machine,
  working, bad_text, refusing,
}

settings-loaded : load plain_fmt working.host (b'c' ∷ []) ≡ ok settings
unfolding load read_raw decode apply_defaults or_default is_zero_ℤ validate sink_config is_empty
    validate_sink configured is_blank trim_space siblings first_blank member allowed_tables
    starts_with lit text_eq
settings-loaded = refl

settings-configured : configured (sink_config (apply_overrides settings json_flags)) ≡ true
unfolding configured sink_config is_blank trim_space is_empty apply_overrides
settings-configured = refl

bad_text-refused :
    load plain_fmt refusing.host bad_text
    ≡ err (lit "parsing config JSON: " ++ (lit "invalid: " ++ bad_text))
unfolding load read_raw decode starts_with trim_space lit
bad_text-refused = refl

one_failure-Known :
    (rep : Report) → ◌≡◌ {A = Returned Report} (ok one_failure) (ok rep) → All Known rep.results
one_failure-Known rep e =
    let same : one_failure ≡ rep = ground arith in
    subst (λ r. All Known r.results) same (λ n f. cc, tt)

plain_key : Lacks star (b's' ∷ b'3' ∷ [])
plain_key = (omega arith, (omega arith, tt))

bad_text-sniffed : sniff (lit "apiKey") bad_text ≡ some (b's' ∷ b'3' ∷ [])
unfolding sniff field_at skip_space expect string_body prepend lit
bad_text-sniffed = refl

sniff_iff_example :
    (sniff (lit "apiKey") bad_text ≡ some (b's' ∷ b'3' ∷ []))
    ↔ First (lit "apiKey") (b's' ∷ b'3' ∷ []) bad_text
sniff_iff_example = sniff_iff (lit "apiKey") bad_text (b's' ∷ b'3' ∷ [])

settings-IsValid : IsValid settings
unfolding configured sink_config is_blank trim_space is_empty lit
settings-IsValid = record {
  server_set = λ e. cc;
  key_set = λ e. cc;
  has_source = λ e. cc;
  sample_set = λ e. cc;
  freshness_set = λ e. cc;
  span_set = refl;
  concurrency_set = λ e. cc;
  timeout_set = λ e. cc;
  sink_complete = inr (record {
    url_set = refl;
    user_set = refl;
    pass_set = refl;
    id_set = refl;
    table_set = refl;
    own_table = refl;
  });
}

apply_overrides-IsValid_example :
    IsValid (apply_overrides settings json_flags)
    × ((apply_overrides settings json_flags).sample_size <ℤ pos 0 → settings.sample_size <ℤ pos 0)
apply_overrides-IsValid_example = apply_overrides-IsValid settings json_flags settings-IsValid

write_text_lem_example :
    write_text (stdout working) one_failure []
    ≡ write_all (stdout working) (line_of failure ∷ summary_of (failure ∷ []) ∷ []) []
write_text_lem_example = write_text_lem (stdout working) one_failure []

run-Ordered_example : Ordered (run working ([] ∷ (b'c' ∷ []) ∷ [])).0
run-Ordered_example = run-Ordered working ([] ∷ (b'c' ∷ []) ∷ [])

run-exit_iff_example : ((run working ([] ∷ (b'c' ∷ []) ∷ [])).1 ≡ some 0) ↔ (
    (o : Overrides) × (arg : Text) × (loaded : Config) × (rep : Report) × (working.parse_flags
        ((b'c' ∷ []) ∷ [])
      ≡ ok (o, arg ∷ []))
    × (load plain_fmt working.host arg ≡ ok loaded)
    × (working.validated (apply_overrides loaded o) ≡ some (ok rep))
    × Shown working o (apply_overrides loaded o) rep)
run-exit_iff_example = run-exit_iff working [] ((b'c' ∷ []) ∷ [])

run-HasRow_example :
    let cfg = apply_overrides settings json_flags in
    ((rep : Report) × (data_ : Text) × (◌≡◌ {A = Returned Report} (ok one_failure) (ok rep))
      × (render_json plain_json (pos 0) rep cfg ≡ some (ok data_))
      × HasRow working cfg (lit "completed") data_ (run working ([] ∷ (b'c' ∷ []) ∷ [])).0
      × ((run working ([] ∷ (b'c' ∷ []) ∷ [])).1 ≡ some 0))
    ⊎ (((rep : Report) × (e : Text) × (◌≡◌ {A = Returned Report} (ok one_failure) (ok rep))
          × (render_json plain_json (pos 0) rep cfg ≡ some (err e)))
        ⊎ ((e : Text) × (◌≡◌ {A = Returned Report} (ok one_failure) (err e))))
      × HasRow working cfg (lit "error") [] (run working ([] ∷ (b'c' ∷ []) ∷ [])).0
run-HasRow_example =
    run-HasRow working [] ((b'c' ∷ []) ∷ []) json_flags (b'c' ∷ []) settings (ok one_failure) refl
      settings-loaded refl one_failure-Known settings-configured (λ h. refl)

run-hidden_example :
    (msg : Text) × (run refusing ([] ∷ bad_text ∷ [])
      ≡ (report_error refusing true (lit "config error:") msg [], some 2))
    × (contains msg (b's' ∷ b'3' ∷ []) ≡ false)
run-hidden_example =
    run-hidden refusing [] (bad_text ∷ []) json_flags bad_text
      (lit "parsing config JSON: " ++ (lit "invalid: " ++ bad_text)) (lit "apiKey")
      (b's' ∷ b'3' ∷ []) refl bad_text-refused (inl refl)
      ((sniff_iff (lit "apiKey") bad_text (b's' ∷ b'3' ∷ [])).0 bad_text-sniffed) (λ e. cc)
      plain_key

-- The validation is that of the validator, on a server that answers every call.
abbrev whole : Machine
whole = record working { validated = λ cfg. run_validator small_env (initial cfg) cfg 0 }

run-completes_example :
    let cfg = apply_overrides settings json_flags in
    let ran = run whole ([] ∷ (b'c' ∷ []) ∷ []) in
    (rep : Report) × (data_ : Text) × All Known rep.results
    × (render_json plain_json (pos 0) rep cfg ≡ some (ok data_))
    × HasRow whole cfg (lit "completed") data_ ran.0
    × (ran.1 ≡ some 0)
run-completes_example =
    run-completes whole small_env (initial (apply_overrides settings json_flags)) 0 []
      ((b'c' ∷ []) ∷ []) json_flags (b'c' ∷ []) settings refl settings-loaded refl (omega arith)
      settings-configured (λ h. refl) (λ doc. (doc.summary.verdict, refl))

run_validator-groups_example :
    (rep : Report) × (doc : Document) × (run_validator small_env played.0 two_feed_settings 0
      ≡ some (ok rep))
    × (build_document (λ t. []) rep two_feed_settings (pos 0) ≡ some doc)
    × (map (λ g. g.id) doc.groups ≡ lit "server" ∷ source_ids 0 two_feed_settings.data_sources)
run_validator-groups_example =
    run_validator-groups (λ t. []) (pos 0) small_env answers 10 played.0 two_feed_settings 0
      played.1 played_over (omega arith)
