-- ===== src/Cmd/Run/Order.antt =====
-- A run stores at most one row, and nothing is printed on stdout behind it.
use server_validator.Prelude.{
  Bool, true, false, inl, inr, List, [], ◌∷◌, ◌++◌, Option, none, some, Option-cases, Bool-cases,
  All, All-append, append_assoc,
}
use server_validator.Text.{Text, lit}
use server_validator.Config.{Config, sink_config, load}
use server_validator.Sink.{configured}
use server_validator.Sink.Dsn.{Result as Returned, ok, err, Result-cases}
use server_validator.Sink.Write.{write}
use server_validator.Validator.Status.{Report}
use server_validator.Report.Render.{
  render_json, render_error_json, write_rendered, write_error_json,
}
use server_validator.Report.Lines.{write_text}
use server_validator.Report.Lines.Tally.{write_text_lem, write_all-keeps}
use server_validator.Cmd.Overrides.{Overrides, apply_overrides}
use server_validator.Cmd.Run.{
  Event, printed, complained, stored, Trace, Machine, complain, complain_of, print, stdout,
  store_row, store_if_configured, report_error, load_failed, run_failed, store_unrendered,
  deliver_json, deliver_row, deliver_text, deliver, run_loaded, run_parsed, run,
}

-- The event stores no row.
abbrev IsUnstored : Event → Type 0
IsUnstored (printed text) = Unit
IsUnstored (complained text) = Unit
IsUnstored (stored status data_ message calls) = ⊥

abbrev IsComplaint : Event → Type 0
IsComplaint (complained text) = Unit
IsComplaint (printed text) = ⊥
IsComplaint (stored status data_ message calls) = ⊥

-- Behind the first row there are only complaints.
abbrev pub Ordered : Trace → Type 0
Ordered [] = Unit
Ordered (printed text ∷ h) = Ordered h
Ordered (complained text ∷ h) = Ordered h
Ordered (stored status data_ message calls ∷ h) = All IsComplaint h

Ordered-append_unstored : (h k : Trace) → All IsUnstored h → Ordered k → Ordered (h ++ k)
Ordered-append_unstored [] k u o = o
Ordered-append_unstored (printed text ∷ h) k u o = Ordered-append_unstored h k u.1 o
Ordered-append_unstored (complained text ∷ h) k u o = Ordered-append_unstored h k u.1 o
Ordered-append_unstored (stored status data_ message calls ∷ h) k u o = absurd u.0

Unstored-Ordered : (h : Trace) → All IsUnstored h → Ordered h
Unstored-Ordered [] u = tt
Unstored-Ordered (printed text ∷ h) u = Unstored-Ordered h u.1
Unstored-Ordered (complained text ∷ h) u = Unstored-Ordered h u.1
Unstored-Ordered (stored status data_ message calls ∷ h) u = absurd u.0

complain-Unstored :
    (prefix x : Text) (h : Trace) → All IsUnstored h → All IsUnstored (complain prefix x h)
unfolding complain
complain-Unstored prefix x h u = All-append IsUnstored h _ u (tt, tt)

complain_of-Unstored :
    (prefix : Text) (e : Option Text) (h : Trace)
    → All IsUnstored h
    → All IsUnstored (complain_of prefix e h)
unfolding complain_of
complain_of-Unstored prefix none h u = u
complain_of-Unstored prefix (some e) h u = complain-Unstored prefix e h u

module _ (m : Machine) where
  print-Unstored : (text : Text) (h : Trace) → All IsUnstored h → All IsUnstored (print m text h).0
  unfolding print
  print-Unstored text h u = All-append IsUnstored h _ u (tt, tt)

  write_text-Unstored : (rep : Report) → All IsUnstored (write_text (stdout m) rep []).0
  write_text-Unstored rep =
      rw (write_text_lem (stdout m) rep [])
        (write_all-keeps (stdout m) (All IsUnstored) print-Unstored _ [] tt)

  write_rendered-Unstored :
      (r : Returned Text) → All IsUnstored (write_rendered m.json (stdout m) r []).0
  unfolding write_rendered
  write_rendered-Unstored (err e) = tt
  write_rendered-Unstored (ok b) = print-Unstored b [] tt

  report_error-Unstored :
      (json_out : Bool) (prefix msg : Text) → All IsUnstored (report_error m json_out prefix msg [])
  unfolding report_error write_error_json
  report_error-Unstored true prefix msg =
      complain_of-Unstored _ _ _ (write_rendered-Unstored (render_error_json m.json msg []))
  report_error-Unstored false prefix msg = complain-Unstored prefix msg [] tt

  store_row-Ordered :
      (cfg : Config) (status data_ message : Text) (h : Trace)
      → All IsUnstored h
      → Ordered (store_row m cfg status data_ message h)
  unfolding store_row complain_of complain
  store_row-Ordered cfg status data_ message h u =
      let w = write m.fmt m.url m.database (sink_config cfg) status data_ message in
      elim (Option-cases w.1) [
        | inl q ↦ rw (q, store_row) (Ordered-append_unstored h _ u tt)
        | inr (e, q) ↦ rw (q, store_row, append_assoc h) (Ordered-append_unstored h _ u (tt, tt))
      ]

  store_if_configured-Ordered :
      (cfg : Config) (status data_ message : Text) (h : Trace)
      → All IsUnstored h
      → Ordered (store_if_configured m cfg status data_ message h)
  unfolding store_if_configured
  store_if_configured-Ordered cfg status data_ message h u =
      elim (Bool-cases (configured (sink_config cfg))) [
        | inl q ↦ rw (q, store_if_configured) (store_row-Ordered cfg status data_ message h u)
        | inr q ↦ rw (q, store_if_configured) (Unstored-Ordered h u)
      ]

  deliver_json-Ordered : (cfg : Config) (rep : Report) → Ordered (deliver_json m cfg rep).0
  unfolding deliver_json store_unrendered
  deliver_json-Ordered cfg rep = elim (Option-cases (render_json m.json m.now rep cfg)) [
    | inl q ↦ rw (q, deliver_json) tt
    | inr (err e, q) ↦
        rw (q, deliver_json)
          (store_if_configured-Ordered cfg _ _ _ _
            (complain-Unstored (lit "output error:") e [] tt))
    | inr (ok bytes, q) ↦ elim (Option-cases (print m bytes []).1) [
      | inl r ↦
          rw (q, r, deliver_json)
            (store_if_configured-Ordered cfg _ _ _ _ (print-Unstored bytes [] tt))
      | inr (e, r) ↦
          rw (q, r, deliver_json)
            (Unstored-Ordered _ (complain-Unstored _ e _ (print-Unstored bytes [] tt)))
    ]
  ]

  deliver_row-Ordered :
      (cfg : Config) (rep : Report) (h : Trace)
      → All IsUnstored h
      → Ordered (deliver_row m cfg rep h).0
  unfolding deliver_row store_unrendered
  deliver_row-Ordered cfg rep h u = elim (Bool-cases (configured (sink_config cfg))) [
    | inr q ↦ rw (q, deliver_row) (Unstored-Ordered h u)
    | inl q ↦ elim (Option-cases (render_json m.json m.now rep cfg)) [
      | inl r ↦ rw (q, r, deliver_row) (Unstored-Ordered h u)
      | inr (err e, r) ↦
          rw (q, r, deliver_row)
            (store_if_configured-Ordered cfg _ _ _ _ (complain-Unstored _ e h u))
      | inr (ok bytes, r) ↦ rw (q, r, deliver_row) (store_row-Ordered cfg _ _ _ h u)
    ]
  ]

  deliver_text-Ordered : (cfg : Config) (rep : Report) → Ordered (deliver_text m cfg rep).0
  unfolding deliver_text
  deliver_text-Ordered cfg rep = elim (Option-cases (write_text (stdout m) rep []).1) [
    | inl q ↦ rw (q, deliver_text) (deliver_row-Ordered cfg rep _ (write_text-Unstored rep))
    | inr (e, q) ↦
        rw (q, deliver_text)
          (Unstored-Ordered _ (complain-Unstored _ e _ (write_text-Unstored rep)))
  ]

  deliver-Ordered : (o : Overrides) (cfg : Config) (rep : Report) → Ordered (deliver m o cfg rep).0
  unfolding deliver
  deliver-Ordered o cfg rep = elim (Bool-cases o.json_out) [
    | inl q ↦ rw (q, deliver) (deliver_json-Ordered cfg rep)
    | inr q ↦ rw (q, deliver) (deliver_text-Ordered cfg rep)
  ]

  run_loaded-Ordered : (o : Overrides) (cfg : Config) → Ordered (run_loaded m o cfg).0
  unfolding run_loaded run_failed
  run_loaded-Ordered o cfg = elim (Option-cases (m.validated cfg)) [
    | inl q ↦ rw (q, run_loaded) tt
    | inr (err e, q) ↦
        rw (q, run_loaded)
          (store_if_configured-Ordered cfg _ _ _ _ (report_error-Unstored o.json_out _ _))
    | inr (ok rep, q) ↦ rw (q, run_loaded) (deliver-Ordered o cfg rep)
  ]

  run_parsed-Ordered : (o : Overrides) (rest : List Text) → Ordered (run_parsed m o rest).0
  unfolding run_parsed load_failed
  run_parsed-Ordered o [] = tt
  run_parsed-Ordered o (a ∷ b ∷ rest) = tt
  run_parsed-Ordered o (arg ∷ []) = elim (Result-cases (load m.fmt m.host arg)) [
    | inl (e, q) ↦ rw (q, run_parsed) (Unstored-Ordered _ (report_error-Unstored o.json_out _ _))
    | inr (cfg, q) ↦ rw (q, run_parsed) (run_loaded-Ordered o (apply_overrides cfg o))
  ]

  -- A run calls the sink at most once, and behind that there are only complaints on stderr.
  pub run-Ordered : (args : List Text) → Ordered (run m args).0
  unfolding run
  run-Ordered [] = tt
  run-Ordered (name ∷ args) = elim (Result-cases (m.parse_flags args)) [
    | inl (text, q) ↦ rw (q, run) tt
    | inr ((o, rest), q) ↦ rw (q, run) (run_parsed-Ordered o rest)
  ]
