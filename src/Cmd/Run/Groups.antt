-- ===== src/Cmd/Run/Groups.antt =====
-- The preparation, the checks and the document together.
use server_validator.Prelude.{ℕ, ◌≡◌, inl, inr, ◌∷◌, map, arith, some, Option-cases, All}
use mathlib.Core.Path.{subst}
use server_validator.Prelude.Int.{pos, ◌<ℤ◌}
use server_validator.Text.{Text, lit}
use server_validator.Config.{Config}
use server_validator.Feeds.Gtfs.{Time}
use server_validator.Sink.Dsn.{ok}
use server_validator.Validator.Status.{Report}
use server_validator.Validator.Context.{Env}
use server_validator.Validator.Prepare.{State, Sources, Run, initial, IsFinished}
use server_validator.Validator.Run.{run_validator}
use server_validator.Validator.Run.Total.{run_validator_lem}
use server_validator.Validator.Run.Placed.{run_validator-IsPlaced}
use server_validator.Report.Document.{Document, build_groups, build_document}
use server_validator.Report.Document.Verdict.{build_document_lem}
use server_validator.Report.Document.Leftover.{source_ids, IsPlaced, build_groups-ids}

-- The groups of a document are those of `build_groups`.
document-ids :
    (rfc3339 : Time → Text) (rep : Report) (cfg : Config) (now : Time) (doc : Document)
    → All (IsPlaced (source_ids 0 cfg.data_sources)) rep.results
    → build_document rfc3339 rep cfg now ≡ some doc
    → map (λ g. g.id) doc.groups ≡ lit "server" ∷ source_ids 0 cfg.data_sources
unfolding build_document
document-ids rfc3339 rep cfg now doc placed e =
    elim (Option-cases (build_groups cfg.api_key cfg.data_sources rep.results)) [
      | inl f ↦ absurd (ground arith)
      | inr (gs, f) ↦
          let same : gs ≡ doc.groups = ground arith in
          subst (λ x. map (λ g. g.id) x ≡ lit "server" ∷ source_ids 0 cfg.data_sources) same
            (build_groups-ids cfg.api_key cfg.data_sources rep.results gs placed f)
    ]

-- Behind a finished preparation, however its goroutines were scheduled, and at a sample size that is
-- not negative, `Run` returns a report, the report has a document, and this has one group for the
-- server and one for each configured source, in order, and no group of left-over results.
pub run_validator-groups :
    (rfc3339 : Time → Text) (now : Time) (env : Env) (sources : Sources) (n : ℕ) (s : State)
    (cfg : Config) (w : env.World)
    → Run sources n (initial cfg) s
    → IsFinished s.cells
    → ¬ (cfg.sample_size <ℤ pos 0)
    → (rep : Report) × (doc : Document) × (run_validator env s cfg w ≡ some (ok rep))
      × (build_document rfc3339 rep cfg now ≡ some doc)
      × (map (λ g. g.id) doc.groups ≡ lit "server" ∷ source_ids 0 cfg.data_sources)
run_validator-groups rfc3339 now env sources n s cfg w r over h =
    let (rep, e, known) = run_validator_lem env s cfg w h in
    let (other, f, placed) = run_validator-IsPlaced env sources n s cfg w r over h in
    let same : other ≡ rep = ground arith in
    let placed' =
      subst (λ x. All (IsPlaced (source_ids 0 cfg.data_sources)) x.results) same placed in
    let (doc, g, total, counts, sum, verdict) = build_document_lem rfc3339 rep cfg now known in
    (rep, doc, e, g, document-ids rfc3339 rep cfg now doc placed' g)
