-- ===== src/Report/Document/Verdict.antt =====
-- The summary of a document agrees with the results of the report.
use server_validator.Prelude.{
  ℕ, ◌+◌, ◌≡◌, ◌≢◌, ◌↔◌, refl, [], ◌∷◌, List, arith, some, All, length, if◌then◌else◌,
}
use server_validator.Text.{Text, lit}
use server_validator.Config.{Config}
use server_validator.Feeds.Gtfs.{Time}
use server_validator.Validator.Status.{Status, pass, warn, fail, skip, other, Result, Report}
use server_validator.Validator.Status.Severity.{Known, Has, worst_lem}
use server_validator.Report.Document.{
  Counts, Document, Group, sum_counts, no_counts, verdict_of, build_summary, build_meta,
  build_document,
}
use server_validator.Report.Document.Tallies.{
  same, occurrences, count_of, count_of-no_counts, groups_count,
}
use server_validator.Report.Document.Groups.{build_groups_lem}

sum_counts_lem :
    (q : Status) (gs : List Group) (total : Counts)
    → count_of q (sum_counts gs total) ≡ count_of q total + groups_count q gs
unfolding sum_counts
sum_counts_lem q [] total = omega arith
sum_counts_lem pass (g ∷ gs) total = omega (arith, sum_counts_lem pass gs)
sum_counts_lem warn (g ∷ gs) total = omega (arith, sum_counts_lem warn gs)
sum_counts_lem fail (g ∷ gs) total = omega (arith, sum_counts_lem fail gs)
sum_counts_lem skip (g ∷ gs) total = omega (arith, sum_counts_lem skip gs)
sum_counts_lem (other n) (g ∷ gs) total = omega (arith, sum_counts_lem (other n) gs)

-- A named status is one of the four.
same-once :
    (s : Status)
    → ((n : ℕ) → s ≢ other n)
    → (if same pass s then 1 else 0)
        + (if same warn s then 1 else 0)
        + (if same fail s then 1 else 0)
        + (if same skip s then 1 else 0)
      ≡ 1
same-once pass known = refl
same-once warn known = refl
same-once fail known = refl
same-once skip known = refl
same-once (other n) known = absurd (known n refl)

occurrences-total :
    (rs : List Result)
    → All Known rs
    → occurrences pass rs + occurrences warn rs + occurrences fail rs + occurrences skip rs
      ≡ length rs
occurrences-total [] known = refl
occurrences-total (r ∷ rs) known =
    omega (arith, occurrences-total rs known.1, same-once r.status known.0)

verdict_of_lem : (rep : Report) → (verdict_of rep ≡ lit "FAIL") ↔ Has fail rep.results
unfolding verdict_of lit
verdict_of_lem rep = ground (arith, (worst_lem rep).0)

-- A report whose results have named statuses has a document. Its total is the number of the
-- results, its count for each status is the number of the results with it, the groups have the
-- same counts together, the four counts make up the total, and the verdict is "FAIL" exactly when
-- some result fails.
pub build_document_lem :
    (rfc3339 : Time → Text) (rep : Report) (cfg : Config) (now : Time)
    → All Known rep.results
    → (doc : Document) × (build_document rfc3339 rep cfg now ≡ some doc)
      × (doc.summary.total ≡ length rep.results)
      × ((q : Status)
          → (count_of q doc.summary.counts ≡ occurrences q rep.results)
            × (groups_count q doc.groups ≡ occurrences q rep.results))
      × (doc.summary.counts.passes + doc.summary.counts.warns + doc.summary.counts.fails
            + doc.summary.counts.skips
          ≡ doc.summary.total)
      × ((doc.summary.verdict ≡ lit "FAIL") ↔ Has fail rep.results)
unfolding build_document build_summary
build_document_lem rfc3339 rep cfg now known =
    let (gs, e, counted) = build_groups_lem cfg.api_key cfg.data_sources rep.results known in
    let tally : (q : Status) → count_of q (sum_counts gs no_counts) ≡ occurrences q rep.results =
      λ q. omega (arith, sum_counts_lem q gs no_counts, count_of-no_counts q, counted q) in
    (
      record {
        schema_version = lit "1.0";
        meta = build_meta rfc3339 cfg now;
        summary = build_summary rep gs;
        groups = gs;
      },
      rw (e, build_document) refl,
      refl,
      λ q. (tally q, counted q),
      omega (
        arith,
        tally pass,
        tally warn,
        tally fail,
        tally skip,
        occurrences-total rep.results known,
      ),
      verdict_of_lem rep,
    )
