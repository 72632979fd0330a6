-- ===== src/Report/Tests.antt =====
-- The document of a run with one failure of the server and one result of a source that is not
-- configured.
use server_validator.Prelude.{◌+◌, ◌≡◌, ◌↔◌, refl, false, [], ◌∷◌, some, All, map, arith}
use server_validator.Prelude.Int.{pos}
use server_validator.Text.{Text, lit, text_eq}
use server_validator.Text.Search.{contains, Lacks, after_byte, before_byte}
use server_validator.GoMap.{lookup, insert}
use server_validator.Config.{Config}
use server_validator.Feeds.Gtfs.{Time}
use server_validator.Validator.Status.{Status, pass, fail, string, Result, Report}
use server_validator.Validator.Status.Severity.{Known, Has}
use server_validator.Report.Document.{
  Group, Document, add, item_of, fill, split_check, redact_string, build_group, results_of,
  group_results, build_document,
}
use server_validator.Report.Document.Tallies.{occurrences, count_of, groups_count}
use server_validator.Report.Document.Verdict.{build_document_lem}
use server_validator.Report.Document.Redacted.{contains-build_document}
use server_validator.Report.Document.Sources.{from_source, build_group-items}

abbrev settings : Config
settings = record {
  oba_server_url = b'h' ∷ b'k' ∷ [];
  api_key = b'k' ∷ [];
  data_sources = [];
  sample_size = pos 3;
  rt_freshness_seconds = pos 300;
  location_span = 1;
  max_concurrency = pos 4;
  timeout_seconds = pos 120;
  cache_dir = [];
  db_url = [];
  db_user = [];
  db_pass = [];
  correlation_id = [];
  result_table = [];
  no_cache = false;
  refresh = false;
}

abbrev server_failure : Result
server_failure = record {
  check = b'c' ∷ b'/' ∷ b's' ∷ [];
  source = [];
  status = fail;
  message = b'k' ∷ [];
  details = [];
}

abbrev stray : Result
stray = record { check = b'd' ∷ []; source = b'x' ∷ []; status = pass; message = []; details = [] }

abbrev two_results : Report
two_results = record { results = server_failure ∷ stray ∷ [] }

abbrev no_time : Time → Text
no_time t = []

two_results-Known : All Known two_results.results
two_results-Known = (λ n e. cc, (λ n e. cc, tt))

build_document_lem_example :
    (doc : Document) × (build_document no_time two_results settings (pos 0) ≡ some doc)
    × (doc.summary.total ≡ 2)
    × ((q : Status)
        → (count_of q doc.summary.counts ≡ occurrences q two_results.results)
          × (groups_count q doc.groups ≡ occurrences q two_results.results))
    × (doc.summary.counts.passes + doc.summary.counts.warns + doc.summary.counts.fails
          + doc.summary.counts.skips
        ≡ doc.summary.total)
    × ((doc.summary.verdict ≡ lit "FAIL") ↔ Has fail two_results.results)
build_document_lem_example =
    build_document_lem no_time two_results settings (pos 0) two_results-Known

contains-build_document_example :
    let made = build_document_lem no_time two_results settings (pos 0) two_results-Known in
    (contains (made.0).meta.oba_server_url (b'k' ∷ []) ≡ false)
    × All
        (λ s.
          (contains s.static_gtfs_feed_url (b'k' ∷ []) ≡ false)
          × (contains s.vehicle_positions_url (b'k' ∷ []) ≡ false)
          × (contains s.trip_updates_url (b'k' ∷ []) ≡ false)
          × (contains s.service_alerts_url (b'k' ∷ []) ≡ false))
        (made.0).meta.data_sources
    × All (λ g. All (λ i. contains i.message (b'k' ∷ []) ≡ false) g.results) (made.0).groups
contains-build_document_example =
    contains-build_document no_time two_results settings (pos 0)
      (build_document_lem no_time two_results settings (pos 0) two_results-Known).0 (λ e. cc)
      (omega arith, tt)
      (build_document_lem no_time two_results settings (pos 0) two_results-Known).1

-- The group of the results of the server.
abbrev server_group : Group
server_group = record {
  id = b's' ∷ [];
  label = b'S' ∷ [];
  counts = record { passes = 0; warns = 0; fails = 1; skips = 0 };
  results =
      record {
        check = b'c' ∷ b'/' ∷ b's' ∷ [];
        category = b'c' ∷ [];
        step = b's' ∷ [];
        status = string fail;
        message = b'*' ∷ b'*' ∷ b'*' ∷ [];
        details = [];
      }
      ∷ [];
}

server_group_run :
    build_group
      (b's' ∷ [])
      (b'S' ∷ [])
      (results_of [] (group_results two_results.results []))
      (b'k' ∷ [])
    ≡ some server_group
unfolding build_group results_of group_results lookup insert text_eq fill add item_of split_check
    after_byte before_byte redact_string server_validator.Text.Replace.replace_all
    server_validator.Text.Search.starts_with
server_group_run = refl

build_group-items_example :
    (server_group.id ≡ b's' ∷ [])
    × (server_group.results ≡ map (item_of (b'k' ∷ [])) (from_source [] two_results.results))
build_group-items_example =
    build_group-items (b's' ∷ []) (b'S' ∷ []) [] (b'k' ∷ []) two_results.results server_group
      server_group_run
