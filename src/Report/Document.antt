-- ===== src/Report/Document.antt =====
-- report/document.go: the document of a run. The encoding of the document as JSON, and the format
-- of its time, are those of the library. `none` is the panic of `add`.
pub mod Tallies
pub mod Groups
pub mod Verdict
pub mod Redacted
pub mod Sources
pub mod Leftover
pub mod Names
use server_validator.Prelude.{
  ℕ, suc, ◌+◌, Bool, true, false, List, [], ◌∷◌, ◌++◌, Option, none, some, length, if◌then◌else◌,
}
use server_validator.Text.{Text, lit}
use server_validator.Text.Search.{after_byte, before_byte}
use server_validator.Text.Replace.{replace_all, stars}
use server_validator.GoMap.{GoMap, lookup, insert, delete, keys}
use server_validator.Sort.{sort_strings}
use server_validator.Fmt.{decimal}
use server_validator.Config.{DataSource, Config}
use server_validator.Feeds.Gtfs.{Time}
use server_validator.Validator.Status.{
  Status, pass, warn, fail, skip, other, string, Details, Result, Report, worst, exit_code,
}

pub record MetaSource : Type 0 where
  pub id : Text
  pub index : ℕ
  pub static_gtfs_feed_url : Text
  pub vehicle_positions_url : Text
  pub trip_updates_url : Text
  pub service_alerts_url : Text
  pub agency_mapping : GoMap Text

pub record Meta : Type 0 where
  generated_at : Text
  pub oba_server_url : Text
  pub data_sources : List MetaSource

pub record Counts : Type 0 where
  pub passes : ℕ
  pub warns : ℕ
  pub fails : ℕ
  pub skips : ℕ

pub record Summary : Type 0 where
  pub verdict : Text
  pub exit_code : ℕ
  pub total : ℕ
  pub counts : Counts

pub record Item : Type 0 where
  pub check : Text
  pub category : Text
  pub step : Text
  pub status : Text
  pub message : Text
  pub details : Details

pub record Group : Type 0 where
  pub id : Text
  pub label : Text
  pub counts : Counts
  pub results : List Item

pub record Document : Type 0 where
  pub schema_version : Text
  pub meta : Meta
  pub summary : Summary
  pub groups : List Group

abbrev pub no_counts : Counts
no_counts = record { passes = 0; warns = 0; fails = 0; skips = 0 }

unfoldable pub add : Counts → Status → Option Counts
add c pass = some (record c { passes = c.passes + 1 })
add c warn = some (record c { warns = c.warns + 1 })
add c fail = some (record c { fails = c.fails + 1 })
add c skip = some (record c { skips = c.skips + 1 })
add c (other n) = none

unfoldable pub split_check : Text → Text × Text
split_check check = elim (after_byte b'/' check) [
  | some step ↦ (before_byte b'/' check, step)
  | none ↦ (check, [])
]

-- The second argument is the API key.
unfoldable pub redact_string : Text → Text → Text
redact_string s [] = s
redact_string s (k ∷ ks) = replace_all k ks stars s

unfoldable pub item_of : Text → Result → Item
item_of api_key r =
    let (category, step) = split_check r.check in
    record {
      check = r.check;
      category = category;
      step = step;
      status = string r.status;
      message = redact_string r.message api_key;
      details = r.details;
    }

-- The loop of `buildGroup`.
unfoldable pub fill : Text → List Result → Group → Option Group
fill api_key [] g = some g
fill api_key (r ∷ rs) g = elim (add g.counts r.status) [
  | none ↦ none
  | some c ↦
      fill api_key rs (record g { counts = c; results = g.results ++ item_of api_key r ∷ [] })
]

unfoldable pub build_group : Text → Text → List Result → Text → Option Group
build_group id label results api_key =
    fill api_key results (record { id = id; label = label; counts = no_counts; results = [] })

-- `m[k]`, which is nil for a missing key.
unfoldable pub results_of : Text → GoMap (List Result) → List Result
results_of k m = elim (lookup k m) [ some rs ↦ rs | none ↦ [] ]

-- The first loop, with the map so far.
unfoldable pub group_results : List Result → GoMap (List Result) → GoMap (List Result)
group_results [] m = m
group_results (r ∷ rs) m = group_results rs (insert r.source (results_of r.source m ++ r ∷ []) m)

-- `fmt.Sprintf("dataSource[%d]", i)`
unfoldable pub source_id : ℕ → Text
source_id i = lit "dataSource[" ++ decimal i ++ lit "]"

-- The loop over the data sources from the `i`-th on, with the groups and the map so far.
unfoldable pub source_groups :
    Text
    → ℕ
    → List DataSource
    → List Group × GoMap (List Result)
    → Option (List Group × GoMap (List Result))
source_groups api_key i [] acc = some acc
source_groups api_key i (d ∷ ds) (groups, m) =
    let label = lit "Data source " ++ decimal i in
    elim (build_group (source_id i) label (results_of (source_id i) m) api_key) [
      | none ↦ none
      | some g ↦ source_groups api_key (suc i) ds (groups ++ g ∷ [], delete (source_id i) m)
    ]

-- The loop over the keys that are left.
unfoldable pub leftover_groups :
    Text → GoMap (List Result) → List Text → List Group → Option (List Group)
leftover_groups api_key m [] groups = some groups
leftover_groups api_key m (k ∷ ks) groups = elim (build_group k k (results_of k m) api_key) [
  | none ↦ none
  | some g ↦ leftover_groups api_key m ks (groups ++ g ∷ [])
]

-- The groups of a report. The keys that are left are sorted, so that the order in which the source
-- ranges over the map does not matter.
unfoldable pub build_groups : Text → List DataSource → List Result → Option (List Group)
build_groups api_key sources results =
    let by_source = group_results results [] in
    elim (build_group (lit "server") (lit "Server") (results_of [] by_source) api_key) [
      | none ↦ none
      | some g ↦ elim (source_groups api_key 0 sources (g ∷ [], delete [] by_source)) [
        | none ↦ none
        | some (groups, left) ↦ leftover_groups api_key left (sort_strings (keys left)) groups
      ]
    ]

unfoldable pub meta_source : Text → ℕ → DataSource → MetaSource
meta_source api_key i d = record {
  id = source_id i;
  index = i;
  static_gtfs_feed_url = redact_string d.static_gtfs_feed_url api_key;
  vehicle_positions_url = redact_string d.vehicle_positions_url api_key;
  trip_updates_url = redact_string d.trip_updates_url api_key;
  service_alerts_url = redact_string d.service_alerts_url api_key;
  agency_mapping = d.agency_mapping;
}

unfoldable pub meta_sources : Text → ℕ → List DataSource → List MetaSource
meta_sources api_key i [] = []
meta_sources api_key i (d ∷ ds) = meta_source api_key i d ∷ meta_sources api_key (suc i) ds

-- The loop that adds up the counts of the groups.
unfoldable pub sum_counts : List Group → Counts → Counts
sum_counts [] total = total
sum_counts (g ∷ gs) total = sum_counts gs (record {
  passes = total.passes + g.counts.passes;
  warns = total.warns + g.counts.warns;
  fails = total.fails + g.counts.fails;
  skips = total.skips + g.counts.skips;
})

-- `rep.Worst() == validator.Fail`
unfoldable pub verdict_of : Report → Text
verdict_of rep = elim (worst rep) [ fail ↦ lit "FAIL" | _ ↦ lit "PASS" ]

unfoldable pub build_summary : Report → List Group → Summary
build_summary rep groups = record {
  verdict = verdict_of rep;
  exit_code = exit_code rep;
  total = length rep.results;
  counts = sum_counts groups no_counts;
}

-- The first argument is `now.UTC().Format(time.RFC3339)`.
unfoldable pub build_meta : (Time → Text) → Config → Time → Meta
build_meta rfc3339 cfg now = record {
  generated_at = rfc3339 now;
  oba_server_url = redact_string cfg.oba_server_url cfg.api_key;
  data_sources = meta_sources cfg.api_key 0 cfg.data_sources;
}

unfoldable pub build_document : (Time → Text) → Report → Config → Time → Option Document
build_document rfc3339 rep cfg now = elim (build_groups cfg.api_key cfg.data_sources rep.results) [
  | none ↦ none
  | some groups ↦ some (record {
    schema_version = lit "1.0";
    meta = build_meta rfc3339 cfg now;
    summary = build_summary rep groups;
    groups = groups;
  })
]
