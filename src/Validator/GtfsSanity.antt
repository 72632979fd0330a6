-- ===== src/Validator/GtfsSanity.antt =====
-- validator/check_gtfs_sanity.go: the static feed is there and holds every kind of entity.
pub mod Laws
use server_validator.Prelude.{
  Bool, true, false, List, [], ◌∷◌, ◌++◌, Option, none, some, length, if◌then◌else◌,
}
use server_validator.Text.{Text, lit}
use server_validator.GoMap.{lookup}
use server_validator.Fmt.{decimal}
use server_validator.Feeds.Gtfs.{Static}
use server_validator.Feeds.Static.{ParsedStatic}
use server_validator.Validator.Status.{pass, fail, texts, Result}
use server_validator.Validator.Redaction.{redact}
use server_validator.Validator.Context.{SourceContext, ValidationContext}

unfoldable pub static_of : SourceContext → Option Static
static_of src = elim src.static [ none ↦ none | some p ↦ p.static ]

-- `missing = append(missing, name)` where the list is empty.
unfoldable pub note_missing : {A : Type 0} → List A → Text → List Text → List Text
note_missing [] name missing = missing ++ name ∷ []
note_missing (x ∷ xs) name missing = missing

unfoldable pub missing_of : Static → List Text
missing_of s = note_missing s.trips (lit "trips") (
    note_missing s.stops (lit "stops")
      (note_missing s.routes (lit "routes") (note_missing s.agencies (lit "agencies") [])))

-- `%v` of a list of strings, between its brackets.
unfoldable pub join_space : List Text → Text
join_space [] = []
join_space (n ∷ []) = n
join_space (n ∷ m ∷ ns) = n ++ lit " " ++ join_space (m ∷ ns)

unfoldable pub sanity_result : SourceContext → Static → Result
sanity_result src s = elim (missing_of s) [
  | m ∷ ms ↦ record {
    check = lit "gtfs-sanity";
    source = src.label;
    status = fail;
    message = lit "static GTFS missing: [" ++ join_space (m ∷ ms) ++ lit "]";
    details = (lit "missing", texts (m ∷ ms)) ∷ [];
  }
  | [] ↦ record {
    check = lit "gtfs-sanity";
    source = src.label;
    status = pass;
    message =
        decimal (length s.agencies)
        ++ lit " agencies, "
        ++ decimal (length s.routes)
        ++ lit " routes, "
        ++ decimal (length s.stops)
        ++ lit " stops, "
        ++ decimal (length s.trips)
        ++ lit " trips";
    details = [];
  }
]

unfoldable pub unavailable : SourceContext → Text → Result
unavailable src msg = record {
  check = lit "gtfs-sanity";
  source = src.label;
  status = fail;
  message = msg;
  details = [];
}

unfoldable pub run_gtfs_sanity : ValidationContext → SourceContext → List Result
run_gtfs_sanity vc src = elim (lookup (lit "staticGtfs") src.prep_errors) [
  | some e ↦
      unavailable src (lit "static GTFS unavailable: " ++ redact (some e) vc.config.api_key) ∷ []
  | none ↦ elim (static_of src) [
    | none ↦ unavailable src (lit "static GTFS not parsed") ∷ []
    | some s ↦ sanity_result src s ∷ []
  ]
]
