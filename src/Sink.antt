-- ===== src/Sink.antt =====
-- sink/sink.go: the settings of the result sink and the test that they are complete.
pub mod Validate
pub mod Dsn
pub mod Write
mod Tests
use server_validator.Prelude.{
  Bool, true, false, not, List, [], ◌∷◌, ◌++◌, Option, none, some, if◌then◌else◌,
}
use server_validator.Text.{Text, lit, is_empty}
use server_validator.Text.Space.{trim_space}
use server_validator.GoMap.{member}
use server_validator.Sort.{sort_strings}
use server_validator.Fmt.{Fmt}

pub record SinkConfig : Type 0 where
  pub db_url : Text
  pub db_user : Text
  pub db_pass : Text
  pub correlation_id : Text
  pub result_table : Text

-- `strings.TrimSpace(s) == ""`
unfoldable pub is_blank : Text → Bool
unfolding is_empty trim_space
is_blank s = is_empty (trim_space s)

unfoldable pub configured : SinkConfig → Bool
configured c = not (is_blank c.db_url)

-- The keys of the map.
unfoldable pub allowed_tables : List Text
allowed_tables = lit "oba_validator_results" ∷ []

unfoldable pub allowed_table_names : List Text
unfolding allowed_tables sort_strings
allowed_table_names = sort_strings allowed_tables

-- `strings.Join(names, ", ")`
unfoldable pub join_comma : List Text → Text
join_comma [] = []
join_comma (n ∷ []) = n
join_comma (n ∷ m ∷ ns) = n ++ lit ", " ++ join_comma (m ∷ ns)

-- The fields that go with `db_url`, by name.
unfoldable pub siblings : SinkConfig → List (Text × Text)
siblings c =
    (lit "db_user", c.db_user)
    ∷ (lit "db_pass", c.db_pass)
    ∷ (lit "correlation_id", c.correlation_id)
    ∷ (lit "result_table", c.result_table)
    ∷ []

unfoldable pub required : Text → Text
required name = lit "result sink: " ++ name ++ lit " is required when db_url is set"

-- The loop over the fields: the error for the first blank one.
unfoldable pub first_blank : List (Text × Text) → Option Text
first_blank [] = none
first_blank ((name, val) ∷ fs) = if is_blank val then some (required name) else first_blank fs

module _ (fmt : Fmt) where
  unfoldable pub unsupported : Text → Text
  unsupported table =
      lit "result sink: unsupported result_table "
      ++ fmt.quote table
      ++ lit " (allowed: "
      ++ join_comma allowed_table_names
      ++ lit ")"

  -- The error, or `none` for nil.
  unfoldable pub validate : SinkConfig → Option Text
  validate c = if not (configured c) then none else elim (first_blank (siblings c)) [
    | some e ↦ some e
    | none ↦
        if not (member c.result_table allowed_tables)
        then some (unsupported c.result_table)
        else none
  ]
