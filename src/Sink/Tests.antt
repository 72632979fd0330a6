-- ===== src/Sink/Tests.antt =====
-- Runs of sink/ on concrete settings, with a database that accepts what it is sent and one that
-- refuses the row and shows the password.
use server_validator.Prelude.{
  ◌⊎◌, ◌≡◌, refl, List, [], ◌∷◌, ◌++◌, Option, none, some, arith, if◌then◌else◌,
}
use server_validator.Text.{Text, lit, text_eq, is_empty}
use server_validator.Text.Search.{Lacks, starts_with}
use server_validator.Text.Replace.{star, replace_all}
use server_validator.Text.Escape.{query_escape}
use server_validator.Text.Space.{trim_space}
use server_validator.GoMap.{lookup, member}
use server_validator.Fmt.{Fmt, decimal_ℤ}
use server_validator.Sink.{
  SinkConfig, is_blank, configured, allowed_tables, siblings, first_blank, validate,
}
use server_validator.Sink.Dsn.{Query, Url, ok, UrlLib, get, complete, trim_prefix, normalize_dsn}
use server_validator.Sink.Dsn.Defaults.{complete_lem}
use server_validator.Sink.Write.{
  DbCall, connect, exec, close, redact_err, send, and_close, statements, statement_timeout_sql,
  write,
}
use server_validator.Sink.Write.Redacted.{Hides}
use server_validator.Sink.Write.Calls.{Outcome, row_of, write-Outcome, write_redacted}

abbrev plain_fmt : Fmt
plain_fmt = record { quote = λ s. lit "\"" ++ s ++ lit "\""; rounded_seconds = λ n. decimal_ℤ n }

-- A URL that is a host, with the query of one setting.
abbrev plain_url : Url
plain_url = record {
  scheme = lit "postgres";
  host = lit "db";
  user = none;
  raw_query = lit "a";
  others = [];
}

abbrev plain_lib : UrlLib
plain_lib = record {
  parse = λ s. ok plain_url;
  to_string = λ u. u.scheme ++ lit "://" ++ u.host;
  parse_query = λ s. (lit "sslmode", lit "disable" ∷ []) ∷ (lit "a", lit "b" ∷ []) ∷ [];
  encode = λ q. lit "b";
}

abbrev settings : SinkConfig
settings = record {
  db_url = lit "jdbc:postgres://db";
  db_user = lit "u";
  db_pass = lit "p&s";
  correlation_id = lit "7";
  result_table = lit "oba_validator_results";
}

-- A database that takes every call.
abbrev accepting : List DbCall → Option Text
accepting calls = none

-- A database that refuses what comes behind the connection, and answers with the password.
abbrev refusing : List DbCall → Option Text
refusing calls = elim calls [
  | [] ↦ none
  | c ∷ rest ↦ elim rest [ [] ↦ none | _ ∷ _ ↦ some (lit "p&s p%26s") ]
]

complete_lem_example :
    (q : Query) × (complete plain_lib (lit "u") (lit "p") plain_url
      ≡ record plain_url { user = some (lit "u", lit "p"); raw_query = plain_lib.encode q })
    × (get q (lit "sslmode") ≡ (
        if is_empty (get (plain_lib.parse_query (lit "a")) (lit "sslmode"))
        then lit "require"
        else get (plain_lib.parse_query (lit "a")) (lit "sslmode")))
    × (get q (lit "connect_timeout") ≡ (
        if is_empty (get (plain_lib.parse_query (lit "a")) (lit "connect_timeout"))
        then lit "5"
        else get (plain_lib.parse_query (lit "a")) (lit "connect_timeout")))
    × ((k : Text)
        → (k ≡ lit "sslmode")
          ⊎ (k ≡ lit "connect_timeout")
          ⊎ (lookup k q ≡ lookup k (plain_lib.parse_query (lit "a"))))
complete_lem_example = complete_lem plain_lib (lit "u") (lit "p") plain_url

write-Outcome_example :
    Outcome plain_lib settings
      (lit "completed")
      (row_of settings (lit "completed") (lit "{}") [])
      (write plain_fmt plain_lib refusing settings (lit "completed") (lit "{}") [])
write-Outcome_example =
    write-Outcome plain_fmt plain_lib refusing settings (lit "completed") (lit "{}") []

pass-Lacks : Lacks star settings.db_pass
unfolding lit
pass-Lacks = (omega arith, (omega arith, (omega arith, tt)))

-- The run of `write` with the database that refuses.
refused_run : write plain_fmt plain_lib refusing settings (lit "completed") (lit "{}") [] ≡ (
  connect (lit "postgres://db") ∷ exec statement_timeout_sql [] ∷ close ∷ [],
  some (lit "set statement_timeout: *** ***"),
)
unfolding write validate configured is_blank lit trim_space is_empty member allowed_tables
    first_blank siblings send and_close statements redact_err normalize_dsn trim_prefix starts_with
    complete replace_all query_escape text_eq statement_timeout_sql
refused_run = refl

write_redacted_example : Hides settings.db_pass (lit "set statement_timeout: *** ***")
write_redacted_example =
    write_redacted plain_fmt plain_lib refusing settings (lit "completed") (lit "{}") []
      (lit "set statement_timeout: *** ***") pass-Lacks (rw refused_run (λ e. cc))
      (rw refused_run refl)
