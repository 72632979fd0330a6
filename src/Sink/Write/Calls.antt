-- ===== src/Sink/Write/Calls.antt =====
-- Which calls `Write` makes, and when it reports success.
use server_validator.Prelude.{
  ◌≡◌, ◌≢◌, ◌⊎◌, inl, inr, refl, ap, true, false, List, [], ◌∷◌, ◌++◌, arith, Option, none, some,
  Option-cases, Bool-cases,
}
use server_validator.Text.{Text, lit, text_eq, text_eq_iff, text_eq-cases}
use server_validator.Text.Search.{Lacks}
use server_validator.Text.Replace.{star}
use server_validator.Fmt.{Fmt}
use server_validator.Sink.{SinkConfig, configured, validate}
use server_validator.Sink.Validate.{IsComplete, is_blank-false, table_lem, validate-none_iff}
use server_validator.Sink.Dsn.{ok, Result-cases, UrlLib, normalize_dsn}
use server_validator.Sink.Write.{
  DbCall, connect, exec, close, create_table_sql, insert_row_sql, statement_timeout_sql, redact_err,
  send, and_close, statements, write,
}
use server_validator.Sink.Write.Redacted.{redact_err-Hides, Hides}

-- The statements of a row, in order.
abbrev script : SinkConfig → List Text → List DbCall
script c row =
    exec statement_timeout_sql []
    ∷ exec (create_table_sql c.result_table) []
    ∷ exec (insert_row_sql c.result_table) row
    ∷ []

abbrev pub row_of : SinkConfig → Text → Text → Text → List Text
row_of c status result_data error_message =
    c.correlation_id ∷ status ∷ result_data ∷ error_message ∷ []

-- What a call of `Write` needs before it opens a connection.
pub record IsReady (lib : UrlLib) (c : SinkConfig) (status dsn : Text) : Type 0 where
  pub complete : IsComplete c
  pub known : (status ≡ lit "completed") ⊎ (status ≡ lit "error")
  read : normalize_dsn lib c.db_url c.db_user c.db_pass ≡ ok dsn

-- What a call of `Write` can have sent and returned.
pub data Outcome (lib : UrlLib) (c : SinkConfig) (status : Text) (row : List Text)
    (r : List DbCall × Option Text) : Type 0 where
  refused :
      (e : Text)
      → ((dsn : Text) → ¬ IsReady lib c status dsn)
      → r ≡ ([], some e)
      → Outcome lib c status row r
  unreachable :
      (dsn s : Text)
      → IsReady lib c status dsn
      → r ≡ (connect dsn ∷ [], some (redact_err c.db_pass s))
      → Outcome lib c status row r
  broken :
      (dsn s : Text) (done left : List DbCall)
      → IsReady lib c status dsn
      → script c row ≡ done ++ left
      → r ≡ (connect dsn ∷ done ++ close ∷ [], some (redact_err c.db_pass s))
      → Outcome lib c status row r
  stored :
      (dsn : Text)
      → IsReady lib c status dsn
      → r ≡ (connect dsn ∷ script c row ++ close ∷ [], none)
      → Outcome lib c status row r

module _ (fmt : Fmt) (lib : UrlLib) (answer : List DbCall → Option Text) where
  session : SinkConfig → List Text → Text → List DbCall × Option Text
  unfolding send and_close statements
  session c row dsn =
      send fmt lib answer c (connect dsn) (lit "connect: ")
        (λ sent. and_close fmt lib answer (statements fmt lib answer c row sent)) []

  session-Outcome :
      (c : SinkConfig) (status dsn : Text) (row : List Text)
      → IsReady lib c status dsn
      → Outcome lib c status row (session c row dsn)
  unfolding session
  session-Outcome c status dsn row ready =
      let s0 = connect dsn ∷ [] in
      let s1 = connect dsn ∷ exec statement_timeout_sql [] ∷ [] in
      let s2 =
        connect dsn
        ∷ exec statement_timeout_sql []
        ∷ exec (create_table_sql c.result_table) []
        ∷ [] in
      let s3 = connect dsn ∷ script c row in
      elim (Option-cases (answer s0)) [
        | inr (e, h) ↦ unreachable dsn (lit "connect: " ++ e) ready (ground arith)
        | inl h0 ↦ elim (Option-cases (answer s1)) [
          | inr (e, h) ↦
              broken dsn (lit "set statement_timeout: " ++ e) (exec statement_timeout_sql [] ∷ []) _
                ready refl (ground arith)
          | inl h1 ↦ elim (Option-cases (answer s2)) [
            | inr (e, h) ↦
                broken dsn (lit "create table: " ++ e)
                  (exec statement_timeout_sql [] ∷ exec (create_table_sql c.result_table) [] ∷ []) _
                  ready refl (ground arith)
            | inl h2 ↦ elim (Option-cases (answer s3)) [
              | inr (e, h) ↦
                  broken dsn (lit "insert row: " ++ e) (script c row) [] ready refl (ground arith)
              | inl h3 ↦ stored dsn ready (ground arith)
            ]
          ]
        ]
      ]

  module _ (c : SinkConfig) (status result_data error_message : Text) where
    abbrev outcome : List DbCall × Option Text
    outcome = write fmt lib answer c status result_data error_message

    abbrev row : List Text
    row = row_of c status result_data error_message

    accepted_outcome :
        (status ≡ lit "completed") ⊎ (status ≡ lit "error")
        → configured c ≡ true
        → validate fmt c ≡ none
        → Outcome lib c status row outcome
    unfolding write session
    accepted_outcome known on valid = elim ((validate-none_iff fmt c).0 valid) [
      | inl off ↦ cc
      | inr complete ↦
          let listed = (table_lem c.result_table).1 complete.own_table in
          elim (Result-cases (normalize_dsn lib c.db_url c.db_user c.db_pass)) [
            | inl (e, h) ↦
                refused (redact_err c.db_pass e) (λ d ready. absurd (ground (arith, ready.read)))
                  (ground
                    (arith, text_eq_iff status (lit "completed"), text_eq_iff status (lit "error")))
            | inr (dsn, h) ↦
                let ready : IsReady lib c status dsn = record {
                  complete = complete;
                  known = known;
                  read = h;
                } in
                let same : outcome ≡ session c row dsn =
                  ground (
                    arith,
                    text_eq_iff status (lit "completed"),
                    text_eq_iff status (lit "error"),
                  ) in
                rw same (session-Outcome c status dsn row ready)
          ]
    ]

    known_outcome :
        (status ≡ lit "completed") ⊎ (status ≡ lit "error")
        → configured c ≡ true
        → Outcome lib c status row outcome
    unfolding write
    known_outcome known on = elim (Option-cases (validate fmt c)) [
      | inl valid ↦ accepted_outcome known on valid
      | inr (e, h) ↦
          refused e (λ d ready. absurd (cc (h, (validate-none_iff fmt c).1 (inr ready.complete))))
            (ground (arith, text_eq_iff status (lit "completed"), text_eq_iff status (lit "error")))
    ]

    off_unready : (dsn : Text) → configured c ≡ false → ¬ IsReady lib c status dsn
    unfolding configured
    off_unready dsn off ready = ground (arith, ready.complete.url_set)

    status_unready :
        text_eq status (lit "completed") ≡ false
        → text_eq status (lit "error") ≡ false
        → ¬ ((status ≡ lit "completed") ⊎ (status ≡ lit "error"))
    status_unready k l (inl e) = cc ((text_eq_iff status (lit "completed")).1 e, k)
    status_unready k l (inr e) = cc ((text_eq_iff status (lit "error")).1 e, l)

    -- A call of `Write` ends in one of four ways. It is refused without a call of the database,
    -- and then the sink is not active and complete, or the status is not one of the two known
    -- ones, or the DSN cannot be built; or the sink is active and complete, the status is one of
    -- the two known ones and the DSN could be built, and then the connection is refused, or some statements of the script are sent,
    -- from the first on, and the connection is closed, or all of them are, and only then there is
    -- no error. The errors of the database come back through `redactErr`.
    pub write-Outcome : Outcome lib c status row outcome
    unfolding write
    write-Outcome = elim (Bool-cases (configured c)) [
      | inr off ↦
          refused (lit "sink: Write called on unconfigured Config (programming error)")
            (λ d ready. off_unready d off ready) (ground arith)
      | inl on ↦ elim (text_eq-cases status (lit "completed")) [
        | inl k ↦ known_outcome (inl k) on
        | inr k ↦ elim (text_eq-cases status (lit "error")) [
          | inl l ↦ known_outcome (inr l) on
          | inr l ↦
              refused
                (lit "sink: unsupported status "
                  ++ fmt.quote status
                  ++ lit " (allowed: \"completed\", \"error\")")
                (λ d ready. status_unready k l ready.known) (ground arith)
        ]
      ]
    ]

-- Once a connection was tried, an error of `Write` shows a password without a star neither as it is
-- nor in the form of `url.QueryEscape`; nor in the form that it has in the connection string, unless
-- it has a space or one of $ & + , ; =, which the two forms write differently.
pub write_redacted :
    (fmt : Fmt) (lib : UrlLib) (answer : List DbCall → Option Text) (c : SinkConfig)
    (status result_data error_message e : Text)
    → Lacks star c.db_pass
    → (write fmt lib answer c status result_data error_message).0 ≢ []
    → (write fmt lib answer c status result_data error_message).1 ≡ some e
    → Hides c.db_pass e
write_redacted fmt lib answer c status result_data error_message e lacks called returned =
    elim (write-Outcome fmt lib answer c status result_data error_message) [
      | refused _ unready h ↦ absurd (called (ap (λ (r : List DbCall × Option Text). r.0) h))
      | unreachable dsn s ready h ↦ hidden s ready (cc)
      | broken dsn s done left ready split h ↦ hidden s ready (cc)
      | stored dsn ready h ↦ absurd (cc)
    ]
  where
    hidden :
        (s : Text) {dsn : Text}
        → IsReady lib c status dsn
        → e ≡ redact_err c.db_pass s
        → Hides c.db_pass e
    hidden s ready same =
        rw same (redact_err-Hides c.db_pass s (is_blank-false ready.complete.pass_set) lacks)
