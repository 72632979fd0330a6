-- ===== src/Sink/Validate.antt =====
-- What `Config.Validate` accepts.
use server_validator.Prelude.{
  ◌≡◌, ◌≢◌, ◌↔◌, ◌⊎◌, refl, true, false, List, [], ◌∷◌, arith, none, All,
}
use server_validator.Text.{Text, lit, text_eq_iff}
use server_validator.GoMap.{member}
use server_validator.Fmt.{Fmt}
use server_validator.Sink.{
  SinkConfig, is_blank, configured, allowed_tables, siblings, first_blank, validate,
}

first_blank-none_iff :
    (fs : List (Text × Text)) → (first_blank fs ≡ none) ↔ All (λ f. is_blank f.1 ≡ false) fs
unfolding first_blank
first_blank-none_iff [] = (λ h. tt, λ h. refl)
first_blank-none_iff ((name, val) ∷ fs) = ground (arith, first_blank-none_iff fs)

-- The settings of an active sink: nothing is blank, and the table is the validator's own.
pub record IsComplete (c : SinkConfig) : Type 0 where
  pub url_set : is_blank c.db_url ≡ false
  pub user_set : is_blank c.db_user ≡ false
  pub pass_set : is_blank c.db_pass ≡ false
  pub id_set : is_blank c.correlation_id ≡ false
  pub table_set : is_blank c.result_table ≡ false
  pub own_table : c.result_table ≡ lit "oba_validator_results"

pub table_lem : (t : Text) → (member t allowed_tables ≡ true) ↔ (t ≡ lit "oba_validator_results")
unfolding member allowed_tables
table_lem t = ground (arith, text_eq_iff t (lit "oba_validator_results"))

-- `Validate` returns nil exactly when the sink is not activated or all of its settings are complete.
pub validate-none_iff :
    (fmt : Fmt) (c : SinkConfig) → (validate fmt c ≡ none) ↔ ((configured c ≡ false) ⊎ IsComplete c)
unfolding validate configured siblings
validate-none_iff fmt c =
    ground (arith, first_blank-none_iff (siblings c), table_lem c.result_table)

-- A text that is not blank is not empty.
pub is_blank-false : {s : Text} → is_blank s ≡ false → s ≢ []
unfolding is_blank
is_blank-false {s} h e = cc
