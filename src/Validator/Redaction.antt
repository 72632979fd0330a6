-- ===== src/Validator/Redaction.antt =====
-- validator/util.go: `redact` and `withReason`. An `error` is `none` where it is nil, and
-- otherwise the text of its `Error()`.
use server_validator.Prelude.{◌≡◌, ◌≢◌, refl, false, [], ◌∷◌, ◌++◌, Option, none, some}
use server_validator.Text.{Text, lit}
use server_validator.Text.Search.{starts_with, contains, Lacks}
use server_validator.Text.Replace.{replace_all, star, stars, contains-replace_all_self}

abbrev pub GoError : Type 0
GoError = Option Text

unfoldable pub redact : GoError → Text → Text
redact none api_key = []
redact (some s) [] = s
redact (some s) (k ∷ ks) = replace_all k ks stars s

unfoldable pub with_reason : Text → GoError → Text → Text
unfolding lit redact
with_reason msg none api_key = msg
with_reason msg (some s) api_key = msg ++ lit ": " ++ redact (some s) api_key

-- An API key that is not empty and has no star does not occur in a redacted error.
contains-redact :
    (e : GoError) (api_key : Text)
    → api_key ≢ []
    → Lacks star api_key
    → contains (redact e api_key) api_key ≡ false
unfolding redact contains starts_with
contains-redact e [] n h = absurd (n refl)
contains-redact none (k ∷ ks) n h = refl
contains-redact (some s) (k ∷ ks) n h = contains-replace_all_self k ks s h
