-- ===== src/Cmd/Secrets.antt =====
-- cmd/oba-validator/main.go: the secrets that are taken from a raw argument, and `scrub`. The two
-- regular expressions differ in the name of the field.
pub mod Field
pub mod Scrubbed
pub mod Sniff
use server_validator.Prelude.{
  ℕ, ◌==◌, Bool, ◌||◌, List, [], ◌∷◌, ◌++◌, Option, none, some, ◌>>=◌, if◌then◌else◌,
}
use server_validator.Text.{Text, lit}
use server_validator.Text.Replace.{replace_all, stars}

abbrev pub double_quote : ℕ
double_quote = b'"'

abbrev pub backslash : ℕ
backslash = 92

-- `\s`
abbrev pub is_space : ℕ → Bool
is_space c = c == 9 || c == 10 || c == 12 || c == 13 || c == 32

-- `\s*`
unfoldable pub skip_space : Text → Text
skip_space [] = []
skip_space (c ∷ s) = let rest = skip_space s in if is_space c then rest else c ∷ s

-- A literal: the text behind it.
unfoldable pub expect : Text → Text → Option Text
expect [] s = some s
expect (p ∷ ps) [] = none
expect (p ∷ ps) (c ∷ s) = let rest = expect ps s in if p == c then rest else none

unfoldable pub prepend : Text → Option (Text × Text) → Option (Text × Text)
prepend p found = elim found [ none ↦ none | some (v, rest) ↦ some (p ++ v, rest) ]

-- `((?:\\.|[^"\\])*)"`: what the group holds, and the text behind the quote. `.` is no line feed.
-- A code point of several bytes is taken byte by byte: none of them is a quote or a backslash.
unfoldable pub string_body : Text → Option (Text × Text)
unfolding prepend
string_body [] = none
string_body (c ∷ []) = if c == double_quote then some ([], []) else none
string_body (c ∷ d ∷ s) =
    let plain = prepend (c ∷ []) (string_body (d ∷ s)) in
    let escaped = if d == 10 then none else prepend (c ∷ d ∷ []) (string_body s) in
    if c == double_quote then some ([], d ∷ s) else if c == backslash then escaped else plain

-- The expression at the start of a text: what its group holds.
unfoldable pub field_at : Text → Text → Option Text
field_at name s = do
  s1 ← expect (double_quote ∷ name ++ double_quote ∷ []) s
  s2 ← expect (b':' ∷ []) (skip_space s1)
  s3 ← expect (double_quote ∷ []) (skip_space s2)
  found ← string_body s3
  some found.0

-- `FindStringSubmatch`: the group of the leftmost match.
unfoldable pub sniff : Text → Text → Option Text
sniff name [] = field_at name []
sniff name (c ∷ s) = elim (field_at name (c ∷ s)) [ some v ↦ some v | none ↦ sniff name s ]

-- A secret that is not empty.
abbrev nonempty : Text → List Text
nonempty [] = []
nonempty (c ∷ s) = (c ∷ s) ∷ []

-- The first argument is `os.Getenv`.
unfoldable pub redaction_secrets : (Text → Text) → Text → List Text
unfolding sniff
redaction_secrets getenv arg =
    let env_key = nonempty (getenv (lit "ONEBUSAWAY_API_KEY")) in
    let api_key : List Text = elim (sniff (lit "apiKey") arg) [
      | some (k ∷ ks) ↦ (k ∷ ks) ∷ []
      | _ ↦ env_key
    ] in
    let db_pass : List Text = elim (sniff (lit "db_pass") arg) [
      | some v ↦ nonempty v
      | none ↦ []
    ] in
    api_key ++ db_pass

unfoldable pub scrub : Text → List Text → Text
scrub s [] = s
scrub s ([] ∷ secrets) = scrub s secrets
scrub s ((k ∷ ks) ∷ secrets) = scrub (replace_all k ks stars s) secrets
