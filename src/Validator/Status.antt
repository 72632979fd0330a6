-- ===== src/Validator/Status.antt =====
-- validator/status.go and validator/result.go: statuses, results, and the verdict of a report.
pub mod Severity
use server_validator.Prelude.{ℕ, ◌≡◌, ◌⊎◌, inl, inr, refl, List, [], ◌∷◌, ◌++◌, arith}
use server_validator.Prelude.Int.{ℤ}
use server_validator.Prelude.Float.{Float}
use server_validator.Text.{Text, lit}

-- `Status` is an `int` with four named values; `other` holds every value beyond them.
pub data Status : Type 0 where
  pass : Status
  warn : Status
  fail : Status
  skip : Status
  other : ℕ → Status

unfoldable pub string : Status → Text
unfolding lit
string pass = lit "PASS"
string warn = lit "WARN"
string fail = lit "FAIL"
string skip = lit "SKIP"
string (other n) = lit "UNKNOWN"

unfoldable pub glyph : Status → Text
unfolding lit
glyph pass = lit "✓"
glyph warn = lit "⚠"
glyph fail = lit "✗"
glyph skip = lit "–"
glyph (other n) = lit "?"

-- The status as a JSON string.
unfoldable marshal_json : Status → Text
unfolding string lit
marshal_json s = lit "\"" ++ string s ++ lit "\""

-- The values that checks put under `Details`.
pub data Detail : Type 0 where
  text : Text → Detail
  int : ℤ → Detail
  float : Float → Detail
  texts : List Text → Detail

-- A `map[string]any` literal; `[]` is the nil map.
abbrev pub Details : Type 0
Details = List (Text × Detail)

pub record Result : Type 0 where
  pub check : Text
  pub source : Text
  pub status : Status
  pub message : Text
  pub details : Details

pub record Report : Type 0 where
  pub results : List Result

-- The loop of `Worst` over the results that are left, with the worst status so far.
worst_from : Status → List Result → Status
worst_from worst [] = worst
worst_from worst (r ∷ rs) = elim r.status [
  | fail ↦ fail
  | warn ↦ worst_from (elim worst [ pass ↦ warn | kept ↦ kept ]) rs
  | _ ↦ worst_from worst rs
]

unfoldable pub worst : Report → Status
unfolding worst_from
worst r = worst_from pass r.results

unfoldable pub exit_code : Report → ℕ
exit_code r = 0
