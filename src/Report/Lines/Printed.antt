-- ===== src/Report/Lines/Printed.antt =====
-- report/report.go: the lines of a report, by the formats of the source.
use server_validator.Prelude.{
  ℕ, ◌≡◌, ◌≢◌, ◌==◌, ==_iff, refl, append_assoc, List, [], ◌∷◌, ◌++◌, arith, length, if◌then◌else◌,
  ◌↔◌, Bool, true, false,
}
use server_validator.Text.{Text, lit}
use server_validator.Fmt.{decimal}
use server_validator.Validator.Status.{Status, pass, warn, fail, skip, other, glyph, Result, Report}
use server_validator.Validator.Status.Severity.{Has, worst_lem}
use server_validator.Report.Document.Tallies.{occurrences}
use server_validator.Report.Lines.{group_name, result_line, summary_line, verdict_text}

-- The rest of a format of Go with verbs of one letter, and the texts of the arguments that are left.
-- The flag says whether the next byte is the letter of a verb.
abbrev printed : Bool → Text → List Text → Text
printed verb [] args = []
printed true (c ∷ form) args = elim args [
  | [] ↦ printed false form []
  | a ∷ rest ↦ a ++ printed false form rest
]
printed false (c ∷ form) args = elim (c == b'%') [
  | true ↦ printed true form args
  | false ↦ c ∷ printed false form args
]

-- `fmt.Sprintf`, where each argument is a text.
abbrev pub sprintf : Text → List Text → Text
sprintf form args = printed false form args

-- How a line begins.
abbrev mark : Status → Text
mark pass = lit "✓"
mark warn = lit "⚠"
mark fail = lit "✗"
mark skip = lit "–"
mark (other n) = lit "?"

-- The name for a source in a line.
abbrev shown : Text → Text
shown [] = lit "server"
shown (c ∷ s) = c ∷ s

abbrev pub line_of : Result → Text
line_of r =
    sprintf (lit "%s [%s] %s — %s\n") (mark r.status ∷ shown r.source ∷ r.check ∷ r.message ∷ [])

-- The summary: FAIL if some result fails, and how many there are, fail and warn.
abbrev pub summary_of : List Result → Text
summary_of rs =
    let fails = occurrences fail rs in
    sprintf (lit "\n%s (%d checks, %d failed, %d warnings)\n") (
      (if fails == 0 then lit "PASS" else lit "FAIL")
      ∷ decimal (length rs)
      ∷ decimal fails
      ∷ decimal (occurrences warn rs)
      ∷ [])

glyph-mark : (s : Status) → glyph s ≡ mark s
unfolding glyph
glyph-mark pass = refl
glyph-mark warn = refl
glyph-mark fail = refl
glyph-mark skip = refl
glyph-mark (other n) = refl

group_name-shown : (s : Text) → group_name s ≡ shown s
unfolding group_name
group_name-shown [] = refl
group_name-shown (c ∷ s) = refl

pub result_line-printed : (r : Result) → result_line r ≡ line_of r
unfolding result_line lit
result_line-printed r = rw (glyph-mark r.status, group_name-shown r.source) (simp append_assoc)

summary_line-printed :
    (verdict : Text) (total fails warns : ℕ)
    → summary_line verdict total fails warns
      ≡ sprintf
          (lit "\n%s (%d checks, %d failed, %d warnings)\n")
          (verdict ∷ decimal total ∷ decimal fails ∷ decimal warns ∷ [])
unfolding summary_line lit
summary_line-printed verdict total fails warns = simp append_assoc

occurrences-Has : (rs : List Result) → (occurrences fail rs ≢ 0) ↔ Has fail rs
occurrences-Has [] = (λ n. absurd (n refl), λ h. absurd h)
occurrences-Has (r ∷ rs) = ground (arith, occurrences-Has rs)

verdict_text_lem :
    (rep : Report)
    → verdict_text rep ≡ (if occurrences fail rep.results == 0 then lit "PASS" else lit "FAIL")
unfolding verdict_text
verdict_text_lem rep =
    ground
      (arith, worst_lem rep, occurrences-Has rep.results, ==_iff (occurrences fail rep.results) 0)

pub summary_line_lem :
    (rep : Report)
    → summary_line
        (verdict_text rep)
        (length rep.results)
        (occurrences fail rep.results)
        (occurrences warn rep.results)
      ≡ summary_of rep.results
summary_line_lem rep = rw (verdict_text_lem rep) (summary_line-printed _ _ _ _)
