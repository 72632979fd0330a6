-- ===== src/Report/Lines.antt =====
-- report/report.go: the report as text, one write for each line.
pub mod Printed
pub mod Tally
use server_validator.Prelude.{
  ℕ, suc, ◌+◌, ◌≡◌, refl, List, [], ◌∷◌, ◌++◌, map, arith, Option, none, some, Option-cases, length,
  inl, inr,
}
use server_validator.Text.{Text, lit}
use server_validator.Fmt.{decimal}
use server_validator.Sink.Dsn.{Result as Returned, ok, err}
use server_validator.Validator.Status.{
  Status, pass, warn, fail, skip, other, glyph, Result, Report, worst,
}
use server_validator.Report.Render.{Writer}

unfoldable pub group_name : Text → Text
group_name [] = lit "server"
group_name (c ∷ s) = c ∷ s

-- `"%s [%s] %s — %s\n"`
unfoldable pub result_line : Result → Text
result_line r =
    glyph r.status
    ++ lit " ["
    ++ group_name r.source
    ++ lit "] "
    ++ r.check
    ++ lit " — "
    ++ r.message
    ++ 10 ∷ []

-- `"\n%s (%d checks, %d failed, %d warnings)\n"`
unfoldable pub summary_line : Text → ℕ → ℕ → ℕ → Text
summary_line verdict total fails warns =
    10 ∷ verdict
    ++ lit " ("
    ++ decimal total
    ++ lit " checks, "
    ++ decimal fails
    ++ lit " failed, "
    ++ decimal warns
    ++ lit " warnings)"
    ++ 10 ∷ []

-- The counters of fails and warns behind a result.
unfoldable pub tally : Status → ℕ × ℕ → ℕ × ℕ
tally fail (fails, warns) = (suc fails, warns)
tally warn (fails, warns) = (fails, suc warns)
tally pass n = n
tally skip n = n
tally (other k) n = n

unfoldable pub verdict_text : Report → Text
verdict_text rep = elim (worst rep) [ fail ↦ lit "FAIL" | _ ↦ lit "PASS" ]

module _ {S : Type 0} (w : Writer S) where
  -- The loop, with the counters so far.
  unfoldable pub write_results : List Result → ℕ × ℕ → S → S × Returned (ℕ × ℕ)
  write_results [] n s = (s, ok n)
  write_results (r ∷ rs) n s =
      let (s1, e) = w.write (result_line r) s in
      let rest = write_results rs (tally r.status n) s1 in
      elim e [ some why ↦ (s1, err why) | none ↦ rest ]

  unfoldable pub write_text : Report → S → S × Option Text
  write_text rep s =
      let (s1, counted) = write_results rep.results (0, 0) s in
      elim counted [
        | err e ↦ (s1, some e)
        | ok (fails, warns) ↦
            w.write (summary_line (verdict_text rep) (length rep.results) fails warns) s1
      ]
