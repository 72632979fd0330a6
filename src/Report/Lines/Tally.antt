-- ===== src/Report/Lines/Tally.antt =====
-- The text of a report is one line for each result and a summary.
use server_validator.Prelude.{
  ℕ, ◌+◌, ◌≡◌, refl, ap, ◌∙◌, List, [], ◌∷◌, ◌++◌, map, arith, Option, none, some, Option-cases,
  length, if◌then◌else◌, inl, inr,
}
use server_validator.Text.{Text}
use server_validator.Sink.Dsn.{Result as Returned, ok, err}
use server_validator.Validator.Status.{Status, pass, warn, fail, skip, other, Result, Report}
use server_validator.Report.Document.Tallies.{same, occurrences}
use server_validator.Report.Render.{Writer}
use server_validator.Report.Lines.Printed.{
  line_of, summary_of, result_line-printed, summary_line_lem,
}
use server_validator.Report.Lines.{
  result_line, summary_line, tally, verdict_text, write_results, write_text,
}

add_zero : (n : ℕ) → n + 0 ≡ n
add_zero n = omega arith

zero_add : (n : ℕ) → 0 + n ≡ n
zero_add n = omega arith

tally_lem :
    (s : Status) (fails warns : ℕ)
    → ((tally s (fails, warns)).0 ≡ fails + (if same fail s then 1 else 0))
      × ((tally s (fails, warns)).1 ≡ warns + (if same warn s then 1 else 0))
unfolding tally
tally_lem pass fails warns = (omega arith, omega arith)
tally_lem warn fails warns = (omega arith, omega arith)
tally_lem fail fails warns = (omega arith, omega arith)
tally_lem skip fails warns = (omega arith, omega arith)
tally_lem (other n) fails warns = (omega arith, omega arith)

map_printed : (rs : List Result) → map result_line rs ≡ map line_of rs
map_printed [] = refl
map_printed (r ∷ rs) = cc (result_line-printed r, map_printed rs)

-- A write that is taken apart by its error, and put together again.
settle :
    {S : Type 0} (p : S × Option Text)
    → (elim p.1 [ some why ↦ (p.0, some why) | none ↦ (p.0, none) ]) ≡ p
settle (s, none) = refl
settle (s, some why) = refl

module _ {S : Type 0} (w : Writer S) where
  -- The writes of a list of texts, up to the first error.
  abbrev pub write_all : List Text → S → S × Option Text
  write_all [] s = (s, none)
  write_all (t ∷ ts) s =
      let (s1, e) = w.write t s in
      let rest = write_all ts s1 in elim e [ some why ↦ (s1, some why) | none ↦ rest ]

  -- What every write keeps is kept.
  pub write_all-keeps {κ} :
      (P : S → Type κ)
      → ((t : Text) (s : S) → P s → P (w.write t s).0)
      → (ts : List Text) (s : S) → P s
      → P (write_all ts s).0
  write_all-keeps P k [] s p = p
  write_all-keeps P k (t ∷ ts) s p = elim (Option-cases (w.write t s).1) [
    | inl h ↦ rw (h, write_all) (write_all-keeps P k ts (w.write t s).0 (k t s p))
    | inr (e, h) ↦ rw (h, write_all) (k t s p)
  ]

  -- If no write fails, none of a list does.
  pub write_all-none :
      ((t : Text) (s : S) → (w.write t s).1 ≡ none)
      → (ts : List Text) (s : S) → (write_all ts s).1 ≡ none
  write_all-none n [] s = refl
  write_all-none n (t ∷ ts) s = rw (n t s, write_all) (write_all-none n ts (w.write t s).0)

  write_all_one : (t : Text) (s : S) → write_all (t ∷ []) s ≡ w.write t s
  write_all_one t s = settle (w.write t s)

  -- What `write_text` does behind the loop.
  abbrev conclude : Text → ℕ → S × Returned (ℕ × ℕ) → S × Option Text
  conclude verdict total r = elim r.1 [
    | err e ↦ (r.0, some e)
    | ok n ↦ w.write (summary_line verdict total n.0 n.1) r.0
  ]

  write_results_lem :
      (verdict : Text) (total : ℕ) (rs : List Result) (fails warns : ℕ) (s : S)
      → conclude verdict total (write_results w rs (fails, warns) s)
        ≡ write_all
            (map result_line rs
              ++ summary_line verdict total
                  (fails + occurrences fail rs)
                  (warns + occurrences warn rs)
                ∷ [])
            s
  unfolding write_results
  write_results_lem verdict total [] fails warns s =
      cc (add_zero fails, add_zero warns, write_all_one (summary_line verdict total fails warns) s)
  write_results_lem verdict total (r ∷ rs) fails warns s =
      elim (Option-cases (w.write (result_line r) s).1) [
        | inr (e, h) ↦ rw (h, write_results) refl
        | inl h ↦
            let n = tally r.status (fails, warns) in
            let counted = tally_lem r.status fails warns in
            let f : n.0 + occurrences fail rs ≡ fails + occurrences fail (r ∷ rs) =
              omega (arith, counted.0) in
            let k : n.1 + occurrences warn rs ≡ warns + occurrences warn (r ∷ rs) =
              omega (arith, counted.1) in
            rw (h, write_results)
              (cc (write_results_lem verdict total rs n.0 n.1 (w.write (result_line r) s).0, f, k))
      ]

  write_text_lines :
      (rep : Report) (s : S)
      → write_text w rep s
        ≡ write_all
            (map result_line rep.results
              ++ summary_line
                  (verdict_text rep)
                  (length rep.results)
                  (occurrences fail rep.results)
                  (occurrences warn rep.results)
                ∷ [])
            s
  unfolding write_text
  write_text_lines rep s = cc (
    zero_add (occurrences fail rep.results),
    zero_add (occurrences warn rep.results),
    write_results_lem (verdict_text rep) (length rep.results) rep.results 0 0 s,
  )

  -- The text is written as one line for each result, in order, in the format of the source with the
  -- sign of its status, "server" where there is no source, its check and its message; and a summary
  -- behind an empty line that says FAIL if a result fails and PASS if none does, how many results
  -- there are, how many fail and how many warn. It is written up to the first write that fails,
  -- whose error is returned.
  pub write_text_lem :
      (rep : Report) (s : S)
      → write_text w rep s ≡ write_all (map line_of rep.results ++ summary_of rep.results ∷ []) s
  write_text_lem rep s =
      let texts : map result_line rep.results
            ++ summary_line (verdict_text rep) (length rep.results) (occurrences fail rep.results)
                (occurrences warn rep.results)
              ∷ []
          ≡ map line_of rep.results ++ summary_of rep.results ∷ [] =
        cc (map_printed rep.results, summary_line_lem rep) in
      write_text_lines rep s ∙ ap (λ ts. write_all ts s) texts
