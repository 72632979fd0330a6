-- ===== src/Report/Document/Names.antt =====
-- The name of a check is put together again from its category and its step.
use server_validator.Prelude.{◌≡◌, ◌⊎◌, inl, inr, [], ◌∷◌, ◌++◌, arith, Option-cases}
use server_validator.Text.{Text}
use server_validator.Text.Search.{Lacks, after_byte, after_byte_split, after_byte-none}
use server_validator.Report.Document.{split_check}

-- Either the name has no slash, is the category, and the step is empty; or it is the category, a
-- slash and the step, and the category has no slash.
split_check_lem :
    (check : Text)
    → let (category, step) = split_check check in
      (Lacks b'/' check × (category ≡ check) × (step ≡ []))
      ⊎ (Lacks b'/' category × (check ≡ category ++ b'/' ∷ step))
unfolding split_check
split_check_lem check = elim (Option-cases (after_byte b'/' check)) [
  | inl e ↦ inl (after_byte-none b'/' check e, ground arith, ground arith)
  | inr (step, e) ↦
      let (clean, joined) = after_byte_split b'/' check step e in
      inr (rw (e, split_check) clean, rw (e, split_check) joined)
]
