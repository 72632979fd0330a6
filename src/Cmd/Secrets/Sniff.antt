-- ===== src/Cmd/Secrets/Sniff.antt =====
-- The field that is found is the leftmost one that the regular expression describes.
use server_validator.Prelude.{
  ℕ, ◌==◌, ==_iff, ◌≡◌, ◌↔◌, inl, inr, refl, sym, ap, true, false, [], ◌∷◌, ◌++◌, arith, some,
  Option-cases, Bool-cases, All,
}
use server_validator.Text.{Text}
use server_validator.Cmd.Secrets.{
  double_quote, is_space, skip_space, expect, string_body, field_at, sniff,
}
use server_validator.Cmd.Secrets.Field.{IsBody, string_body_sound, string_body_complete}

abbrev IsSpace : ℕ → Type 0
IsSpace c = is_space c ≡ true

-- A text that begins with a field of this name, which holds `v`.
pub record IsField (name v s : Text) : Type 0 where
  pub before : Text
  pub after : Text
  pub rest : Text
  before_space : All IsSpace before
  after_space : All IsSpace after
  pub body : IsBody v
  shape :
      s
      ≡ (double_quote ∷ name ++ double_quote ∷ [])
        ++ (before ++ b':' ∷ (after ++ double_quote ∷ (v ++ double_quote ∷ rest)))

-- The first place of a text at which a field of this name begins, which holds `v`.
pub data First (name v : Text) : Text → Type 0 where
  here : (s : Text) → IsField name v s → First name v s
  later :
      (c : ℕ) (s : Text)
      → ((u : Text) → ¬ IsField name u (c ∷ s))
      → First name v s
      → First name v (c ∷ s)

expect_complete : (p s : Text) → expect p (p ++ s) ≡ some s
unfolding expect
expect_complete [] s = refl
expect_complete (c ∷ p) s = rw ((==_iff c c).1 refl) (expect_complete p s)

expect_sound : (p s rest : Text) → expect p s ≡ some rest → s ≡ p ++ rest
unfolding expect
expect_sound [] s rest h = cc
expect_sound (c ∷ p) [] rest h = absurd cc
expect_sound (c ∷ p) (d ∷ s) rest h = elim (Bool-cases (c == d)) [
  | inl e ↦
      let tail : expect p s ≡ some rest = ground arith in
      rw (sym ((==_iff c d).0 e)) (ap (λ t. c ∷ t) (expect_sound p s rest tail))
  | inr e ↦ absurd (ground arith)
]

skip_space_complete :
    (w : Text) (c : ℕ) (s : Text)
    → All IsSpace w
    → is_space c ≡ false
    → skip_space (w ++ c ∷ s) ≡ c ∷ s
unfolding skip_space
skip_space_complete [] c s h n = rw n refl
skip_space_complete (d ∷ w) c s h n = rw (h.0) (skip_space_complete w c s h.1 n)

skip_space_sound : (s : Text) → (w : Text) × All IsSpace w × (s ≡ w ++ skip_space s)
unfolding skip_space
skip_space_sound [] = ([], tt, refl)
skip_space_sound (c ∷ s) = elim (Bool-cases (is_space c)) [
  | inl e ↦ let (w, a, p) = skip_space_sound s in (c ∷ w, (e, a), rw e (ap (λ t. c ∷ t) p))
  | inr e ↦ ([], tt, rw e refl)
]

field_at_sound : (name s v : Text) → field_at name s ≡ some v → IsField name v s
unfolding field_at
field_at_sound name s v h =
    elim (Option-cases (expect (double_quote ∷ name ++ double_quote ∷ []) s)) [
      | inl e ↦ absurd (ground arith)
      | inr (s1, e1) ↦ elim (Option-cases (expect (b':' ∷ []) (skip_space s1))) [
        | inl e ↦ absurd (ground arith)
        | inr (s2, e2) ↦ elim (Option-cases (expect (double_quote ∷ []) (skip_space s2))) [
          | inl e ↦ absurd (ground arith)
          | inr (s3, e3) ↦ elim (Option-cases (string_body s3)) [
            | inl e ↦ absurd (ground arith)
            | inr ((u, rest), e4) ↦
                (let (w1, a1, p1) = skip_space_sound s1 in
                  let (w2, a2, p2) = skip_space_sound s2 in
                  let same : u ≡ v = ground arith in
                  let (b, p3) = string_body_sound s3 v rest (rw (← same) e4) in
                  record {
                    before = w1;
                    after = w2;
                    rest = rest;
                    before_space = a1;
                    after_space = a2;
                    body = b;
                    shape =
                        cc (expect_sound _ s s1 e1, expect_sound _ _ s2 e2, expect_sound _ _ s3 e3);
                  })
          ]
        ]
      ]
    ]

field_at_complete : (name s v : Text) → IsField name v s → field_at name s ≡ some v
unfolding field_at expect
field_at_complete name s v f =
    rw
      (
        f.shape,
        expect_complete (double_quote ∷ name ++ double_quote ∷ []) _,
        skip_space_complete f.before b':' _ f.before_space refl,
        skip_space_complete f.after double_quote _ f.after_space refl,
        string_body_complete v f.rest f.body,
      )
      refl

sniff_sound : (name s v : Text) → sniff name s ≡ some v → First name v s
unfolding sniff
sniff_sound name [] v h = here [] (field_at_sound name [] v h)
sniff_sound name (c ∷ s) v h = elim (Option-cases (field_at name (c ∷ s))) [
  | inl e ↦
      later c s (λ u f. cc (field_at_complete name (c ∷ s) u f))
        (sniff_sound name s v (ground arith))
  | inr (u, e) ↦ here (c ∷ s) (field_at_sound name (c ∷ s) v (ground arith))
]

sniff_complete : (name v s : Text) → First name v s → sniff name s ≡ some v
unfolding sniff
sniff_complete name v t (here [] f) = field_at_complete name [] v f
sniff_complete name v t (here (c ∷ s) f) = rw (field_at_complete name (c ∷ s) v f, sniff) refl
sniff_complete name v t (later c s n f) = elim (Option-cases (field_at name (c ∷ s))) [
  | inl e ↦ rw (e, sniff) (sniff_complete name v s f)
  | inr (u, e) ↦ absurd (n u (field_at_sound name (c ∷ s) u e))
]

-- The value that is found in a text is that of the field of this name that begins leftmost.
pub sniff_iff : (name s v : Text) → (sniff name s ≡ some v) ↔ First name v s
sniff_iff name s v = (sniff_sound name s v, sniff_complete name v s)
