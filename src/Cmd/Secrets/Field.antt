-- ===== src/Cmd/Secrets/Field.antt =====
-- The hand-written matcher finds what the regular expressions describe.
use server_validator.Prelude.{
  ℕ, ◌==◌, ◌≡◌, ◌≢◌, ◌⊎◌, inl, inr, refl, sym, ap, ◌∙◌, false, [], ◌∷◌, ◌++◌, arith, Option, none,
  some,
}
use server_validator.Text.{Text}
use server_validator.Cmd.Secrets.{double_quote, backslash, prepend, string_body}

-- The texts of `(?:\\.|[^"\\])*`.
pub data IsBody : Text → Type 0 where
  done : IsBody []
  escaped : (c d : ℕ) (s : Text) → c ≡ backslash → d ≢ 10 → IsBody s → IsBody (c ∷ d ∷ s)
  plain : (c : ℕ) (s : Text) → c ≢ double_quote → c ≢ backslash → IsBody s → IsBody (c ∷ s)

test_ne : (a b : ℕ) → a ≢ b → (a == b) ≡ false
test_ne a b n = ground arith

string_body-escaped :
    (c d : ℕ) (s : Text)
    → c ≡ backslash
    → d ≢ 10
    → string_body (c ∷ d ∷ s) ≡ prepend (c ∷ d ∷ []) (string_body s)
unfolding string_body
string_body-escaped c d s e n = rw (e, test_ne d 10 n, string_body) refl

string_body-plain :
    (c : ℕ) (s : Text)
    → c ≢ double_quote
    → c ≢ backslash
    → string_body (c ∷ s) ≡ prepend (c ∷ []) (string_body s)
unfolding string_body
string_body-plain c [] n m = rw (test_ne c double_quote n, string_body) refl
string_body-plain c (d ∷ s) n m =
    rw (test_ne c double_quote n, test_ne c backslash m, string_body) refl

string_body-quote : (s : Text) → string_body (double_quote ∷ s) ≡ some ([], s)
unfolding string_body
string_body-quote [] = refl
string_body-quote (d ∷ s) = refl

pub string_body_complete :
    (v rest : Text) → IsBody v → string_body (v ++ double_quote ∷ rest) ≡ some (v, rest)
unfolding prepend
string_body_complete v rest done = string_body-quote rest
string_body_complete v rest (escaped c d s e n b) =
    string_body-escaped c d (s ++ double_quote ∷ rest) e n
    ∙ ap (prepend (c ∷ d ∷ [])) (string_body_complete s rest b)
string_body_complete v rest (plain c s n m b) =
    string_body-plain c (s ++ double_quote ∷ rest) n m
    ∙ ap (prepend (c ∷ [])) (string_body_complete s rest b)

-- What a prefix was put before.
prepend-some :
    (p v rest : Text) (found : Option (Text × Text))
    → prepend p found ≡ some (v, rest)
    → (u : Text) × (found ≡ some (u, rest)) × (v ≡ p ++ u)
unfolding prepend
prepend-some p v rest none h = cc
prepend-some p v rest (some (u, r)) h = (u, ground arith, ground arith)

char_cases : (c : ℕ) → (c ≡ double_quote) ⊎ (c ≡ backslash) ⊎ ((c ≢ double_quote) × (c ≢ backslash))
char_cases c = ground arith

eq_or_ne : (a b : ℕ) → (a ≡ b) ⊎ (a ≢ b)
eq_or_ne a b = ground arith

-- A text that is a body, a quote and the rest.
abbrev Split : Text → Text → Text → Type 0
Split s v rest = IsBody v × (s ≡ v ++ double_quote ∷ rest)

quote-Split :
    (c : ℕ) (s v rest : Text)
    → c ≡ double_quote
    → string_body (c ∷ s) ≡ some (v, rest)
    → Split (c ∷ s) v rest
quote-Split c s v rest e h =
    let found : ◌≡◌ {A = Option (Text × Text)} (some ([], s)) (some (v, rest)) =
      sym (string_body-quote s) ∙ ap (λ c'. string_body (c' ∷ s)) (sym e) ∙ h in
    let empty : v ≡ [] = cc in (rw empty done, rw (e, empty) cc)

escaped-Split :
    (c d : ℕ) (s v rest u : Text)
    → c ≡ backslash
    → d ≢ 10
    → v ≡ c ∷ d ∷ u
    → Split s u rest
    → Split (c ∷ d ∷ s) v rest
escaped-Split c d s v rest u e n same (b, p) =
    (rw same (escaped c d u e n b), rw same (ap (λ t. c ∷ d ∷ t) p))

plain-Split :
    (c : ℕ) (s v rest u : Text)
    → c ≢ double_quote
    → c ≢ backslash
    → v ≡ c ∷ u
    → Split s u rest
    → Split (c ∷ s) v rest
plain-Split c s v rest u n m same (b, p) = (rw same (plain c u n m b), rw same (ap (λ t. c ∷ t) p))

-- A backslash at the end, or before a line feed, is no body.
string_body-dangling : (c : ℕ) → c ≡ backslash → string_body (c ∷ []) ≡ none
unfolding string_body
string_body-dangling c e = rw e refl

string_body-broken : (c d : ℕ) (s : Text) → c ≡ backslash → d ≡ 10 → string_body (c ∷ d ∷ s) ≡ none
unfolding string_body
string_body-broken c d s e n = rw (e, n) refl

pub string_body_sound : (s v rest : Text) → string_body s ≡ some (v, rest) → Split s v rest
unfolding string_body
string_body_sound [] v rest h = cc
string_body_sound (c ∷ []) v rest h = elim (char_cases c) [
  | inl e ↦ quote-Split c [] v rest e h
  | inr (inl e) ↦ absurd (cc (string_body-dangling c e))
  | inr (inr (n, m)) ↦
      let (u, g, same) =
        prepend-some (c ∷ []) v rest (string_body []) (sym (string_body-plain c [] n m) ∙ h) in
      plain-Split c [] v rest u n m same (string_body_sound [] u rest g)
]
string_body_sound (c ∷ d ∷ s) v rest h = elim (char_cases c) [
  | inl e ↦ quote-Split c (d ∷ s) v rest e h
  | inr (inl e) ↦ elim (eq_or_ne d 10) [
    | inl l ↦ absurd (cc (string_body-broken c d s e l))
    | inr n ↦
        let (u, g, same) =
          prepend-some (c ∷ d ∷ []) v rest (string_body s)
            (sym (string_body-escaped c d s e n) ∙ h) in
        escaped-Split c d s v rest u e n same (string_body_sound s u rest g)
  ]
  | inr (inr (n, m)) ↦
      let (u, g, same) =
        prepend-some (c ∷ []) v rest (string_body (d ∷ s))
          (sym (string_body-plain c (d ∷ s) n m) ∙ h) in
      plain-Split c (d ∷ s) v rest u n m same (string_body_sound (d ∷ s) u rest g)
]
