-- ===== src/Sink/Write/Redacted.antt =====
-- `redactErr` removes the password, as it is and as `url.QueryEscape` writes it. The connection string
-- has it as `url.UserPassword` writes it, which is not the same for every password.
use server_validator.Prelude.{ℕ, ◌≡◌, ◌≢◌, ◌⊎◌, inl, inr, refl, Any, true, false, [], ◌∷◌, arith}
use server_validator.Text.{Text, text_eq_iff}
use server_validator.Text.Search.{contains, Lacks}
use server_validator.Text.Replace.{
  replace_all, star, stars, contains-replace_all_self, contains-replace_all,
}
use server_validator.Text.Escape.{
  query_escape, query_escape-Lacks, query_escape-ne-nil, userinfo_escape, userinfo_escape_lem,
  is_apart,
}
use server_validator.Sink.Write.{redact_err}

-- A second pass, made where the encoding `enc` differs from the password.
second_pass :
    (p : ℕ) (ps s enc : Text)
    → Lacks star (p ∷ ps)
    → enc ≢ []
    → Lacks star enc
    → enc ≡ query_escape (p ∷ ps)
    → (contains (redact_err (p ∷ ps) s) (p ∷ ps) ≡ false)
      × (contains (redact_err (p ∷ ps) s) (query_escape (p ∷ ps)) ≡ false)
unfolding redact_err
second_pass p ps s [] h n k e = absurd (n refl)
second_pass p ps s (c ∷ cs) h n k e = ground (
  arith,
  text_eq_iff (c ∷ cs) (p ∷ ps),
  contains-replace_all_self p ps s h,
  contains-replace_all_self c cs (replace_all p ps stars s) k,
  contains-replace_all c cs (replace_all p ps stars s) (p ∷ ps),
)

-- An error that went through `redactErr` shows neither a password that is not empty and has no
-- star, nor its URL-encoded form.
pub contains-redact_err :
    (pass s : Text)
    → pass ≢ []
    → Lacks star pass
    → (contains (redact_err pass s) pass ≡ false)
      × (contains (redact_err pass s) (query_escape pass) ≡ false)
contains-redact_err [] s n h = absurd (n refl)
contains-redact_err (p ∷ ps) s n h =
    second_pass p ps s (query_escape (p ∷ ps)) h (query_escape-ne-nil p ps)
      (query_escape-Lacks (p ∷ ps)) refl

-- What of the password an error must not show: the password as it is, its form in a query, and its
-- form in the connection string, unless it has a byte that the two forms write differently.
abbrev pub Hides : Text → Text → Type 0
Hides pass e =
    (contains e pass ≡ false)
    × (contains e (query_escape pass) ≡ false)
    × ((contains e (userinfo_escape pass) ≡ false) ⊎ Any (λ c. is_apart c ≡ true) pass)

pub redact_err-Hides :
    (pass s : Text) → pass ≢ [] → Lacks star pass → Hides pass (redact_err pass s)
redact_err-Hides pass s n h =
    let (raw, query) = contains-redact_err pass s n h in
    (
      raw,
      query,
      elim (userinfo_escape_lem pass) [ inl same ↦ inl (rw same query) | inr apart ↦ inr apart ],
    )
