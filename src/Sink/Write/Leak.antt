-- ===== src/Sink/Write/Leak.antt =====
-- sink/sink.go: a password that `redactErr` leaves in the form of the connection string.
use server_validator.Prelude.{ℕ, ◌≡◌, refl, false, [], ◌∷◌, arith, Any, inl, inr}
use server_validator.Text.{Text}
use server_validator.Text.Search.{starts_with, contains, Lacks}
use server_validator.Text.Replace.{stars, replace_all-eq_self}
use server_validator.Text.Escape.{
  query_escape, userinfo_escape, query_escape-plus, userinfo_escape-Lacks_space,
  userinfo_escape-Lacks_plus,
}
use server_validator.Sink.Write.{redact_err}

-- What holds a byte is not in a text that lacks it.
starts_with-Lacks : (b : ℕ) (s p : Text) → Lacks b s → Any (λ c. c ≡ b) p → starts_with s p ≡ false
unfolding starts_with
starts_with-Lacks b s [] l h = absurd h
starts_with-Lacks b [] (d ∷ p) l h = refl
starts_with-Lacks b (c ∷ s) (d ∷ p) l (inl e) = ground (arith, l.0)
starts_with-Lacks b (c ∷ s) (d ∷ p) l (inr h) = ground (arith, starts_with-Lacks b s p l.1 h)

contains-Lacks : (b : ℕ) (s p : Text) → Lacks b s → Any (λ c. c ≡ b) p → contains s p ≡ false
unfolding contains
contains-Lacks b [] p l h = starts_with-Lacks b [] p l h
contains-Lacks b (c ∷ s) p l h =
    ground (arith, starts_with-Lacks b (c ∷ s) p l h, contains-Lacks b s p l.1 h)

-- A second pass for an encoding that the text does not hold.
second_pass-eq_self :
    (p : ℕ) (ps s enc : Text)
    → contains s (p ∷ ps) ≡ false
    → contains s enc ≡ false
    → enc ≡ query_escape (p ∷ ps)
    → redact_err (p ∷ ps) s ≡ s
unfolding redact_err
second_pass-eq_self p ps s [] h k e = ground (arith, replace_all-eq_self p ps stars s h)
second_pass-eq_self p ps s (c ∷ cs) h k e =
    ground (arith, replace_all-eq_self p ps stars s h, replace_all-eq_self c cs stars s k)

-- A password with a space and without a plus sign stays whole in an error that shows it in the form of
-- the connection string.
redact_err-userinfo_escape :
    (pass : Text)
    → Any (λ c. c ≡ b' ') pass
    → Lacks b'+' pass
    → redact_err pass (userinfo_escape pass) ≡ userinfo_escape pass
redact_err-userinfo_escape [] h l = absurd h
redact_err-userinfo_escape (p ∷ ps) h l =
    second_pass-eq_self p ps (userinfo_escape (p ∷ ps)) (query_escape (p ∷ ps))
      (contains-Lacks b' ' (userinfo_escape (p ∷ ps)) (p ∷ ps)
        (userinfo_escape-Lacks_space (p ∷ ps)) h)
      (contains-Lacks b'+' (userinfo_escape (p ∷ ps)) (query_escape (p ∷ ps))
        (userinfo_escape-Lacks_plus (p ∷ ps) l) (query_escape-plus (p ∷ ps) h))
      refl
