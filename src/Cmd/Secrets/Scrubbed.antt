-- ===== src/Cmd/Secrets/Scrubbed.antt =====
-- No secret is left in a text that was scrubbed.
use server_validator.Prelude.{◌≡◌, ◌≢◌, ◌⊎◌, inl, inr, refl, sym, false, List, [], ◌∷◌, All, Any}
use mathlib.Core.Path.{subst}
use server_validator.Text.{Text}
use server_validator.Text.Search.{contains, Lacks}
use server_validator.Text.Replace.{
  replace_all, star, stars, contains-replace_all_self, contains-replace_all,
}
use server_validator.Cmd.Secrets.{scrub}

-- Masking other secrets leaves a text without the secret.
scrub-keeps :
    (p s : Text) (secrets : List Text)
    → p ≢ []
    → Lacks star p
    → contains s p ≡ false
    → contains (scrub s secrets) p ≡ false
unfolding scrub
scrub-keeps p s [] n h e = e
scrub-keeps p s ([] ∷ secrets) n h e = scrub-keeps p s secrets n h e
scrub-keeps p s ((k ∷ ks) ∷ secrets) n h e =
    scrub-keeps p (replace_all k ks stars s) secrets n h (contains-replace_all k ks s p n h e)

-- A scrubbed text does not hold a secret of the list that is not empty and has no star.
pub contains-scrub_of :
    (p s : Text) (secrets : List Text)
    → p ≢ []
    → Lacks star p
    → Any (λ q. q ≡ p) secrets
    → contains (scrub s secrets) p ≡ false
unfolding scrub
contains-scrub_of p s [] n h i = absurd i
contains-scrub_of p s ([] ∷ secrets) n h (inl e) = absurd (n (sym e))
contains-scrub_of p s ([] ∷ secrets) n h (inr i) = contains-scrub_of p s secrets n h i
contains-scrub_of p s ((k ∷ ks) ∷ secrets) n h (inl e) =
    scrub-keeps p (replace_all k ks stars s) secrets n h
      (rw (← e) (contains-replace_all_self k ks s (subst (λ t. Lacks star t) (sym e) h)))
contains-scrub_of p s ((k ∷ ks) ∷ secrets) n h (inr i) =
    contains-scrub_of p (replace_all k ks stars s) secrets n h i

-- A scrubbed text holds none of the secrets that are not empty and have no star.
contains-scrub :
    (s : Text) (secrets : List Text)
    → All (Lacks star) secrets
    → All (λ p. (p ≡ []) ⊎ (contains (scrub s secrets) p ≡ false)) secrets
unfolding scrub
contains-scrub s [] h = tt
contains-scrub s ([] ∷ secrets) h = (inl refl, contains-scrub s secrets h.1)
contains-scrub s ((k ∷ ks) ∷ secrets) h = (
  inr (
      scrub-keeps (k ∷ ks) (replace_all k ks stars s) secrets (λ e. cc) h.0
        (contains-replace_all_self k ks s h.0)),
  contains-scrub (replace_all k ks stars s) secrets h.1,
)
