-- ===== src/Cmd/Run/Hidden.antt =====
-- A configuration that cannot be loaded: what is said about it shows no secret of the argument.
use server_validator.Prelude.{
  ℕ, ◌≡◌, ◌≢◌, ◌⊎◌, inl, inr, refl, ◌∙◌, List, [], ◌∷◌, ◌++◌, some, Any, false,
}
use server_validator.Text.{Text, lit}
use server_validator.Text.Search.{contains, Lacks}
use server_validator.Text.Replace.{star}
use server_validator.Config.{load}
use server_validator.Sink.Dsn.{ok, err}
use server_validator.Cmd.Secrets.{sniff, redaction_secrets, scrub}
use server_validator.Cmd.Secrets.Scrubbed.{contains-scrub_of}
use server_validator.Cmd.Secrets.Sniff.{First, sniff_iff}
use server_validator.Cmd.Overrides.{Overrides}
use server_validator.Cmd.Run.{Machine, report_error, load_failed, run}
use server_validator.Cmd.Run.Steps.{run-parsed, run_parsed-failed}

Any-append_left : {A : Type 0} (P : A → Type 0) (xs ys : List A) → Any P xs → Any P (xs ++ ys)
Any-append_left P [] ys i = absurd i
Any-append_left P (x ∷ xs) ys (inl p) = inl p
Any-append_left P (x ∷ xs) ys (inr i) = inr (Any-append_left P xs ys i)

Any-append_right : {A : Type 0} (P : A → Type 0) (xs ys : List A) → Any P ys → Any P (xs ++ ys)
Any-append_right P [] ys i = i
Any-append_right P (x ∷ xs) ys i = inr (Any-append_right P xs ys i)

sniff-eq : (name field s v : Text) → name ≡ field → sniff name s ≡ some v → sniff field s ≡ some v
sniff-eq name field s v e h = cc (e, h)

-- The first field "apiKey" and the first field "db_pass" of the argument are among the secrets.
redaction_secrets_sniffed :
    (getenv : Text → Text) (arg name : Text) (c : ℕ) (v : Text)
    → (name ≡ lit "apiKey") ⊎ (name ≡ lit "db_pass")
    → sniff name arg ≡ some (c ∷ v)
    → Any (λ q. q ≡ c ∷ v) (redaction_secrets getenv arg)
unfolding redaction_secrets
redaction_secrets_sniffed getenv arg name c v (inl e) h =
    rw (sniff-eq name (lit "apiKey") arg (c ∷ v) e h, redaction_secrets)
      (Any-append_left (λ q. q ≡ c ∷ v) ((c ∷ v) ∷ []) _ (inl refl))
redaction_secrets_sniffed getenv arg name c v (inr e) h =
    rw (sniff-eq name (lit "db_pass") arg (c ∷ v) e h, redaction_secrets)
      (Any-append_right (λ q. q ≡ c ∷ v) _ ((c ∷ v) ∷ []) (inl refl))

-- If the configuration cannot be loaded, the run exits with 2, and all that it says comes from a
-- message that does not show the first "apiKey" or "db_pass" of the argument, which is not empty
-- and has no star.
pub run-hidden :
    (m : Machine) (program : Text) (args : List Text) (o : Overrides) (arg e name v : Text)
    → m.parse_flags args ≡ ok (o, arg ∷ [])
    → load m.fmt m.host arg ≡ err e
    → (name ≡ lit "apiKey") ⊎ (name ≡ lit "db_pass")
    → First name v arg
    → v ≢ []
    → Lacks star v
    → (msg : Text) × (run m (program ∷ args)
        ≡ (report_error m o.json_out (lit "config error:") msg [], some 2))
      × (contains msg v ≡ false)
unfolding load_failed
run-hidden m program args o arg e name [] p q which f n h = absurd (n refl)
run-hidden m program args o arg e name (c ∷ v) p q which f n h =
    let secrets = redaction_secrets m.host.getenv arg in
    (
      scrub e secrets,
      run-parsed m program args o (arg ∷ []) p ∙ run_parsed-failed m o arg e q,
      contains-scrub_of (c ∷ v) e secrets n h (
          redaction_secrets_sniffed m.host.getenv arg name c v which
            ((sniff_iff name arg (c ∷ v)).1 f)),
    )
