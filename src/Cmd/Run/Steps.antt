-- ===== src/Cmd/Run/Steps.antt =====
-- What a run comes to, once the answers that it waits for are known.
use server_validator.Prelude.{◌≡◌, refl, ◌∙◌, List, [], ◌∷◌, some}
use server_validator.Text.{Text}
use server_validator.Config.{Config, load}
use server_validator.Sink.Dsn.{ok, err}
use server_validator.Validator.Status.{Report}
use server_validator.Cmd.Overrides.{Overrides, apply_overrides}
use server_validator.Cmd.Run.{
  Machine, load_failed, run_failed, deliver, run_loaded, run_parsed, run,
}

module _ (m : Machine) where
  pub run_loaded-report :
      (o : Overrides) (cfg : Config) (rep : Report)
      → m.validated cfg ≡ some (ok rep)
      → run_loaded m o cfg ≡ deliver m o cfg rep
  unfolding run_loaded
  run_loaded-report o cfg rep q = rw (q, run_loaded) refl

  pub run_loaded-failed :
      (o : Overrides) (cfg : Config) (e : Text)
      → m.validated cfg ≡ some (err e)
      → run_loaded m o cfg ≡ (run_failed m o cfg e, some 2)
  unfolding run_loaded
  run_loaded-failed o cfg e q = rw (q, run_loaded) refl

  pub run_parsed-loaded :
      (o : Overrides) (arg : Text) (cfg : Config)
      → load m.fmt m.host arg ≡ ok cfg
      → run_parsed m o (arg ∷ []) ≡ run_loaded m o (apply_overrides cfg o)
  unfolding run_parsed
  run_parsed-loaded o arg cfg q = rw (q, run_parsed) refl

  pub run_parsed-failed :
      (o : Overrides) (arg e : Text)
      → load m.fmt m.host arg ≡ err e
      → run_parsed m o (arg ∷ []) ≡ (load_failed m o arg e, some 2)
  unfolding run_parsed
  run_parsed-failed o arg e q = rw (q, run_parsed) refl

  pub run-parsed :
      (name : Text) (args : List Text) (o : Overrides) (rest : List Text)
      → m.parse_flags args ≡ ok (o, rest)
      → run m (name ∷ args) ≡ run_parsed m o rest
  unfolding run
  run-parsed name args o rest q = rw (q, run) refl

  -- A run up to its configuration.
  pub run-loaded :
      (name : Text) (args : List Text) (o : Overrides) (arg : Text) (cfg : Config)
      → m.parse_flags args ≡ ok (o, arg ∷ [])
      → load m.fmt m.host arg ≡ ok cfg
      → run m (name ∷ args) ≡ run_loaded m o (apply_overrides cfg o)
  run-loaded name args o arg cfg p q =
      run-parsed name args o (arg ∷ []) p ∙ run_parsed-loaded o arg cfg q
