-- ===== src/Validator/Arrivals.antt =====
-- validator/check_alerts.go: `queryArrivals`.
use server_validator.Prelude.{◌≡◌, refl, arith, ◌⊎◌, inl, inr, [], ◌∷◌, ◌++◌, none, some}
use server_validator.Text.{Text, lit}
use server_validator.Validator.Status.{warn, text, Result}
use server_validator.Validator.Status.Severity.{IsTried}
use server_validator.Validator.Redaction.{redact}
use server_validator.Validator.Context.{Arrivals, Env, ValidationContext}

module _ (env : Env) (vc : ValidationContext) where
  open env use {World}

  -- The answer, or the warning to record in its place.
  unfoldable pub query_arrivals : Text → Text → Text → World → (Arrivals ⊎ Result) × World
  query_arrivals check label oba_stop w =
      let (ad, w') = env.arrivals_for_stop oba_stop w in
      elim ad.error [
        | some e ↦ (
          inr (record {
            check = check;
            source = label;
            status = warn;
            message =
                lit "could not query stop "
                ++ env.fmt.quote oba_stop
                ++ lit " (agency prefix may be wrong): "
                ++ redact (some e) vc.config.api_key;
            details = [];
          }),
          w',
        )
        | none ↦ elim ad.body [
          | none ↦ (
            inr (record {
              check = check;
              source = label;
              status = warn;
              message =
                  lit "arrivals query for stop "
                  ++ env.fmt.quote oba_stop
                  ++ lit " returned a null response";
              details = (lit "stopId", text oba_stop) ∷ [];
            }),
            w',
          )
          | some answer ↦ (inl answer, w')
        ]
      ]

  -- The warning is for the source.
  pub query_arrivals-IsTried :
      (check label oba_stop : Text) (w : World) (bad : Result)
      → (query_arrivals check label oba_stop w).0 ≡ inr bad
      → IsTried label bad
  unfolding query_arrivals
  query_arrivals-IsTried check label oba_stop w bad e = ground arith

pub Sum-cases : {A B : Type 0} (s : A ⊎ B) → ((a : A) × (s ≡ inl a)) ⊎ ((b : B) × (s ≡ inr b))
Sum-cases (inl a) = inl (a, refl)
Sum-cases (inr b) = inr (b, refl)
