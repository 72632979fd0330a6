-- ===== src/Validator/ServiceAlerts/Safety.antt =====
-- The check of the alerts panics only at a negative sample size.
use server_validator.Prelude.{
  ◌≡◌, inl, inr, refl, List, [], ◌∷◌, ◌++◌, arith, some, Option-cases, List-cases,
}
use server_validator.Prelude.Int.{pos, ◌<ℤ◌}
use server_validator.Text.{Text, lit}
use server_validator.GoMap.{lookup}
use server_validator.Validator.Status.{warn, fail, Result}
use server_validator.Validator.Status.Severity.{IsTried}
use server_validator.Validator.Redaction.{redact}
use server_validator.Validator.Ids.{prefixed_id}
use server_validator.Validator.Sampling.{sample_by_id}
use server_validator.Validator.Sampling.Sample.{sample_by_id-none_iff}
use server_validator.Validator.Context.{Env, SourceContext, ValidationContext}
use server_validator.Validator.Loop.{Yields, each-Yields}
use server_validator.Validator.Arrivals.{query_arrivals, query_arrivals-IsTried, Sum-cases}
use server_validator.Validator.ServiceAlerts.{
  SampleAlert, usable_alerts, flags_of, alert_agency, alert_outcome, judge_alert, check_alert,
  crossref_alerts, alerts_of, run_service_alerts,
}

module _ (env : Env) (vc : ValidationContext) (src : SourceContext) where
  open env use {World}

  abbrev Tried : Result → Type 0
  Tried = IsTried src.label

  check_alert-Yields :
      (agency : Text) (s : SampleAlert) (w : World)
      → Yields Tried (check_alert env vc src agency s w)
  unfolding check_alert judge_alert alert_outcome
  check_alert-Yields agency s w =
      let stop = prefixed_id agency s.raw_stop in
      let asked = query_arrivals env vc (lit "service-alert-crossref") src.label stop w in
      elim (Sum-cases asked.0) [
        | inr (bad, e) ↦ (
          bad ∷ [],
          asked.1,
          ground arith,
          (query_arrivals-IsTried env vc (lit "service-alert-crossref") src.label stop w bad e, tt),
        )
        | inl (ad, e) ↦
            let r = judge_alert env vc src stop s (flags_of s.alert.id agency ad) in
            (r ∷ [], asked.1, ground arith, (ground arith, tt))
      ]

  crossref_alerts-Yields :
      (usable : List SampleAlert) (w : World)
      → ¬ (vc.config.sample_size <ℤ pos 0)
      → Yields Tried (crossref_alerts env vc src usable w)
  unfolding crossref_alerts alert_outcome
  crossref_alerts-Yields [] w h = (
    alert_outcome env vc src warn (lit "no alert references a stop id we can cross-check") [] ∷ [],
    w,
    refl,
    ((refl, inr (inl refl)), tt),
  )
  crossref_alerts-Yields (u ∷ us) w h =
      elim (Option-cases
        (sample_by_id (λ (s : SampleAlert). s.alert.id) (u ∷ us) vc.config.sample_size)) [
          | inl e ↦ absurd (
              h (
                (sample_by_id-none_iff (λ (s : SampleAlert). s.alert.id) (u ∷ us)
                    vc.config.sample_size).0
                  e))
          | inr (sample, e) ↦
              rw (e, crossref_alerts)
                (each-Yields (check_alert env vc src (alert_agency src)) Tried
                  (check_alert-Yields (alert_agency src)) sample w)
        ]

  -- At a sample size that is not negative the check does not panic, and each of its results is for
  -- the source and passes, warns or fails.
  pub run_service_alerts-Yields :
      (w : World)
      → ¬ (vc.config.sample_size <ℤ pos 0)
      → Yields Tried (run_service_alerts env vc src w)
  unfolding run_service_alerts alert_outcome
  run_service_alerts-Yields w h =
      elim (Option-cases (lookup (lit "serviceAlerts") src.prep_errors)) [
        | inr (e, p) ↦ (
          alert_outcome env vc src fail
                (lit "service alerts feed unavailable: " ++ redact (some e) vc.config.api_key) []
              ∷ [],
          w,
          ground arith,
          ((refl, inr (inr refl)), tt),
        )
        | inl p ↦ elim (List-cases (alerts_of env vc src)) [
          | inl r ↦ (
            alert_outcome env vc src warn (lit "no alerts in feed to sample") [] ∷ [],
            w,
            ground arith,
            ((refl, inr (inl refl)), tt),
          )
          | inr (a, as', r) ↦
              let same : run_service_alerts env vc src w
                  ≡ crossref_alerts env vc src (usable_alerts (a ∷ as')) w =
                ground arith in
              rw (same, run_service_alerts) (crossref_alerts-Yields (usable_alerts (a ∷ as')) w h)
        ]
      ]
