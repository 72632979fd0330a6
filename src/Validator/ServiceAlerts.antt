-- ===== src/Validator/ServiceAlerts.antt =====
-- validator/check_alerts.go: the alerts of the feed against the situations at their stops.
pub mod Situations
pub mod Safety
use server_validator.Prelude.{
  ◌⊎◌, inl, inr, Bool, true, false, not, ◌||◌, List, [], ◌∷◌, ◌++◌, Option, none, some,
  if◌then◌else◌,
}
use server_validator.Text.{Text, lit, is_empty}
use server_validator.GoMap.{lookup}
use server_validator.Feeds.Gtfs.{Alert, Realtime}
use server_validator.Feeds.Static.{ParsedStatic}
use server_validator.Validator.Status.{Status, pass, warn, fail, text, Details, Result}
use server_validator.Validator.Redaction.{redact}
use server_validator.Validator.Ids.{prefixed_id, id_match}
use server_validator.Validator.Sampling.{sample_by_id}
use server_validator.Validator.Context.{
  Arrival, Arrivals, Env, SourceContext, map_agency, ValidationContext,
}
use server_validator.Validator.Arrivals.{query_arrivals}
use server_validator.Validator.Loop.{each}

pub record SampleAlert : Type 0 where
  pub alert : Alert
  pub raw_stop : Text

-- The first stop id of the informed entities that is neither nil nor empty.
unfoldable pub first_stop : List (Option Text) → Option Text
first_stop [] = none
first_stop (none ∷ rest) = first_stop rest
first_stop (some s ∷ rest) = if is_empty s then first_stop rest else some s

unfoldable pub usable_alerts : List Alert → List SampleAlert
usable_alerts [] = []
usable_alerts (a ∷ rest) = elim (first_stop a.informed_stops) [
  | none ↦ usable_alerts rest
  | some s ↦ record { alert = a; raw_stop = s } ∷ usable_alerts rest
]

-- The flags `anySituation` and `matched`.
pub record Flags : Type 0 where
  pub any_situation : Bool
  pub matched : Bool

-- One round of the inner loop and of the last one.
unfoldable pub see : Text → Text → Text → Flags → Flags
see alert_id agency sid f = record {
  any_situation = true;
  matched = (if id_match sid alert_id agency then true else f.matched);
}

unfoldable pub see_all : Text → Text → List Text → Flags → Flags
see_all alert_id agency [] f = f
see_all alert_id agency (sid ∷ sids) f = see_all alert_id agency sids (see alert_id agency sid f)

unfoldable pub see_arrivals : Text → Text → List Arrival → Flags → Flags
see_arrivals alert_id agency [] f = f
see_arrivals alert_id agency (a ∷ rest) f =
    see_arrivals alert_id agency rest (see_all alert_id agency a.situation_ids f)

-- Both loops over an answer.
unfoldable pub flags_of : Text → Text → Arrivals → Flags
flags_of alert_id agency ad =
    see_all alert_id agency ad.situations
      (see_arrivals alert_id agency ad.arrivals (record { any_situation = false; matched = false }))

-- The agency that is taken for every alert: the source's first one.
unfoldable pub alert_agency : SourceContext → Text
alert_agency src = elim src.static [
  | none ↦ []
  | some p ↦ elim p.agency_ids [ [] ↦ [] | gid ∷ rest ↦ (map_agency src gid).0 ]
]

module _ (env : Env) (vc : ValidationContext) (src : SourceContext) where
  open env use {World}

  unfoldable pub alert_outcome : Status → Text → Details → Result
  alert_outcome st msg det = record {
    check = lit "service-alert-crossref";
    source = src.label;
    status = st;
    message = msg;
    details = det;
  }

  -- The `switch` on the flags.
  unfoldable pub judge_alert : Text → SampleAlert → Flags → Result
  judge_alert oba_stop s f =
      let stop = env.fmt.quote s.raw_stop in
      let id = env.fmt.quote s.alert.id in
      let det = (lit "stopId", text oba_stop) ∷ (lit "feedAlertId", text s.alert.id) ∷ [] in
      if f.matched
      then alert_outcome pass (lit "alert " ++ id ++ lit " surfaced at stop " ++ stop) []
      else if not f.any_situation
      then alert_outcome fail
          (lit "stop "
            ++ stop
            ++ lit " has no situations though feed alert "
            ++ id
            ++ lit " affects it")
          det
      else alert_outcome warn
          (lit "stop "
            ++ stop
            ++ lit " has situations but none matched feed alert "
            ++ id
            ++ lit " (OBA may re-id situations)")
          det

  -- One round of the loop over the sample.
  unfoldable pub check_alert : Text → SampleAlert → World → Option (List Result × World)
  check_alert agency s w =
      let oba_stop = prefixed_id agency s.raw_stop in
      let (answer, w') =
        query_arrivals env vc (lit "service-alert-crossref") src.label oba_stop w in
      elim answer [
        | inr bad ↦ some (bad ∷ [], w')
        | inl ad ↦ some (judge_alert oba_stop s (flags_of s.alert.id agency ad) ∷ [], w')
      ]

  unfoldable pub crossref_alerts : List SampleAlert → World → Option (List Result × World)
  crossref_alerts usable w = elim usable [
    | [] ↦
        some
          (alert_outcome warn (lit "no alert references a stop id we can cross-check") [] ∷ [], w)
    | u ∷ us ↦ elim (sample_by_id (λ s. s.alert.id) (u ∷ us) vc.config.sample_size) [
      | none ↦ none
      | some sample ↦ each (check_alert (alert_agency src)) sample w
    ]
  ]

  -- The alerts of the feed; none where there is no feed.
  unfoldable pub alerts_of : List Alert
  alerts_of = elim src.service_alerts [ none ↦ [] | some rt ↦ rt.alerts ]

  unfoldable pub run_service_alerts : World → Option (List Result × World)
  run_service_alerts w = elim (lookup (lit "serviceAlerts") src.prep_errors) [
    | some e ↦ some (
      alert_outcome fail
            (lit "service alerts feed unavailable: " ++ redact (some e) vc.config.api_key) []
          ∷ [],
      w,
    )
    | none ↦ elim alerts_of [
      | [] ↦ some (alert_outcome warn (lit "no alerts in feed to sample") [] ∷ [], w)
      | a ∷ as' ↦ crossref_alerts (usable_alerts (a ∷ as')) w
    ]
  ]
