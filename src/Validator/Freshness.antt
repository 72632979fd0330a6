-- ===== src/Validator/Freshness.antt =====
-- validator/check_freshness.go: the age of each realtime feed. Durations are `int64` counts of
-- nanoseconds.
pub mod Laws
use server_validator.Prelude.{◌/◌, ◌+◌, suc, List, [], ◌∷◌, ◌++◌, Option, none, some, if◌then◌else◌}
use server_validator.Prelude.Int.{ℤ, pos, negsuc, ◌-ℤ◌, ◌*ℤ◌, ltb_ℤ, wrap}
use server_validator.Text.{Text, lit}
use server_validator.GoMap.{lookup}
use server_validator.Config.{is_zero_ℤ}
use server_validator.Feeds.Gtfs.{Realtime, Time}
use server_validator.Validator.Status.{Status, pass, warn, fail, int, Details, Result}
use server_validator.Validator.Redaction.{redact}
use server_validator.Validator.Context.{Env, SourceContext, ValidationContext}

-- `time.Duration(x) * time.Second`
unfoldable pub seconds : ℤ → ℤ
seconds x = wrap (x *ℤ pos 1000000000)

abbrev max_duration : ℤ
max_duration = pos 9223372036854775807

abbrev min_duration : ℤ
min_duration = negsuc 9223372036854775807

-- The duration nearest to an exact number of nanoseconds.
unfoldable pub saturate : ℤ → ℤ
saturate d =
    if ltb_ℤ max_duration d then max_duration else if ltb_ℤ d min_duration then min_duration else d

-- `t.Sub(u)`
unfoldable pub sub_time : Time → Time → ℤ
sub_time t u = saturate (t -ℤ u)

-- `int(age.Seconds())`: towards zero.
unfoldable pub whole_seconds : ℤ → ℤ
whole_seconds (pos n) = pos (n / 1000000000)
whole_seconds (negsuc n) = pos 0 -ℤ pos (suc n / 1000000000)

module _ (env : Env) (vc : ValidationContext) (src : SourceContext) where
  open env use {World}

  unfoldable pub freshness_result : Text → Status → Text → Details → Result
  freshness_result name st msg det = record {
    check = lit "rt-freshness/" ++ name;
    source = src.label;
    status = st;
    message = msg;
    details = det;
  }

  -- The cases of the `switch`.
  unfoldable pub aged_result : Text → ℤ → Result
  aged_result name age =
      let max_age = seconds vc.config.rt_freshness_seconds in
      if ltb_ℤ max_age age
      then freshness_result name fail (name ++ lit " stale by " ++ env.fmt.rounded_seconds age)
          ((lit "ageSeconds", int (whole_seconds age)) ∷ [])
      else if ltb_ℤ age (wrap (pos 0 -ℤ max_age))
      then freshness_result name warn (name ++ lit " timestamp is in the future (clock/timezone?)")
          []
      else freshness_result name pass
          (name ++ lit " fresh (" ++ env.fmt.rounded_seconds age ++ lit " old)") []

  -- The feed's time, unless there is no feed or its time is zero.
  unfoldable pub timestamp : Option Realtime → Option Time
  timestamp rt = elim rt [
    | none ↦ none
    | some f ↦ if is_zero_ℤ f.created_at then none else some f.created_at
  ]

  -- One round of the loop. The key of a feed is its name.
  unfoldable pub check_feed : Text → Option Realtime → World → Result × World
  check_feed name rt w = elim (lookup name src.prep_errors) [
    | some e ↦ (
      freshness_result name fail (name ++ lit " unavailable: " ++ redact (some e) vc.config.api_key)
          [],
      w,
    )
    | none ↦ elim (timestamp rt) [
      | none ↦ (freshness_result name warn (name ++ lit " has no feed timestamp") [], w)
      | some created ↦ let (now, w') = env.now w in (aged_result name (sub_time now created), w')
    ]
  ]

  unfoldable pub check_feeds : List (Text × Option Realtime) → World → List Result × World
  check_feeds [] w = ([], w)
  check_feeds ((name, rt) ∷ feeds) w =
      let (r, w1) = check_feed name rt w in let (rs, w2) = check_feeds feeds w1 in (r ∷ rs, w2)

  unfoldable pub run_freshness : World → List Result × World
  run_freshness = check_feeds (
      (lit "vehiclePositions", src.vehicle_positions)
      ∷ (lit "tripUpdates", src.trip_updates)
      ∷ (lit "serviceAlerts", src.service_alerts)
      ∷ [])
