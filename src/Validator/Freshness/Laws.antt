-- ===== src/Validator/Freshness/Laws.antt =====
-- What the verdict on a feed's age means.
use mathlib.Core.Path.{ap₂}
use server_validator.Prelude.{
  ℕ, zero, suc, ◌*◌, ◌≤◌, ◌≡◌, map, Bool, ap, ◌∙◌, ◌++◌, inl, inr, [], ◌∷◌, arith, Option, none,
  some, Option-cases, if◌then◌else◌,
}
use server_validator.Prelude.Int.{ℤ, pos, negsuc, ◌-ℤ◌, ltb_ℤ, wrap}
use server_validator.Text.{Text, lit}
use server_validator.GoMap.{lookup}
use server_validator.Feeds.Gtfs.{Realtime, Time}
use server_validator.Validator.Status.{Status, pass, warn, fail}
use server_validator.Validator.Context.{Env, SourceContext, ValidationContext}
use server_validator.Validator.Freshness.{
  seconds, saturate, sub_time, freshness_result, aged_result, timestamp, check_feed, check_feeds,
  run_freshness,
}

-- A limit of at most 292 years, in seconds, does not wrap around.
seconds_lem : (n : ℕ) → n ≤ 9223372036 → seconds (pos n) ≡ pos (n * 1000000000)
unfolding seconds wrap
seconds_lem n h = ground arith

saturate-above :
    (m : ℕ) (d : ℤ) → m ≤ 9223372036000000000 → ltb_ℤ (pos m) (saturate d) ≡ ltb_ℤ (pos m) d
unfolding saturate
saturate-above m (pos k) h = ground arith
saturate-above m (negsuc k) h = ground arith

saturate-below :
    (m : ℕ) (d : ℤ)
    → m ≤ 9223372036000000000
    → ltb_ℤ (saturate d) (wrap (pos 0 -ℤ pos m)) ≡ ltb_ℤ d (pos 0 -ℤ pos m)
unfolding saturate wrap
saturate-below zero (pos k) h = ground arith
saturate-below (suc m) (pos k) h = ground arith
saturate-below zero (negsuc k) h = ground arith
saturate-below (suc m) (negsuc k) h = ground arith

-- The status of a feed that is too old, or from too far in the future, or neither.
abbrev graded : Bool → Bool → Status
graded stale early = if stale then fail else if early then warn else pass

-- The status for a feed with the preparation error `e`, the timestamp `created` and the limit of
-- `n` seconds at the time `now`, over exact integers.
abbrev pub expected : Option Text → Option Time → Time → ℕ → Status
expected (some e) created now n = fail
expected none none now n = warn
expected none (some created) now n =
    graded (ltb_ℤ (pos (n * 1000000000)) (now -ℤ created))
      (ltb_ℤ (now -ℤ created) (pos 0 -ℤ pos (n * 1000000000)))

module _ (env : Env) (vc : ValidationContext) (src : SourceContext) where
  open env use {World}

  aged_result-status :
      (name : Text) (max_age age : ℤ)
      → seconds vc.config.rt_freshness_seconds ≡ max_age
      → (aged_result env vc src name age).status
        ≡ graded (ltb_ℤ max_age age) (ltb_ℤ age (wrap (pos 0 -ℤ max_age)))
  unfolding aged_result freshness_result
  aged_result-status name max_age age e = rw (← e) (ground arith)

  aged_result_lem :
      (name : Text) (n : ℕ) (created now : Time)
      → vc.config.rt_freshness_seconds ≡ pos n
      → n ≤ 9223372036
      → (aged_result env vc src name (sub_time now created)).status
        ≡ expected none (some created) now n
  unfolding sub_time
  aged_result_lem name n created now e h =
      let m : ℕ = n * 1000000000 in
      let small : m ≤ 9223372036000000000 = omega arith in
      aged_result-status name (pos m) (sub_time now created) (ap seconds e ∙ seconds_lem n h)
      ∙ ap₂ graded (saturate-above m (now -ℤ created) small)
          (saturate-below m (now -ℤ created) small)

  aged_result-check :
      (name : Text) (age : ℤ)
      → (aged_result env vc src name age).check ≡ lit "rt-freshness/" ++ name
  unfolding aged_result freshness_result
  aged_result-check name age = ground arith

  check_feed-check :
      (name : Text) (rt : Option Realtime) (w : World)
      → (check_feed env vc src name rt w).0.check ≡ lit "rt-freshness/" ++ name
  unfolding check_feed freshness_result
  check_feed-check name rt w = elim (Option-cases (lookup name src.prep_errors)) [
    | inr (err, p) ↦ ground arith
    | inl p ↦ elim (Option-cases (timestamp env vc src rt)) [
      | inl q ↦ ground arith
      | inr (created, q) ↦ ground (arith, aged_result-check name (sub_time (env.now w).0 created))
    ]
  ]

  -- With a limit of `n` seconds, at most 292 years, the result for a feed fails if the feed could
  -- not be prepared, warns if it has no timestamp, and otherwise fails if it is older than the
  -- limit, warns if it is further in the future than the limit, and passes if neither.
  pub check_feed_lem :
      (name : Text) (rt : Option Realtime) (n : ℕ) (w : World)
      → vc.config.rt_freshness_seconds ≡ pos n
      → n ≤ 9223372036
      → (check_feed env vc src name rt w).0.status
        ≡ expected (lookup name src.prep_errors) (timestamp env vc src rt) (env.now w).0 n
  unfolding check_feed freshness_result
  check_feed_lem name rt n w e h = elim (Option-cases (lookup name src.prep_errors)) [
    | inr (err, p) ↦ ground arith
    | inl p ↦ elim (Option-cases (timestamp env vc src rt)) [
      | inl q ↦ ground arith
      | inr (created, q) ↦ rw (p, q, check_feed) (aged_result_lem name n created (env.now w).0 e h)
    ]
  ]

  -- The check gives one result for each of the three feeds, in order.
  run_freshness-checks :
      (w : World)
      → map (λ r. r.check) (run_freshness env vc src w).0
        ≡ map
            (λ name. lit "rt-freshness/" ++ name)
            (lit "vehiclePositions" ∷ lit "tripUpdates" ∷ lit "serviceAlerts" ∷ [])
  unfolding run_freshness check_feeds
  run_freshness-checks w =
      let step1 = check_feed env vc src (lit "vehiclePositions") src.vehicle_positions w in
      let step2 = check_feed env vc src (lit "tripUpdates") src.trip_updates step1.1 in
      cc (
        check_feed-check (lit "vehiclePositions") src.vehicle_positions w,
        check_feed-check (lit "tripUpdates") src.trip_updates step1.1,
        check_feed-check (lit "serviceAlerts") src.service_alerts step2.1,
      )
