-- ===== src/Validator/Prepare/Views.antt =====
-- What a context holds of a feed, and what a goroutine makes of it.
use server_validator.Prelude.{ℕ, ◌≡◌, inl, inr, refl, ◌∙◌, true, false, Option, none, some}
use server_validator.Text.{Text, lit, text_eq, text_eq_refl}
use server_validator.GoMap.{lookup, insert, lookup-insert}
use server_validator.Config.{DataSource}
use server_validator.Feeds.Gtfs.{Realtime}
use server_validator.Feeds.Static.{ParsedStatic}
use server_validator.Sink.Dsn.{Result, ok, err, Result-cases}
use server_validator.Validator.Context.{SourceContext, prep_err}
use server_validator.Validator.Prepare.{
  Feed, static_gtfs, vehicle_positions, trip_updates, service_alerts, feed_name, same_feed, Sources,
  new_source, parse_static, parse_realtime, settle_static, settle_realtime, settle,
}

pub data Parsed : Type 0 where
  of_static : ParsedStatic → Parsed
  of_realtime : Realtime → Parsed

-- What a context holds of a feed: its parsed form and its error.
abbrev View : Type 0
View = Option Parsed × Option Text

abbrev pub blank : View
blank = (none, none)

abbrev pub static_of : Option ParsedStatic → Option Parsed
static_of none = none
static_of (some p) = some (of_static p)

abbrev realtime_of : Option Realtime → Option Parsed
realtime_of none = none
realtime_of (some rt) = some (of_realtime rt)

abbrev field_of : Feed → SourceContext → Option Parsed
field_of static_gtfs s = static_of s.static
field_of vehicle_positions s = realtime_of s.vehicle_positions
field_of trip_updates s = realtime_of s.trip_updates
field_of service_alerts s = realtime_of s.service_alerts

abbrev pub view : Feed → SourceContext → View
view f s = (field_of f s, lookup (feed_name f) s.prep_errors)

pub same_feed-eq : (f g : Feed) → same_feed f g ≡ true → f ≡ g
same_feed-eq static_gtfs static_gtfs h = refl
same_feed-eq static_gtfs vehicle_positions h = absurd cc
same_feed-eq static_gtfs trip_updates h = absurd cc
same_feed-eq static_gtfs service_alerts h = absurd cc
same_feed-eq vehicle_positions static_gtfs h = absurd cc
same_feed-eq vehicle_positions vehicle_positions h = refl
same_feed-eq vehicle_positions trip_updates h = absurd cc
same_feed-eq vehicle_positions service_alerts h = absurd cc
same_feed-eq trip_updates static_gtfs h = absurd cc
same_feed-eq trip_updates vehicle_positions h = absurd cc
same_feed-eq trip_updates trip_updates h = refl
same_feed-eq trip_updates service_alerts h = absurd cc
same_feed-eq service_alerts static_gtfs h = absurd cc
same_feed-eq service_alerts vehicle_positions h = absurd cc
same_feed-eq service_alerts trip_updates h = absurd cc
same_feed-eq service_alerts service_alerts h = refl

pub new_source-blank : (i : ℕ) (d : DataSource) (f : Feed) → view f (new_source i d) ≡ blank
unfolding new_source lookup
new_source-blank i d static_gtfs = refl
new_source-blank i d vehicle_positions = refl
new_source-blank i d trip_updates = refl
new_source-blank i d service_alerts = refl

names_differ : (f g : Feed) → same_feed f g ≡ false → text_eq (feed_name g) (feed_name f) ≡ false
unfolding feed_name text_eq lit
names_differ static_gtfs static_gtfs h = absurd cc
names_differ static_gtfs vehicle_positions h = refl
names_differ static_gtfs trip_updates h = refl
names_differ static_gtfs service_alerts h = refl
names_differ vehicle_positions static_gtfs h = refl
names_differ vehicle_positions vehicle_positions h = absurd cc
names_differ vehicle_positions trip_updates h = refl
names_differ vehicle_positions service_alerts h = refl
names_differ trip_updates static_gtfs h = refl
names_differ trip_updates vehicle_positions h = refl
names_differ trip_updates trip_updates h = absurd cc
names_differ trip_updates service_alerts h = refl
names_differ service_alerts static_gtfs h = refl
names_differ service_alerts vehicle_positions h = refl
names_differ service_alerts trip_updates h = refl
names_differ service_alerts service_alerts h = absurd cc

-- An error changes no field.
field_of-prep_err :
    (f : Feed) (name e : Text) (s : SourceContext) → field_of f (prep_err name e s) ≡ field_of f s
unfolding prep_err
field_of-prep_err static_gtfs name e s = refl
field_of-prep_err vehicle_positions name e s = refl
field_of-prep_err trip_updates name e s = refl
field_of-prep_err service_alerts name e s = refl

error-own :
    (f : Feed) (e : Text) (s : SourceContext)
    → view f s ≡ blank
    → view f (prep_err (feed_name f) e s) ≡ (none, some e)
unfolding prep_err
error-own f e s h =
    let found : lookup (feed_name f) (insert (feed_name f) e s.prep_errors) ≡ some e =
      lookup-insert (feed_name f) (feed_name f) e s.prep_errors
      ∙ rw (text_eq_refl (feed_name f)) refl in
    cc (found, field_of-prep_err f (feed_name f) e s, h)

error-others :
    (f g : Feed) (e : Text) (s : SourceContext)
    → same_feed f g ≡ false
    → view g (prep_err (feed_name f) e s) ≡ view g s
unfolding prep_err
error-others f g e s h =
    let found : lookup (feed_name g) (insert (feed_name f) e s.prep_errors)
        ≡ lookup (feed_name g) s.prep_errors =
      lookup-insert (feed_name g) (feed_name f) e s.prep_errors ∙ rw (names_differ f g h) refl in
    cc (found, field_of-prep_err g (feed_name f) e s)

static-others :
    (g : Feed) (v : ParsedStatic) (s : SourceContext)
    → same_feed static_gtfs g ≡ false
    → view g (record s { static = some v }) ≡ view g s
static-others static_gtfs v s h = absurd cc
static-others vehicle_positions v s h = refl
static-others trip_updates v s h = refl
static-others service_alerts v s h = refl

vehicle_positions-others :
    (g : Feed) (v : Realtime) (s : SourceContext)
    → same_feed vehicle_positions g ≡ false
    → view g (record s { vehicle_positions = some v }) ≡ view g s
vehicle_positions-others static_gtfs v s h = refl
vehicle_positions-others vehicle_positions v s h = absurd cc
vehicle_positions-others trip_updates v s h = refl
vehicle_positions-others service_alerts v s h = refl

trip_updates-others :
    (g : Feed) (v : Realtime) (s : SourceContext)
    → same_feed trip_updates g ≡ false
    → view g (record s { trip_updates = some v }) ≡ view g s
trip_updates-others static_gtfs v s h = refl
trip_updates-others vehicle_positions v s h = refl
trip_updates-others trip_updates v s h = absurd cc
trip_updates-others service_alerts v s h = refl

service_alerts-others :
    (g : Feed) (v : Realtime) (s : SourceContext)
    → same_feed service_alerts g ≡ false
    → view g (record s { service_alerts = some v }) ≡ view g s
service_alerts-others static_gtfs v s h = refl
service_alerts-others vehicle_positions v s h = refl
service_alerts-others trip_updates v s h = refl
service_alerts-others service_alerts v s h = absurd cc

module _ (sources : Sources) where
  abbrev static_view : Result ParsedStatic → View
  static_view (err e) = (none, some e)
  static_view (ok p) = (some (of_static p), none)

  abbrev realtime_view : Result Realtime → View
  realtime_view (err e) = (none, some e)
  realtime_view (ok rt) = (some (of_realtime rt), none)

  -- What a context is to hold of a feed whose fetch returned this.
  abbrev pub expected : Feed → Result Text → View
  expected f (err e) = (none, some e)
  expected static_gtfs (ok b) = static_view (parse_static sources b)
  expected vehicle_positions (ok b) = realtime_view (parse_realtime sources b)
  expected trip_updates (ok b) = realtime_view (parse_realtime sources b)
  expected service_alerts (ok b) = realtime_view (parse_realtime sources b)

  pub settle-view :
      (f : Feed) (r : Result Text) (s : SourceContext)
      → view f s ≡ blank
      → view f (settle sources f r s) ≡ expected f r
  unfolding settle settle_static settle_realtime feed_name
  settle-view static_gtfs (err e) s h = error-own static_gtfs e s h
  settle-view vehicle_positions (err e) s h = error-own vehicle_positions e s h
  settle-view trip_updates (err e) s h = error-own trip_updates e s h
  settle-view service_alerts (err e) s h = error-own service_alerts e s h
  settle-view static_gtfs (ok b) s h = elim (Result-cases (parse_static sources b)) [
    | inl (e, q) ↦ rw (q, settle, settle_static) (error-own static_gtfs e s h)
    | inr (p, q) ↦ rw (q, settle, settle_static) (cc h)
  ]
  settle-view vehicle_positions (ok b) s h = elim (Result-cases (parse_realtime sources b)) [
    | inl (e, q) ↦ rw (q, settle, settle_realtime) (error-own vehicle_positions e s h)
    | inr (p, q) ↦ rw (q, settle, settle_realtime) (cc h)
  ]
  settle-view trip_updates (ok b) s h = elim (Result-cases (parse_realtime sources b)) [
    | inl (e, q) ↦ rw (q, settle, settle_realtime) (error-own trip_updates e s h)
    | inr (p, q) ↦ rw (q, settle, settle_realtime) (cc h)
  ]
  settle-view service_alerts (ok b) s h = elim (Result-cases (parse_realtime sources b)) [
    | inl (e, q) ↦ rw (q, settle, settle_realtime) (error-own service_alerts e s h)
    | inr (p, q) ↦ rw (q, settle, settle_realtime) (cc h)
  ]

  pub settle-others :
      (f g : Feed) (r : Result Text) (s : SourceContext)
      → same_feed f g ≡ false
      → view g (settle sources f r s) ≡ view g s
  unfolding settle settle_static settle_realtime feed_name
  settle-others static_gtfs g (err e) s h = error-others static_gtfs g e s h
  settle-others vehicle_positions g (err e) s h = error-others vehicle_positions g e s h
  settle-others trip_updates g (err e) s h = error-others trip_updates g e s h
  settle-others service_alerts g (err e) s h = error-others service_alerts g e s h
  settle-others static_gtfs g (ok b) s h = elim (Result-cases (parse_static sources b)) [
    | inl (e, q) ↦ rw (q, settle, settle_static) (error-others static_gtfs g e s h)
    | inr (p, q) ↦ rw (q, settle, settle_static) (static-others g p s h)
  ]
  settle-others vehicle_positions g (ok b) s h = elim (Result-cases (parse_realtime sources b)) [
    | inl (e, q) ↦ rw (q, settle, settle_realtime) (error-others vehicle_positions g e s h)
    | inr (p, q) ↦ rw (q, settle, settle_realtime) (vehicle_positions-others g p s h)
  ]
  settle-others trip_updates g (ok b) s h = elim (Result-cases (parse_realtime sources b)) [
    | inl (e, q) ↦ rw (q, settle, settle_realtime) (error-others trip_updates g e s h)
    | inr (p, q) ↦ rw (q, settle, settle_realtime) (trip_updates-others g p s h)
  ]
  settle-others service_alerts g (ok b) s h = elim (Result-cases (parse_realtime sources b)) [
    | inl (e, q) ↦ rw (q, settle, settle_realtime) (error-others service_alerts g e s h)
    | inr (p, q) ↦ rw (q, settle, settle_realtime) (service_alerts-others g p s h)
  ]
