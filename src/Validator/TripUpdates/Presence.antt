-- ===== src/Validator/TripUpdates/Presence.antt =====
-- What the verdict on a predicted trip says of the arrivals at its stop.
use server_validator.Prelude.{
  ◌≡◌, ◌↔◌, refl, Bool, true, false, List, [], ◌∷◌, arith, Any, if◌then◌else◌,
}
use server_validator.Text.{Text}
use server_validator.Feeds.Gtfs.{Trip}
use server_validator.Validator.Status.{Status, pass, fail}
use server_validator.Validator.Ids.Matching.{NamesEntity, id_match_iff}
use server_validator.Validator.Context.{Arrival, Arrivals, Env, SourceContext, ValidationContext}
use server_validator.Validator.TripUpdates.{trip_found, trip_outcome, judge_trip}

trip_found_iff :
    (trip_id agency : Text) (as' : List Arrival)
    → (trip_found trip_id agency as' ≡ true) ↔ Any (λ a. NamesEntity a.trip_id trip_id agency) as'
unfolding trip_found
trip_found_iff trip_id agency [] = ground arith
trip_found_iff trip_id agency (a ∷ as') =
    ground (arith, trip_found_iff trip_id agency as', id_match_iff a.trip_id trip_id agency)

abbrev verdict : Bool → Status
verdict found = if found then pass else fail

judge_trip-status :
    (env : Env) (vc : ValidationContext) (src : SourceContext) (oba_stop : Text) (tr : Trip)
    (found : Bool)
    → (judge_trip env vc src oba_stop tr found).status ≡ verdict found
unfolding judge_trip trip_outcome
judge_trip-status env vc src oba_stop tr found = ground arith

verdict_lem :
    {S : Type 0} (found : Bool)
    → (found ≡ true) ↔ S
    → ((verdict found ≡ pass) ↔ S) × ((verdict found ≡ fail) ↔ (¬ S))
verdict_lem true f =
    let s = f.0 refl in ((λ _. s, λ _. refl), (λ h. absurd (cc), λ n. absurd (n s)))
verdict_lem false f = ((λ h. absurd (cc), λ s. absurd (cc (f.1 s))), (λ _ s. cc (f.1 s), λ _. refl))

-- A stop that was read passes exactly when one of its arrivals names the predicted trip, and fails
-- exactly when none does.
pub judge_trip_lem :
    (env : Env) (vc : ValidationContext) (src : SourceContext) (oba_stop agency : Text) (tr : Trip)
    (ad : Arrivals)
    → let r = judge_trip env vc src oba_stop tr (trip_found tr.id.id agency ad.arrivals) in
      let present = Any (λ a. NamesEntity a.trip_id tr.id.id agency) ad.arrivals in
      ((r.status ≡ pass) ↔ present) × ((r.status ≡ fail) ↔ (¬ present))
judge_trip_lem env vc src oba_stop agency tr ad =
    let found = trip_found tr.id.id agency ad.arrivals in
    let status = judge_trip-status env vc src oba_stop tr found in
    rw status (verdict_lem found (trip_found_iff tr.id.id agency ad.arrivals))
