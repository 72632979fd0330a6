-- ===== src/Validator/ServiceAlerts/Situations.antt =====
-- What the verdict on an alert says of the situations at its stop.
use server_validator.Prelude.{
  ◌≡◌, ◌≢◌, ◌↔◌, ◌⊎◌, refl, sym, ◌∙◌, Bool, true, false, not, List, [], ◌∷◌, ◌++◌, arith, Any,
  if◌then◌else◌,
}
use server_validator.Text.{Text}
use server_validator.Validator.Status.{Status, pass, warn, fail}
use server_validator.Validator.Ids.Matching.{NamesEntity, id_match_iff}
use server_validator.Validator.Context.{Arrival, Arrivals, Env, SourceContext, ValidationContext}
use server_validator.Validator.ServiceAlerts.{
  SampleAlert, Flags, see, see_all, see_arrivals, flags_of, alert_outcome, judge_alert,
}

-- The situation ids of an answer, in the order in which they are met.
abbrev ids_at : List Arrival → List Text
ids_at [] = []
ids_at (a ∷ rest) = a.situation_ids ++ ids_at rest

abbrev pub situations_of : Arrivals → List Text
situations_of ad = ids_at ad.arrivals ++ ad.situations

see_all-append :
    (alert_id agency : Text) (xs ys : List Text) (f : Flags)
    → see_all alert_id agency (xs ++ ys) f
      ≡ see_all alert_id agency ys (see_all alert_id agency xs f)
unfolding see_all
see_all-append alert_id agency [] ys f = refl
see_all-append alert_id agency (x ∷ xs) ys f =
    see_all-append alert_id agency xs ys (see alert_id agency x f)

see_arrivals-ids_at :
    (alert_id agency : Text) (as' : List Arrival) (f : Flags)
    → see_arrivals alert_id agency as' f ≡ see_all alert_id agency (ids_at as') f
unfolding see_arrivals see_all
see_arrivals-ids_at alert_id agency [] f = refl
see_arrivals-ids_at alert_id agency (a ∷ as') f =
    see_arrivals-ids_at alert_id agency as' (see_all alert_id agency a.situation_ids f)
    ∙ sym (see_all-append alert_id agency a.situation_ids (ids_at as') f)

see_all_lem :
    (alert_id agency : Text) (sids : List Text) (f : Flags)
    → (((see_all alert_id agency sids f).matched ≡ true)
        ↔ ((f.matched ≡ true) ⊎ Any (λ sid. NamesEntity sid alert_id agency) sids))
      × (((see_all alert_id agency sids f).any_situation ≡ true)
          ↔ ((f.any_situation ≡ true) ⊎ (sids ≢ [])))
unfolding see_all see
see_all_lem alert_id agency [] f = ground arith
see_all_lem alert_id agency (sid ∷ sids) f = ground (
  arith,
  see_all_lem alert_id agency sids (see alert_id agency sid f),
  id_match_iff sid alert_id agency,
)

flags_of_lem :
    (alert_id agency : Text) (ad : Arrivals)
    → (((flags_of alert_id agency ad).matched ≡ true)
        ↔ Any (λ sid. NamesEntity sid alert_id agency) (situations_of ad))
      × (((flags_of alert_id agency ad).any_situation ≡ true) ↔ (situations_of ad ≢ []))
unfolding flags_of
flags_of_lem alert_id agency ad =
    let start : Flags = record { any_situation = false; matched = false } in
    rw
      (
        see_arrivals-ids_at,
        ← see_all-append alert_id agency (ids_at ad.arrivals) ad.situations start,
      )
      (ground (arith, see_all_lem alert_id agency (situations_of ad) start))

Any-ne-nil : (P : Text → Type 0) (xs : List Text) → Any P xs → xs ≢ []
Any-ne-nil P [] h = absurd h
Any-ne-nil P (x ∷ xs) h = λ e. cc

-- The `switch` on the two flags.
abbrev verdict : Bool → Bool → Status
verdict matched seen = if matched then pass else if not seen then fail else warn

judge_alert-status :
    (env : Env) (vc : ValidationContext) (src : SourceContext) (oba_stop : Text) (s : SampleAlert)
    (f : Flags)
    → (judge_alert env vc src oba_stop s f).status ≡ verdict f.matched f.any_situation
unfolding judge_alert alert_outcome
judge_alert-status env vc src oba_stop s f = ground arith

verdict_lem :
    {S : Type 0} (matched seen : Bool) (sids : List Text)
    → (matched ≡ true) ↔ S
    → (seen ≡ true) ↔ (sids ≢ [])
    → (S → sids ≢ [])
    → ((verdict matched seen ≡ pass) ↔ S)
      × ((verdict matched seen ≡ fail) ↔ (sids ≡ []))
      × ((verdict matched seen ≡ warn) ↔ ((¬ S) × (sids ≢ [])))
verdict_lem true seen sids m n k =
    let s = m.0 refl in
    (
      (λ _. s, λ _. refl),
      (λ h. absurd (cc), λ e. absurd (k s e)),
      (λ h. absurd (cc), λ h. absurd (h.0 s)),
    )
verdict_lem false true sids m n k = (
  (λ h. absurd (cc), λ s. absurd (cc (m.1 s))),
  (λ h. absurd (cc), λ e. absurd (n.0 refl e)),
  (λ _. (λ s. cc (m.1 s), n.0 refl), λ _. refl),
)
verdict_lem false false [] m n k = (
  (λ h. absurd (cc), λ s. absurd (cc (m.1 s))),
  (λ _. refl, λ _. refl),
  (λ h. absurd (cc), λ h. absurd (h.1 refl)),
)
verdict_lem false false (sid ∷ sids) m n k = absurd (cc (n.1 (λ e. cc)))

-- A stop that was read passes exactly when one of its situations names the alert, fails exactly
-- when it has no situation, and warns when it has some and none names the alert.
pub judge_alert_lem :
    (env : Env) (vc : ValidationContext) (src : SourceContext) (oba_stop agency : Text)
    (s : SampleAlert) (ad : Arrivals)
    → let r = judge_alert env vc src oba_stop s (flags_of s.alert.id agency ad) in
      let surfaced = Any (λ sid. NamesEntity sid s.alert.id agency) (situations_of ad) in
      ((r.status ≡ pass) ↔ surfaced)
      × ((r.status ≡ fail) ↔ (situations_of ad ≡ []))
      × ((r.status ≡ warn) ↔ ((¬ surfaced) × (situations_of ad ≢ [])))
judge_alert_lem env vc src oba_stop agency s ad =
    let f = flags_of s.alert.id agency ad in
    let (matched, seen) = flags_of_lem s.alert.id agency ad in
    rw (judge_alert-status env vc src oba_stop s f) (
      verdict_lem f.matched f.any_situation (situations_of ad) matched seen
        (Any-ne-nil _ (situations_of ad)))
