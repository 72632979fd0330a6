-- ===== src/Validator/Prepare/Sound.antt =====
-- What holds of the goroutine of a feed, whichever acts came before.
use server_validator.Prelude.{
  ℕ, zero, suc, ◌≡◌, ◌≢◌, inl, inr, refl, sym, ap, ◌∙◌, false, [], Option, none, some, Bool-cases,
}
use mathlib.Core.Path.{subst}
use server_validator.Text.{Text}
use server_validator.Config.{DataSource}
use server_validator.Sink.Dsn.{Result, ok, err, Result-cases}
use server_validator.Validator.Context.{SourceContext, prep_err}
use server_validator.Validator.Prepare.{
  Feed, static_gtfs, vehicle_positions, trip_updates, service_alerts, feed_url, same_feed, Phase,
  absent, waiting, fetching, fetched, recorded, released, done, Cell, Sources, new_source,
  set_phase, parse_static, parse_realtime, settle_static, settle_realtime, settle, act, advance,
}
use server_validator.Validator.Prepare.Moves.{advance_split}
use server_validator.Validator.Prepare.Views.{
  blank, view, expected, settle-view, settle-others, same_feed-eq,
}

module _ (sources : Sources) where
  -- What holds of the goroutine of a feed, at the index and with the configuration of its source.
  abbrev pub Sound : ℕ → DataSource → Feed → Phase → SourceContext → Type 0
  Sound i d f absent s = (feed_url f d ≡ []) × (view f s ≡ blank)
  Sound i d f waiting s = (feed_url f d ≢ []) × (view f s ≡ blank)
  Sound i d f fetching s = (feed_url f d ≢ []) × (view f s ≡ blank)
  Sound i d f (fetched b) s = (feed_url f d ≢ []) × (view f s ≡ blank) × (b ≡ sources.fetch i f)
  Sound i d f recorded s = (feed_url f d ≢ []) × (view f s ≡ expected sources f (sources.fetch i f))
  Sound i d f released s = (feed_url f d ≢ []) × (view f s ≡ expected sources f (sources.fetch i f))
  Sound i d f done s = (feed_url f d ≢ []) × (view f s ≡ expected sources f (sources.fetch i f))

  -- The context is that of the source, whatever was prepared.
  abbrev pub IsSource : ℕ → DataSource → SourceContext → Type 0
  IsSource i d s = (s.index ≡ i) × (s.label ≡ (new_source i d).label) × (s.config ≡ d)

  settle-IsSource :
      (i : ℕ) (d : DataSource) (f : Feed) (r : Result Text) (s : SourceContext)
      → IsSource i d s
      → IsSource i d (settle sources f r s)
  unfolding settle settle_static settle_realtime prep_err
  settle-IsSource i d static_gtfs (err e) s h = h
  settle-IsSource i d vehicle_positions (err e) s h = h
  settle-IsSource i d trip_updates (err e) s h = h
  settle-IsSource i d service_alerts (err e) s h = h
  settle-IsSource i d static_gtfs (ok b) s h = elim (Result-cases (parse_static sources b)) [
    | inl (e, q) ↦ rw (q, settle, settle_static) h
    | inr (p, q) ↦ rw (q, settle, settle_static) h
  ]
  settle-IsSource i d vehicle_positions (ok b) s h =
      elim (Result-cases (parse_realtime sources b)) [
        | inl (e, q) ↦ rw (q, settle, settle_realtime) h
        | inr (p, q) ↦ rw (q, settle, settle_realtime) h
      ]
  settle-IsSource i d trip_updates (ok b) s h = elim (Result-cases (parse_realtime sources b)) [
    | inl (e, q) ↦ rw (q, settle, settle_realtime) h
    | inr (p, q) ↦ rw (q, settle, settle_realtime) h
  ]
  settle-IsSource i d service_alerts (ok b) s h = elim (Result-cases (parse_realtime sources b)) [
    | inl (e, q) ↦ rw (q, settle, settle_realtime) h
    | inr (p, q) ↦ rw (q, settle, settle_realtime) h
  ]

  -- What holds behind an act, if there was one: of its feed, of the source, and of the other feeds.
  abbrev Behind :
      ℕ → DataSource → Feed → SourceContext → Option (ℕ × Phase × SourceContext) → Type 0
  Behind i d f s none = Unit
  Behind i d f s (some (n, q, t)) =
      Sound i d f q t × IsSource i d t × ((g : Feed) → same_feed f g ≡ false → view g t ≡ view g s)

  act-Behind :
      (i : ℕ) (d : DataSource) (f : Feed) (p : Phase) (free : ℕ) (s : SourceContext)
      → IsSource i d s
      → Sound i d f p s
      → Behind i d f s (act sources f p free s)
  unfolding act
  act-Behind i d f absent free s own h = tt
  act-Behind i d f waiting zero s own h = tt
  act-Behind i d f waiting (suc n) s own h = (h, own, λ g differ. refl)
  act-Behind i d f fetching free s own h =
      ((h.0, h.1, ap (λ j. sources.fetch j f) own.0), own, λ g differ. refl)
  act-Behind i d f (fetched b) free s own h = (
    (h.0, settle-view sources f b s h.1 ∙ ap (λ r. expected sources f r) h.2),
    settle-IsSource i d f b s own,
    λ g differ. settle-others sources f g b s differ,
  )
  act-Behind i d f recorded free s own h = (h, own, λ g differ. refl)
  act-Behind i d f released free s own h = (h, own, λ g differ. refl)
  act-Behind i d f done free s own h = tt

  -- What holds of a phase depends on the context by the view only.
  Sound-view :
      (i : ℕ) (d : DataSource) (f : Feed) (p : Phase) (s t : SourceContext)
      → view f t ≡ view f s
      → Sound i d f p s
      → Sound i d f p t
  Sound-view i d f absent s t e h = (h.0, e ∙ h.1)
  Sound-view i d f waiting s t e h = (h.0, e ∙ h.1)
  Sound-view i d f fetching s t e h = (h.0, e ∙ h.1)
  Sound-view i d f (fetched b) s t e h = (h.0, e ∙ h.1, h.2)
  Sound-view i d f recorded s t e h = (h.0, e ∙ h.1)
  Sound-view i d f released s t e h = (h.0, e ∙ h.1)
  Sound-view i d f done s t e h = (h.0, e ∙ h.1)

  abbrev pub SoundCell : ℕ → DataSource → Cell → Type 0
  SoundCell i d c = IsSource i d c.context × ((f : Feed) → Sound i d f (c.phase f) c.context)

  pub advance-SoundCell :
      (i : ℕ) (d : DataSource) (f : Feed) (free free' : ℕ) (c c' : Cell)
      → SoundCell i d c
      → advance sources f free c ≡ some (free', c')
      → SoundCell i d c'
  unfolding set_phase
  advance-SoundCell i d f free free' c c' (own, all) h =
      let (q, t, e, same) = advance_split sources f free free' c c' h in
      let behind : Behind i d f c.context (some (free', q, t)) =
        subst (λ r. Behind i d f c.context r) e
          (act-Behind i d f (c.phase f) free c.context own (all f)) in
      subst (λ x. SoundCell i d x) (sym same)
        (
          behind.1,
          λ g. elim (Bool-cases (same_feed f g)) [
            | inl k ↦ rw (k, set_phase) (subst (λ x. Sound i d x q t) (same_feed-eq f g k) behind.0)
            | inr k ↦
                rw (k, set_phase) (Sound-view i d g (c.phase g) c.context t (behind.2 g k) (all g))
          ],
        )
