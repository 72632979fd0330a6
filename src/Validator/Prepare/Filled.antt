-- ===== src/Validator/Prepare/Filled.antt =====
-- What the contexts of the sources hold when all goroutines are over.
use server_validator.Prelude.{
  ℕ, zero, suc, ◌≡◌, ◌≢◌, ◌⊎◌, inl, inr, refl, List, [], ◌∷◌, ◌++◌, arith, Option, some,
  Option-cases, List-cases, map,
}
use server_validator.Text.{Text, lit}
use server_validator.GoMap.{lookup}
use server_validator.Fmt.{decimal}
use server_validator.Config.{DataSource, Config}
use server_validator.Validator.Context.{Agencies, SourceContext}
use server_validator.Validator.Redaction.{GoError}
use server_validator.Validator.Prepare.{
  Feed, static_gtfs, vehicle_positions, trip_updates, service_alerts, feed_url, Phase, absent,
  waiting, fetching, fetched, recorded, released, done, Cell, State, Sources, new_source,
  first_phase, new_cell, new_cells, initial, advance, advance_at, Run, stop, go, IsOver, IsFinished,
  prepared,
}
use server_validator.Validator.Prepare.Moves.{step_split}
use server_validator.Validator.Prepare.Views.{blank, view, expected, new_source-blank}
use server_validator.Validator.Prepare.Sound.{Sound, SoundCell, advance-SoundCell}

module _ (sources : Sources) where
  -- The cells belong to the sources from the `i`-th on.
  abbrev AllSound : ℕ → List DataSource → List Cell → Type 0
  AllSound i [] [] = Unit
  AllSound i [] (c ∷ cs) = ⊥
  AllSound i (d ∷ ds) [] = ⊥
  AllSound i (d ∷ ds) (c ∷ cs) = SoundCell sources i d c × AllSound (suc i) ds cs

  advance_at-AllSound :
      (k : ℕ) (f : Feed) (i free free' : ℕ) (ds : List DataSource) (cs cs' : List Cell)
      → AllSound i ds cs
      → advance_at sources k f free cs ≡ some (free', cs')
      → AllSound i ds cs'
  unfolding advance_at
  advance_at-AllSound k f i free free' ds [] cs' a h = absurd (ground arith)
  advance_at-AllSound k f i free free' [] (c ∷ cs) cs' a h = absurd a
  advance_at-AllSound zero f i free free' (d ∷ ds) (c ∷ cs) cs' a h =
      elim (Option-cases (advance sources f free c)) [
        | inl e ↦ absurd (ground arith)
        | inr ((n, c'), e) ↦
            let same : cs' ≡ c' ∷ cs = ground arith in
            rw same (advance-SoundCell sources i d f free n c c' a.0 e, a.1)
      ]
  advance_at-AllSound (suc k) f i free free' (d ∷ ds) (c ∷ cs) cs' a h =
      elim (Option-cases (advance_at sources k f free cs)) [
        | inl e ↦ absurd (ground arith)
        | inr ((n, es), e) ↦
            let same : cs' ≡ c ∷ es = ground arith in
            rw same (a.0, advance_at-AllSound k f (suc i) free n ds cs es a.1 e)
      ]

  Run-AllSound :
      (ds : List DataSource) (n : ℕ) (s t : State)
      → Run sources n s t
      → AllSound 0 ds s.cells
      → AllSound 0 ds t.cells
  Run-AllSound ds n s t (stop v) a = a
  Run-AllSound ds n s t (go n' k f s' u t' h r) a = Run-AllSound ds n' u t' r (
      advance_at-AllSound k f 0 s'.free u.free ds s'.cells u.cells a
        (step_split sources k f s' u h))

  first_phase-Sound :
      (i : ℕ) (d : DataSource) (f : Feed) (s : SourceContext)
      → view f s ≡ blank
      → Sound sources i d f (first_phase (feed_url f d)) s
  unfolding first_phase
  first_phase-Sound i d f s e = elim (List-cases (feed_url f d)) [
    | inl h ↦ rw (h, first_phase) (h, e)
    | inr (c, rest, h) ↦ rw (h, first_phase) ((λ k. absurd (cc (h, k))), e)
  ]

  new_cells-AllSound : (i : ℕ) (ds : List DataSource) → AllSound i ds (new_cells i ds)
  unfolding new_cells new_cell new_source lookup
  new_cells-AllSound i [] = tt
  new_cells-AllSound i (d ∷ ds) = (
    ((refl, refl, refl), λ f. first_phase-Sound i d f (new_source i d) (new_source-blank i d f)),
    new_cells-AllSound (suc i) ds,
  )

  -- What a context is to hold of a feed with this URL: nothing if there is none, and else what comes
  -- of the fetch.
  abbrev Holds : ℕ → Feed → Text → SourceContext → Type 0
  Holds i f url s =
      ((url ≡ []) × (view f s ≡ blank))
      ⊎ ((url ≢ []) × (view f s ≡ expected sources f (sources.fetch i f)))

  abbrev IsPrepared : ℕ → DataSource → SourceContext → Type 0
  IsPrepared i d s =
      ((s.index ≡ i) × (s.label ≡ lit "dataSource[" ++ decimal i ++ lit "]") × (s.config ≡ d))
      × Holds i static_gtfs d.static_gtfs_feed_url s
      × Holds i vehicle_positions d.vehicle_positions_url s
      × Holds i trip_updates d.trip_updates_url s
      × Holds i service_alerts d.service_alerts_url s

  abbrev pub AllPrepared : ℕ → List DataSource → List SourceContext → Type 0
  AllPrepared i [] [] = Unit
  AllPrepared i [] (s ∷ ss) = ⊥
  AllPrepared i (d ∷ ds) [] = ⊥
  AllPrepared i (d ∷ ds) (s ∷ ss) = IsPrepared i d s × AllPrepared (suc i) ds ss

  Sound-over :
      (i : ℕ) (d : DataSource) (f : Feed) (p : Phase) (s : SourceContext)
      → IsOver p
      → Sound sources i d f p s
      → Holds i f (feed_url f d) s
  Sound-over i d f absent s over h = inl h
  Sound-over i d f waiting s over h = absurd over
  Sound-over i d f fetching s over h = absurd over
  Sound-over i d f (fetched b) s over h = absurd over
  Sound-over i d f recorded s over h = absurd over
  Sound-over i d f released s over h = absurd over
  Sound-over i d f done s over h = inr h

  over-IsPrepared :
      (i : ℕ) (d : DataSource) (c : Cell)
      → ((f : Feed) → IsOver (c.phase f))
      → SoundCell sources i d c
      → IsPrepared i d c.context
  unfolding new_source feed_url
  over-IsPrepared i d c over (own, each) =
      let holds : (f : Feed) → Holds i f (feed_url f d) c.context =
        λ f. Sound-over i d f (c.phase f) c.context (over f) (each f) in
      (own, holds static_gtfs, holds vehicle_positions, holds trip_updates, holds service_alerts)

  finished-AllPrepared :
      (i : ℕ) (ds : List DataSource) (cs : List Cell)
      → IsFinished cs
      → AllSound i ds cs
      → AllPrepared i ds (map (λ (c : Cell). c.context) cs)
  finished-AllPrepared i [] [] over a = tt
  finished-AllPrepared i [] (c ∷ cs) over a = absurd a
  finished-AllPrepared i (d ∷ ds) [] over a = absurd a
  finished-AllPrepared i (d ∷ ds) (c ∷ cs) (over, rest) (own, all) =
      (over-IsPrepared i d c over own, finished-AllPrepared (suc i) ds cs rest all)

-- In whatever order the goroutines acted, once all of them have called `wg.Done` there is one
-- context for each source, in order, with its index, label and configuration. It holds nothing of a
-- feed without a URL. Of another feed it holds the parsed form and no error, or, where the fetch or
-- the parser failed, no parsed form and that error.
pub prepared-AllPrepared :
    (sources : Sources) (cfg : Config) (agencies : Option Agencies) (agencies_err : GoError) (n : ℕ)
    (s : State)
    → Run sources n (initial cfg) s
    → IsFinished s.cells
    → AllPrepared sources 0 cfg.data_sources (prepared cfg agencies agencies_err s).sources
unfolding prepared initial
prepared-AllPrepared sources cfg agencies agencies_err n s r over =
    finished-AllPrepared sources 0 cfg.data_sources s.cells over (
      Run-AllSound sources cfg.data_sources n (initial cfg) s r
        (new_cells-AllSound sources 0 cfg.data_sources))
