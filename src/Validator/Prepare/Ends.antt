-- ===== src/Validator/Prepare/Ends.antt =====
-- The preparation does not come to a halt, and it ends.
use server_validator.Prelude.{
  ℕ, zero, suc, ◌+◌, ◌*◌, ◌≡◌, ◌≢◌, ◌⊎◌, ◌↔◌, inl, inr, refl, List, [], ◌∷◌, arith, some,
  Option-cases,
}
use server_validator.Prelude.Int.{ℤ, pos, negsuc}
use server_validator.Config.{Config}
use server_validator.Validator.Context.{SourceContext}
use server_validator.Validator.Prepare.{
  Feed, static_gtfs, vehicle_positions, trip_updates, service_alerts, Phase, absent, waiting,
  fetching, fetched, recorded, released, done, Cell, State, Sources, capacity, initial, act,
  advance, advance_at, step, Run, stop, go, IsOver, IsFinished,
}
use server_validator.Validator.Prepare.Moves.{held, left, cell_sum, sum, step_lem}
use server_validator.Validator.Prepare.Tokens.{Run-sums, Run-capacity, feed_count, new_cells-left}

module _ (sources : Sources) where
  -- Nothing acts: no place is held, and all is over or no place is free.
  abbrev Idle : ℕ → ℕ → Type 0 → Type 0
  Idle free places Over = (places ≡ 0) × (Over ⊎ (free ≡ 0))

  act-or :
      (f : Feed) (p : Phase) (free : ℕ) (s : SourceContext)
      → ((r : ℕ × Phase × SourceContext) × (act sources f p free s ≡ some r))
        ⊎ Idle free (held p) (IsOver p)
  unfolding act
  act-or f absent free s = inr (refl, inl tt)
  act-or f waiting zero s = inr (refl, inr refl)
  act-or f waiting (suc n) s = inl (_, refl)
  act-or f fetching free s = inl (_, refl)
  act-or f (fetched b) free s = inl (_, refl)
  act-or f recorded free s = inl (_, refl)
  act-or f released free s = inl (_, refl)
  act-or f done free s = inr (refl, inl tt)

  advance-or :
      (free : ℕ) (c : Cell) (f : Feed)
      → ((r : ℕ × Cell) × (advance sources f free c ≡ some r))
        ⊎ Idle free (held (c.phase f)) (IsOver (c.phase f))
  unfolding advance
  advance-or free c f = elim (Option-cases (advance sources f free c)) [
    | inr can ↦ inl can
    | inl none' ↦ elim (act-or f (c.phase f) free c.context) [
      | inl (r, e) ↦ absurd (ground arith)
      | inr idle ↦ inr idle
    ]
  ]

  -- One more goroutine beside those that do not act.
  also_idle :
      {A B : Type 0} (free n m : ℕ) → Idle free n A → Idle free m B → Idle free (n + m) (A × B)
  also_idle free n m (p, inl a) (q, inl b) = (omega arith, inl (a, b))
  also_idle free n m (p, inl a) (q, inr e) = (omega arith, inr e)
  also_idle free n m (p, inr e) (q, b) = (omega arith, inr e)

  abbrev AllOver : Cell → Type 0
  AllOver c =
      IsOver (c.phase static_gtfs)
      × IsOver (c.phase vehicle_positions)
      × IsOver (c.phase trip_updates)
      × IsOver (c.phase service_alerts)

  every_feed : (c : Cell) → AllOver c → (f : Feed) → IsOver (c.phase f)
  every_feed c over static_gtfs = over.0
  every_feed c over vehicle_positions = over.1
  every_feed c over trip_updates = over.2
  every_feed c over service_alerts = over.3

  cell-or :
      (free : ℕ) (c : Cell)
      → ((f : Feed) × (r : ℕ × Cell) × (advance sources f free c ≡ some r))
        ⊎ Idle free (cell_sum held c) ((f : Feed) → IsOver (c.phase f))
  cell-or free c = elim (advance-or free c static_gtfs) [
    | inl (r, e) ↦ inl (static_gtfs, r, e)
    | inr a ↦ elim (advance-or free c vehicle_positions) [
      | inl (r, e) ↦ inl (vehicle_positions, r, e)
      | inr b ↦ elim (advance-or free c trip_updates) [
        | inl (r, e) ↦ inl (trip_updates, r, e)
        | inr d ↦ elim (advance-or free c service_alerts) [
          | inl (r, e) ↦ inl (service_alerts, r, e)
          | inr g ↦
              let all = also_idle free _ _ (also_idle free _ _ (also_idle free _ _ a b) d) g in
              inr (
                all.0,
                elim all.1 [
                  | inl over ↦ inl (every_feed c (over.0.0.0, over.0.0.1, over.0.1, over.1))
                  | inr e ↦ inr e
                ],
              )
        ]
      ]
    ]
  ]

  cells-or :
      (free : ℕ) (cs : List Cell)
      → ((k : ℕ) × (f : Feed) × (r : ℕ × List Cell) × (advance_at sources k f free cs ≡ some r))
        ⊎ Idle free (sum held cs) (IsFinished cs)
  unfolding advance_at
  cells-or free [] = inr (refl, inl tt)
  cells-or free (c ∷ cs) = elim (cell-or free c) [
    | inl (f, (n, c'), e) ↦ inl (0, f, (n, c' ∷ cs), rw (e, advance_at) refl)
    | inr here ↦ elim (cells-or free cs) [
      | inl (k, f, (n, ds), e) ↦ inl (suc k, f, (n, c ∷ ds), rw (e, advance_at) refl)
      | inr there ↦ inr (also_idle free _ _ here there)
    ]
  ]

  -- From a state whose places are not all lost, some goroutine can act, or all are over.
  progress :
      (s : State)
      → s.free + sum held s.cells ≢ 0
      → ((k : ℕ) × (f : Feed) × (t : State) × (step sources k f s ≡ some t)) ⊎ IsFinished s.cells
  unfolding step
  progress s places = elim (cells-or s.free s.cells) [
    | inl (k, f, (n, cs), e) ↦ inl (k, f, record { free = n; cells = cs }, rw (e, step) refl)
    | inr (lost, inl over) ↦ inr over
    | inr (lost, inr e) ↦ absurd (places (omega arith))
  ]

  over-left : (p : Phase) → IsOver p → left p ≡ 0
  over-left absent over = refl
  over-left waiting over = absurd over
  over-left fetching over = absurd over
  over-left (fetched b) over = absurd over
  over-left recorded over = absurd over
  over-left released over = absurd over
  over-left done over = refl

  finished-left : (cs : List Cell) → IsFinished cs → sum left cs ≡ 0
  finished-left [] over = refl
  finished-left (c ∷ cs) (over, rest) = omega (
    arith,
    finished-left cs rest,
    over-left (c.phase static_gtfs) (over static_gtfs),
    over-left (c.phase vehicle_positions) (over vehicle_positions),
    over-left (c.phase trip_updates) (over trip_updates),
    over-left (c.phase service_alerts) (over service_alerts),
  )

  -- No act is left exactly when all are over.
  left-IsFinished_iff :
      (s : State) → s.free + sum held s.cells ≢ 0 → IsFinished s.cells ↔ (sum left s.cells ≡ 0)
  left-IsFinished_iff s places = (
    finished-left s.cells,
    λ few. elim (progress s places) [
      | inr over ↦ over
      | inl (k, f, t, h) ↦ absurd (omega (arith, (step_lem sources k f s t h).1, few))
    ],
  )

  -- By the number of the acts that are left.
  finish :
      (n : ℕ) (s : State)
      → s.free + sum held s.cells ≢ 0
      → sum left s.cells ≡ n
      → (t : State) × Run sources n s t × IsFinished t.cells
  finish zero s places few = (s, stop s, (left-IsFinished_iff s places).1 few)
  finish (suc n) s places few = elim (progress s places) [
    | inr over ↦ absurd (omega (arith, finished-left s.cells over, few))
    | inl (k, f, t, h) ↦
        let facts = step_lem sources k f s t h in
        let (u, r, over) =
          finish n t (λ e. places (omega (arith, facts.0, e))) (omega (arith, facts.1, few)) in
        (u, go n k f s t u h r, over)
  ]

capacity-ne_zero : (n : ℤ) → capacity n ≢ 0
unfolding capacity
capacity-ne_zero (pos zero) = omega arith
capacity-ne_zero (pos (suc n)) = omega arith
capacity-ne_zero (negsuc n) = omega arith

-- However the goroutines were scheduled so far, they have made at most five acts for each feed with
-- a URL, exactly so many when all of them have called `wg.Done`, and otherwise they can go on until
-- all of them have.
pub Run-finishes :
    (sources : Sources) (cfg : Config) (n : ℕ) (s : State)
    → Run sources n (initial cfg) s
    → (IsFinished s.cells ↔ (n ≡ 5 * feed_count cfg.data_sources))
      × ((m : ℕ) × (n + m ≡ 5 * feed_count cfg.data_sources)
          × ((t : State) × Run sources m s t × IsFinished t.cells))
unfolding initial
Run-finishes sources cfg n s r =
    let facts = Run-sums sources n (initial cfg) s r in
    let total : n + sum left s.cells ≡ 5 * feed_count cfg.data_sources =
      omega (arith, facts.1, new_cells-left 0 cfg.data_sources) in
    let places : s.free + sum held s.cells ≢ 0 = λ e.
      capacity-ne_zero cfg.max_concurrency (omega (arith, Run-capacity sources cfg n s r, e)) in
    let ends = left-IsFinished_iff sources s places in
    (
      (λ over. omega (arith, ends.0 over, total), λ e. ends.1 (omega (arith, total, e))),
      (sum left s.cells, total, finish sources (sum left s.cells) s places refl),
    )
