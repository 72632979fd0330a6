-- ===== src/Validator/Prepare/Moves.antt =====
-- What one act of a goroutine changes.
use server_validator.Prelude.{
  ℕ, zero, suc, ◌+◌, ◌≡◌, List, [], ◌∷◌, arith, some, Option-cases, inl, inr,
}
use server_validator.Validator.Context.{SourceContext}
use server_validator.Validator.Prepare.{
  Feed, static_gtfs, vehicle_positions, trip_updates, service_alerts, Phase, absent, waiting,
  fetching, fetched, recorded, released, done, Cell, State, Sources, set_phase, act, advance,
  advance_at, step,
}

-- How many places of the semaphore a goroutine holds, and how many acts it has before it.
abbrev pub held : Phase → ℕ
held absent = 0
held waiting = 0
held fetching = 1
held (fetched b) = 1
held recorded = 1
held released = 0
held done = 0

abbrev pub left : Phase → ℕ
left absent = 0
left waiting = 5
left fetching = 4
left (fetched b) = 3
left recorded = 2
left released = 1
left done = 0

-- The sum over the goroutines of a source, and of a list of sources.
abbrev pub cell_sum : (Phase → ℕ) → Cell → ℕ
cell_sum m c =
    m (c.phase static_gtfs)
    + m (c.phase vehicle_positions)
    + m (c.phase trip_updates)
    + m (c.phase service_alerts)

abbrev pub sum : (Phase → ℕ) → List Cell → ℕ
sum m [] = 0
sum m (c ∷ cs) = cell_sum m c + sum m cs

cell_sum-set_phase :
    (m : Phase → ℕ) (f : Feed) (p : Phase) (c : Cell) (s : SourceContext)
    → cell_sum m (record { context = s; phase = set_phase f p c.phase }) + m (c.phase f)
      ≡ cell_sum m c + m p
unfolding set_phase
cell_sum-set_phase m static_gtfs p c s = omega arith
cell_sum-set_phase m vehicle_positions p c s = omega arith
cell_sum-set_phase m trip_updates p c s = omega arith
cell_sum-set_phase m service_alerts p c s = omega arith

module _ (sources : Sources) where
  act_lem :
      (f : Feed) (p q : Phase) (free free' : ℕ) (s t : SourceContext)
      → act sources f p free s ≡ some (free', q, t)
      → (free' + held q ≡ free + held p) × (left p ≡ 1 + left q)
  unfolding act
  act_lem f absent q free free' s t h = absurd cc
  act_lem f waiting q zero free' s t h = absurd cc
  act_lem f waiting q (suc n) free' s t h = ground arith
  act_lem f fetching q free free' s t h = ground arith
  act_lem f (fetched b) q free free' s t h = ground arith
  act_lem f recorded q free free' s t h = ground arith
  act_lem f released q free free' s t h = ground arith
  act_lem f done q free free' s t h = absurd cc

  -- An act of a goroutine of a cell.
  pub advance_split :
      (f : Feed) (free free' : ℕ) (c c' : Cell)
      → advance sources f free c ≡ some (free', c')
      → (q : Phase) × (t : SourceContext) × (act sources f (c.phase f) free c.context
          ≡ some (free', q, t))
        × (c' ≡ record { context = t; phase = set_phase f q c.phase })
  unfolding advance
  advance_split f free free' c c' h =
      elim (Option-cases (act sources f (c.phase f) free c.context)) [
        | inl e ↦ absurd (ground arith)
        | inr ((n, q, t), e) ↦ (q, t, ground arith, ground arith)
      ]

  advance_lem :
      (f : Feed) (free free' : ℕ) (c c' : Cell)
      → advance sources f free c ≡ some (free', c')
      → (free' + cell_sum held c' ≡ free + cell_sum held c)
        × (cell_sum left c ≡ 1 + cell_sum left c')
  advance_lem f free free' c c' h =
      let (q, t, e, same) = advance_split f free free' c c' h in
      let facts = act_lem f (c.phase f) q free free' c.context t e in
      rw same (
        omega (arith, facts.0, cell_sum-set_phase held f q c t),
        omega (arith, facts.1, cell_sum-set_phase left f q c t),
      )

  advance_at_lem :
      (k : ℕ) (f : Feed) (free free' : ℕ) (cs cs' : List Cell)
      → advance_at sources k f free cs ≡ some (free', cs')
      → (free' + sum held cs' ≡ free + sum held cs) × (sum left cs ≡ 1 + sum left cs')
  unfolding advance_at
  advance_at_lem k f free free' [] cs' h = absurd (ground arith)
  advance_at_lem zero f free free' (c ∷ cs) cs' h = elim (Option-cases (advance sources f free c)) [
    | inl e ↦ absurd (ground arith)
    | inr ((n, c'), e) ↦
        let same : cs' ≡ c' ∷ cs = ground arith in
        let facts = advance_lem f free n c c' e in
        let free_same : free' ≡ n = ground arith in
        rw same (omega (arith, facts.0, free_same), omega (arith, facts.1))
  ]
  advance_at_lem (suc k) f free free' (c ∷ cs) cs' h =
      elim (Option-cases (advance_at sources k f free cs)) [
        | inl e ↦ absurd (ground arith)
        | inr ((n, ds), e) ↦
            let same : cs' ≡ c ∷ ds = ground arith in
            let facts = advance_at_lem k f free n cs ds e in
            let free_same : free' ≡ n = ground arith in
            rw same (omega (arith, facts.0, free_same), omega (arith, facts.1))
      ]

  -- What a step does to the list of sources.
  pub step_split :
      (k : ℕ) (f : Feed) (s t : State)
      → step sources k f s ≡ some t
      → advance_at sources k f s.free s.cells ≡ some (t.free, t.cells)
  unfolding step
  step_split k f s t h = elim (Option-cases (advance_at sources k f s.free s.cells)) [
    | inl e ↦ absurd (ground arith)
    | inr ((n, cs), e) ↦
        let same : (record { free = n; cells = cs }) ≡ t = ground arith in rw (← same) e
  ]

  pub step_lem :
      (k : ℕ) (f : Feed) (s t : State)
      → step sources k f s ≡ some t
      → (t.free + sum held t.cells ≡ s.free + sum held s.cells)
        × (sum left s.cells ≡ 1 + sum left t.cells)
  step_lem k f s t h = advance_at_lem k f s.free t.free s.cells t.cells (step_split k f s t h)
