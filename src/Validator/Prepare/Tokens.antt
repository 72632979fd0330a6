-- ===== src/Validator/Prepare/Tokens.antt =====
-- The semaphore bounds how many feeds are fetched at a time.
use server_validator.Prelude.{
  ℕ, zero, suc, ◌+◌, ◌*◌, ◌≤◌, ◌≡◌, ◌⊎◌, inl, inr, refl, List, [], ◌∷◌, arith,
}
use server_validator.Prelude.Int.{ℤ, pos, negsuc, ◌<ℤ◌}
use server_validator.Text.{Text}
use server_validator.Config.{DataSource, Config}
use server_validator.Validator.Prepare.{
  feed_url, State, Sources, capacity, first_phase, new_cell, new_cells, initial, Run, stop, go,
}
use server_validator.Validator.Prepare.Moves.{held, left, sum, step_lem}

module _ (sources : Sources) where
  pub Run-sums :
      (n : ℕ) (s t : State)
      → Run sources n s t
      → (t.free + sum held t.cells ≡ s.free + sum held s.cells)
        × (sum left s.cells ≡ n + sum left t.cells)
  Run-sums n s t (stop v) = (refl, omega arith)
  Run-sums n s t (go n' k f s' u t' h r) =
      let rest = Run-sums n' u t' r in
      let facts = step_lem sources k f s' u h in
      (omega (arith, rest.0, facts.0), omega (arith, rest.1, facts.1))

-- The number of the feeds of a source that have a URL, and of all sources.
abbrev has_url : Text → ℕ
has_url [] = 0
has_url (c ∷ url) = 1

abbrev source_feeds : DataSource → ℕ
source_feeds d =
    has_url d.static_gtfs_feed_url
    + has_url d.vehicle_positions_url
    + has_url d.trip_updates_url
    + has_url d.service_alerts_url

abbrev pub feed_count : List DataSource → ℕ
feed_count [] = 0
feed_count (d ∷ ds) = source_feeds d + feed_count ds

first_phase-held : (url : Text) → held (first_phase url) ≡ 0
unfolding first_phase
first_phase-held [] = refl
first_phase-held (c ∷ url) = refl

first_phase-left : (url : Text) → left (first_phase url) ≡ 5 * has_url url
unfolding first_phase
first_phase-left [] = refl
first_phase-left (c ∷ url) = refl

new_cells-held : (i : ℕ) (ds : List DataSource) → sum held (new_cells i ds) ≡ 0
unfolding new_cells new_cell feed_url
new_cells-held i [] = refl
new_cells-held i (d ∷ ds) = omega (
  arith,
  new_cells-held (suc i) ds,
  first_phase-held d.static_gtfs_feed_url,
  first_phase-held d.vehicle_positions_url,
  first_phase-held d.trip_updates_url,
  first_phase-held d.service_alerts_url,
)

pub new_cells-left : (i : ℕ) (ds : List DataSource) → sum left (new_cells i ds) ≡ 5 * feed_count ds
unfolding new_cells new_cell feed_url
new_cells-left i [] = refl
new_cells-left i (d ∷ ds) = omega (
  arith,
  new_cells-left (suc i) ds,
  first_phase-left d.static_gtfs_feed_url,
  first_phase-left d.vehicle_positions_url,
  first_phase-left d.trip_updates_url,
  first_phase-left d.service_alerts_url,
)

-- The number of places: the configured one if it is positive, and otherwise 4.
abbrev pub IsLimit : ℤ → ℕ → Type 0
IsLimit n limit = ((pos 0 <ℤ n) × (pos limit ≡ n)) ⊎ ((¬ (pos 0 <ℤ n)) × (limit ≡ 4))

capacity-IsLimit : (n : ℤ) → IsLimit n (capacity n)
unfolding capacity
capacity-IsLimit (pos zero) = inr (omega arith, refl)
capacity-IsLimit (pos (suc n)) = inl (omega arith, refl)
capacity-IsLimit (negsuc n) = inr (omega arith, refl)

-- No place is lost and none is made.
pub Run-capacity :
    (sources : Sources) (cfg : Config) (n : ℕ) (t : State)
    → Run sources n (initial cfg) t
    → t.free + sum held t.cells ≡ capacity cfg.max_concurrency
unfolding initial
Run-capacity sources cfg n t r =
    omega (arith, (Run-sums sources n (initial cfg) t r).0, new_cells-held 0 cfg.data_sources)

-- In whatever order the goroutines act, the places of the semaphore that they hold and those that
-- are free are together as many as the configured limit, or 4 if that is not positive; so no more
-- than that are held.
pub Run-held :
    (sources : Sources) (cfg : Config) (n : ℕ) (t : State)
    → Run sources n (initial cfg) t
    → (limit : ℕ) × IsLimit cfg.max_concurrency limit
      × (t.free + sum held t.cells ≡ limit)
      × (sum held t.cells ≤ limit)
Run-held sources cfg n t r =
    let total = Run-capacity sources cfg n t r in
    (
      capacity cfg.max_concurrency,
      capacity-IsLimit cfg.max_concurrency,
      total,
      omega (arith, total),
    )
