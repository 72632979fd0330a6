-- ===== src/Cmd/Overrides.antt =====
-- cmd/oba-validator/main.go: the flags that override the configuration.
use server_validator.Prelude.{Bool, ◌||◌, not, if◌then◌else◌, ◌≢◌, arith}
use server_validator.Prelude.Int.{ℤ, pos, negsuc, ltb_ℤ, ◌<ℤ◌}
use server_validator.Text.{Text, is_empty}
use server_validator.Config.{Config, sink_config}
use server_validator.Config.Loaded.{IsValid}

pub record Overrides : Type 0 where
  pub json_out : Bool
  pub sample_size : ℤ
  pub freshness : ℤ
  pub timeout : ℤ
  pub cache_dir : Text
  pub no_cache : Bool
  pub refresh : Bool

-- `if x > 0 { old = x }`
unfoldable pub if_positive : ℤ → ℤ → ℤ
if_positive x old = if ltb_ℤ (pos 0) x then x else old

unfoldable pub apply_overrides : Config → Overrides → Config
apply_overrides cfg o = record cfg {
  sample_size = if_positive o.sample_size cfg.sample_size;
  rt_freshness_seconds = if_positive o.freshness cfg.rt_freshness_seconds;
  timeout_seconds = if_positive o.timeout cfg.timeout_seconds;
  cache_dir = (if not (is_empty o.cache_dir) then o.cache_dir else cfg.cache_dir);
  no_cache = o.no_cache || cfg.no_cache;
  refresh = o.refresh || cfg.refresh;
}

if_positive-ne_zero : (x old : ℤ) → old ≢ pos 0 → if_positive x old ≢ pos 0
unfolding if_positive
if_positive-ne_zero (pos n) old h = ground arith
if_positive-ne_zero (negsuc n) old h = ground arith

if_positive-negative : (x old : ℤ) → if_positive x old <ℤ pos 0 → old <ℤ pos 0
unfolding if_positive
if_positive-negative (pos n) old h = ground arith
if_positive-negative (negsuc n) old h = ground arith

-- Whatever the flags are, a valid configuration stays valid, and the sample size becomes negative
-- only if it was.
pub apply_overrides-IsValid :
    (cfg : Config) (o : Overrides)
    → IsValid cfg
    → IsValid (apply_overrides cfg o)
      × ((apply_overrides cfg o).sample_size <ℤ pos 0 → cfg.sample_size <ℤ pos 0)
unfolding apply_overrides sink_config
apply_overrides-IsValid cfg o v = (
  record {
    server_set = v.server_set;
    key_set = v.key_set;
    has_source = v.has_source;
    span_set = v.span_set;
    concurrency_set = v.concurrency_set;
    sink_complete = v.sink_complete;
    sample_set = if_positive-ne_zero o.sample_size cfg.sample_size v.sample_set;
    freshness_set = if_positive-ne_zero o.freshness cfg.rt_freshness_seconds v.freshness_set;
    timeout_set = if_positive-ne_zero o.timeout cfg.timeout_seconds v.timeout_set;
  },
  if_positive-negative o.sample_size cfg.sample_size,
)
