-- ===== src/Config/Loaded.antt =====
-- What holds of every configuration that `Load` returns.
use server_validator.Prelude.{◌≡◌, ◌≢◌, ◌⊎◌, ◌↔◌, inl, inr, Option-cases, false, [], arith, none}
use server_validator.Prelude.Int.{ℤ, pos, negsuc}
use server_validator.Prelude.Float.{is_zero}
use server_validator.Text.{Text, is_empty}
use server_validator.Fmt.{Fmt}
use server_validator.Sink.{configured}
use server_validator.Sink.Validate.{IsComplete, validate-none_iff}
use server_validator.Sink.Dsn.{ok, Result-cases}
use server_validator.Config.{
  Config, Host, or_default, apply_defaults, sink_config, validate, read_raw, decode, load,
}

-- A configuration that the validator can run with.
pub record IsValid (c : Config) : Type 0 where
  pub server_set : c.oba_server_url ≢ []
  pub key_set : c.api_key ≢ []
  pub has_source : c.data_sources ≢ []
  pub sample_set : c.sample_size ≢ pos 0
  pub freshness_set : c.rt_freshness_seconds ≢ pos 0
  pub span_set : is_zero c.location_span ≡ false
  pub concurrency_set : c.max_concurrency ≢ pos 0
  pub timeout_set : c.timeout_seconds ≢ pos 0
  pub sink_complete : (configured (sink_config c) ≡ false) ⊎ IsComplete (sink_config c)

or_default-ne_zero : (x : ℤ) (n : ℤ) → n ≢ pos 0 → or_default x n ≢ pos 0
unfolding or_default
or_default-ne_zero (pos m) n h = ground arith
or_default-ne_zero (negsuc m) n h = ground arith

-- `validate` on settings that it accepts.
validate-none :
    (fmt : Fmt) (c : Config)
    → validate fmt c ≡ none
    → (c.oba_server_url ≢ [])
      × (c.api_key ≢ [])
      × (c.data_sources ≢ [])
      × ((configured (sink_config c) ≡ false) ⊎ IsComplete (sink_config c))
unfolding validate is_empty
validate-none fmt c h = ground (arith, validate-none_iff fmt (sink_config c))

validate_complete : (fmt : Fmt) (c : Config) → IsValid c → validate fmt c ≡ none
unfolding validate is_empty
validate_complete fmt c v = ground (arith, validate-none_iff fmt (sink_config c))

span_set_lem : (host : Host) (d : Config) → is_zero (apply_defaults host d).location_span ≡ false
unfolding apply_defaults
span_set_lem host d = ground arith

defaults-IsValid :
    (fmt : Fmt) (host : Host) (d : Config)
    → validate fmt (apply_defaults host d) ≡ none
    → IsValid (apply_defaults host d)
unfolding apply_defaults
defaults-IsValid fmt host d h =
    let parts = validate-none fmt (apply_defaults host d) h in
    record {
      server_set = parts.0;
      key_set = parts.1;
      has_source = parts.2;
      sample_set = or_default-ne_zero d.sample_size (pos 3) (ground arith);
      freshness_set = or_default-ne_zero d.rt_freshness_seconds (pos 300) (ground arith);
      span_set = span_set_lem host d;
      concurrency_set = or_default-ne_zero d.max_concurrency (pos 4) (ground arith);
      timeout_set = or_default-ne_zero d.timeout_seconds (pos 120) (ground arith);
      sink_complete = parts.3;
    }

abbrev Origin : Fmt → Host → Text → Config → Type 0
Origin fmt host arg c =
    (raw : Text) × (d : Config) × (read_raw host arg ≡ ok raw)
    × (host.unmarshal raw ≡ ok d)
    × (c ≡ apply_defaults host d)
    × IsValid c

load_sound :
    (fmt : Fmt) (host : Host) (arg : Text) (c : Config)
    → load fmt host arg ≡ ok c
    → Origin fmt host arg c
unfolding load decode
load_sound fmt host arg c h = elim (Result-cases (read_raw host arg)) [
  | inl (e, p) ↦ absurd (ground arith)
  | inr (raw, p) ↦ elim (Result-cases (host.unmarshal raw)) [
    | inl (e, q) ↦ absurd (ground arith)
    | inr (d, q) ↦ elim (Option-cases (validate fmt (apply_defaults host d))) [
      | inl v ↦
          let same : c ≡ apply_defaults host d = ground arith in
          (raw, d, p, q, same, rw same (defaults-IsValid fmt host d v))
      | inr (e, v) ↦ absurd (ground arith)
    ]
  ]
]

load_complete :
    (fmt : Fmt) (host : Host) (arg : Text) (c : Config)
    → Origin fmt host arg c
    → load fmt host arg ≡ ok c
unfolding load decode
load_complete fmt host arg c (raw, d, e, f, g, v) = ground (arith, validate_complete fmt c v)

-- `Load` returns a configuration exactly when the argument, or the file that it names, decodes,
-- the result is the decoded one with the defaults filled in, and it is valid.
pub load-ok_iff :
    (fmt : Fmt) (host : Host) (arg : Text) (c : Config)
    → (load fmt host arg ≡ ok c) ↔ (
        (raw : Text) × (d : Config) × (read_raw host arg ≡ ok raw)
        × (host.unmarshal raw ≡ ok d)
        × (c ≡ apply_defaults host d)
        × IsValid c)
load-ok_iff fmt host arg c = (load_sound fmt host arg c, load_complete fmt host arg c)

-- Filling in the defaults a second time changes nothing.
apply_defaults_idem :
    (host : Host) (c : Config) → apply_defaults host (apply_defaults host c) ≡ apply_defaults host c
unfolding apply_defaults or_default is_empty
apply_defaults_idem host c = ground arith
