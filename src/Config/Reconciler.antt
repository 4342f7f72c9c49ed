-- ===== src/Config/Reconciler.antt =====
-- internal/config/reconciler_config.go and reconciler_loader.go: the settings of the reconciler, and
-- their loading. A duration is its number of nanoseconds. The float64 of the multiplier, its
-- comparison with 1.0, and the YAML decoder are parameters.
pub mod Bounds
use score_orchestrator.Base.{
  ℕ, ◌*◌, String, Bool, true, false, not, Option, none, some, List, [], ◌∷◌, if◌then◌else◌,
}
use score_orchestrator.Base.Int.{ℤ, pos, ltb_ℤ}
use score_orchestrator.Base.Dict.{Dict, lookup}
use score_orchestrator.Base.Text.{joined}
use score_orchestrator.Base.Result.{Result, ok, err}
use score_orchestrator.Api.Meta.{Raw, empty, malformed, json}
use score_orchestrator.Api.Config.{OrchestratorConfig}

pub record RetryConfig (Float : Type 0) : Type 0 where
  pub default_requeue_delay : ℤ
  pub conflict_requeue_delay : ℤ
  pub max_retries : ℤ
  pub backoff_multiplier : Float

pub record TimeoutConfig : Type 0 where
  pub claim_timeout : ℤ
  pub plan_timeout : ℤ
  pub status_timeout : ℤ
  pub deletion_timeout : ℤ

pub record FeatureConfig : Type 0 where
  pub enable_detailed_logging : Bool
  pub enable_metrics : Bool
  pub enable_tracing : Bool
  pub enable_experimental_features : Bool

pub record ReconcilerConfig (Float : Type 0) : Type 0 where
  pub retry : RetryConfig Float
  pub timeouts : TimeoutConfig
  pub features : FeatureConfig

abbrev pub seconds : ℕ → ℤ
seconds n = pos (n * 1000000000)

-- d <= 0
abbrev pub at_most_zero : ℤ → Bool
at_most_zero d = not (ltb_ℤ (pos 0) d)

-- A setting that Validate puts to its default value where a test holds.
abbrev pub or_default {ℓ} : {A : Type ℓ} → (A → Bool) → A → A → A
or_default bad value default_value = if bad value then default_value else value

-- What ConfigLoader.LoadConfig fails with: ErrConfigNotFound, or another error by its text.
pub data LoaderError : Type 0 where
  config_not_found : LoaderError
  other_error : String → LoaderError

-- The configuration that extractReconcilerConfig is given, by its dynamic type.
pub data AnyConfig (Section : Type 0) : Type 0 where
  config_map : Dict Section → AnyConfig Section
  config_struct : OrchestratorConfig → AnyConfig Section
  other_type : String → AnyConfig Section

pub data ConfigEvent : Type 0 where
  added : OrchestratorConfig → ConfigEvent
  modified : OrchestratorConfig → ConfigEvent
  deleted : ConfigEvent
  error : String → ConfigEvent

-- gopkg.in/yaml.v3: a map from bytes, bytes from a value, and bytes laid over a configuration.
pub record Yaml (Section Float : Type 0) : Type 0 where
  pub unmarshal_map : Raw → Result String Section
  pub marshal : Section → Result String String
  pub unmarshal_onto : String → ReconcilerConfig Float → Result String (ReconcilerConfig Float)

pub record ReconcilerConfigLoader (Float : Type 0) : Type 0 where
  pub cache : Option (ReconcilerConfig Float)

-- fmt.Errorf("<context>: %w", err)
abbrev pub with_context : {A : Type 0} → String → Result String A → Result String A
with_context context (ok a) = ok a
with_context context (err e) = err (joined context e)

module _ {Float : Type 0} (two : Float) (at_most_one : Float → Bool) where
  abbrev pub default_reconciler_config : ReconcilerConfig Float
  default_reconciler_config = record {
    retry = record {
      default_requeue_delay = seconds 30;
      conflict_requeue_delay = seconds 1;
      max_retries = pos 3;
      backoff_multiplier = two;
    };
    timeouts = record {
      claim_timeout = seconds 300;
      plan_timeout = seconds 180;
      status_timeout = seconds 30;
      deletion_timeout = seconds 600;
    };
    features = record {
      enable_detailed_logging = false;
      enable_metrics = true;
      enable_tracing = false;
      enable_experimental_features = false;
    };
  }

  -- Validate, which corrects the configuration and never fails.
  unfoldable pub validate : ReconcilerConfig Float → ReconcilerConfig Float
  validate c = record c {
    retry = record {
      default_requeue_delay = or_default at_most_zero c.retry.default_requeue_delay (seconds 30);
      conflict_requeue_delay = or_default at_most_zero c.retry.conflict_requeue_delay (seconds 1);
      max_retries = or_default (λ n. ltb_ℤ n (pos 0)) c.retry.max_retries (pos 3);
      backoff_multiplier = or_default at_most_one c.retry.backoff_multiplier two;
    };
    timeouts = record {
      claim_timeout = or_default at_most_zero c.timeouts.claim_timeout (seconds 300);
      plan_timeout = or_default at_most_zero c.timeouts.plan_timeout (seconds 180);
      status_timeout = or_default at_most_zero c.timeouts.status_timeout (seconds 30);
      deletion_timeout = or_default at_most_zero c.timeouts.deletion_timeout (seconds 600);
    };
  }

  abbrev pub new_reconciler_config_loader : ReconcilerConfigLoader Float
  new_reconciler_config_loader = record { cache = some default_reconciler_config }

  abbrev pub get_cached_config : ReconcilerConfigLoader Float → ReconcilerConfig Float
  get_cached_config loader = elim loader.cache [ none ↦ default_reconciler_config | some c ↦ c ]

  module _ {Section : Type 0} (yaml : Yaml Section Float) where
    -- The configured section over the default configuration.
    unfoldable pub overlay : Section → Result String (ReconcilerConfig Float)
    overlay section = elim (yaml.marshal section) [
      | err e ↦ err (joined "failed to marshal reconciler config: " e)
      | ok bytes ↦
          with_context "failed to unmarshal reconciler config: "
            (yaml.unmarshal_onto bytes default_reconciler_config)
    ]

    unfoldable pub overlay_raw : Raw → Result String (ReconcilerConfig Float)
    overlay_raw raw = elim (yaml.unmarshal_map raw) [
      | err e ↦ err (joined "failed to unmarshal reconciler raw data: " e)
      | ok section ↦ overlay section
    ]

    unfoldable pub extract_reconciler_config :
        AnyConfig Section → Result String (ReconcilerConfig Float)
    extract_reconciler_config (config_map entries) = elim (lookup "reconciler" entries) [
      | none ↦ ok default_reconciler_config
      | some section ↦ overlay section
    ]
    extract_reconciler_config (config_struct config) = elim config.reconciler [
      | none ↦ ok default_reconciler_config
      | some empty ↦ ok default_reconciler_config
      | some malformed ↦ overlay_raw malformed
      | some (json value) ↦ overlay_raw (json value)
    ]
    extract_reconciler_config (other_type name) = err (joined "unexpected config type: " name)

    -- A configuration that was extracted is validated and cached; an error is given its context.
    unfoldable pub cached :
        String
        → ReconcilerConfigLoader Float
        → Result String (ReconcilerConfig Float)
        → ReconcilerConfigLoader Float × Result String (ReconcilerConfig Float)
    cached context loader (err e) = (loader, err (joined context e))
    cached context loader (ok c) = (record loader { cache = some (validate c) }, ok (validate c))

    -- LoadConfig, by what the loader of the ConfigMap answers.
    unfoldable pub load_config :
        ReconcilerConfigLoader Float
        → Result LoaderError OrchestratorConfig
        → ReconcilerConfigLoader Float × Result String (ReconcilerConfig Float)
    load_config loader (err config_not_found) = (loader, ok default_reconciler_config)
    load_config loader (err (other_error e)) =
        (loader, err (joined "failed to load orchestrator config: " e))
    load_config loader (ok config) =
        cached "failed to extract reconciler config: " loader
          (extract_reconciler_config (config_struct config))

    -- One round of the loop of Watch, with what the callback is given.
    unfoldable pub handle_event :
        ReconcilerConfigLoader Float
        → ConfigEvent
        → ReconcilerConfigLoader Float × Result String (ReconcilerConfig Float)
    handle_event loader (error e) = (loader, err e)
    handle_event loader deleted =
        (record loader { cache = some default_reconciler_config }, ok default_reconciler_config)
    handle_event loader (added config) =
        cached "failed to extract reconciler config from updated config: " loader
          (extract_reconciler_config (config_struct config))
    handle_event loader (modified config) =
        cached "failed to extract reconciler config from updated config: " loader
          (extract_reconciler_config (config_struct config))
