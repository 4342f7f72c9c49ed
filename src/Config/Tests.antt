-- ===== src/Config/Tests.antt =====
-- The validation of the configuration of the selection's tests, where every label is valid.
use score_orchestrator.Base.{ℕ, String, Bool, ◌≡◌, refl, Option, none, some, List, [], ◌∷◌, leb}
use score_orchestrator.Base.Int.{negsuc}
use score_orchestrator.Base.Result.{ok, err}
use score_orchestrator.Api.Meta.{Json, Raw, empty, malformed, json}
use score_orchestrator.Api.Config.{OrchestratorConfig}
use score_orchestrator.Config.Reconciler
use score_orchestrator.Config.Reconciler.{
  ReconcilerConfig, ReconcilerConfigLoader, Yaml, config_not_found, added, modified, deleted, error,
  seconds, new_reconciler_config_loader, default_reconciler_config, handle_event,
}
use score_orchestrator.Config.Reconciler.Bounds.{Call, load, event, Serves, handle_event-Serves}
use score_orchestrator.Base.Text.{split}
use score_orchestrator.Selection.Tests.{numbers, equal_labels, workload, config}
use score_orchestrator.Selection.Pipeline.{select_backend}
use score_orchestrator.Selection.Pipeline.Profile.{RefersToProfiles}
use score_orchestrator.Selection.Pipeline.Selected.{IsExplained}
use score_orchestrator.Config
use score_orchestrator.Config.{validate, validate_backends}
use score_orchestrator.Config.Constraints
use score_orchestrator.Config.Checked.{HasProfiles, validate_lem, validate-IsExplained}

abbrev any_label : String → Option String
any_label name = none

config_has_no_error : validate any_label config ≡ []
unfolding validate Config.metadata_errors Config.validate_profiles Config.validate_profiles_from
    Config.validate_name validate_backends Config.validate_backend Config.backend_id_errors
    Config.backend_errors Constraints.validate_template Constraints.validate_constraints
    Constraints.validate_resource_limits Constraints.validate_resource
    Config.validate_provisioners_from Config.validate_defaults Config.validate_selectors_from
    Config.validate_cross_references Config.selector_references Config.class_references split
config_has_no_error = refl

validate_lem_example : RefersToProfiles config.spec × HasProfiles config.spec.profiles
validate_lem_example = validate_lem any_label config config_has_no_error

validate-IsExplained_example :
    IsExplained numbers equal_labels workload config
      (select_backend numbers equal_labels config workload)
validate-IsExplained_example =
    validate-IsExplained any_label config numbers equal_labels workload config_has_no_error

-- A multiplier in tenths.
abbrev no_backoff : ℕ → Bool
no_backoff tenths = leb tenths 10

-- A section that sets a negative number of retries and a plan timeout of a minute.
abbrev yaml : Yaml ℕ ℕ
yaml = record {
  unmarshal_map = λ raw. elim raw [ malformed ↦ err "bad map" | empty ↦ ok 0 | json v ↦ ok 1 ];
  marshal = λ section. ok "maxRetries: -5, planTimeout: 1m";
  unmarshal_onto = λ text c. ok (record c {
    retry = record c.retry { max_retries = negsuc 4 };
    timeouts = record c.timeouts { plan_timeout = seconds 60 };
  });
}

abbrev configured : Raw → OrchestratorConfig
configured raw = record config { reconciler = some raw }

abbrev started : ReconcilerConfigLoader ℕ
started = new_reconciler_config_loader 20 no_backoff

abbrev with_minute : ReconcilerConfig ℕ
with_minute =
    let c = default_reconciler_config 20 no_backoff in
    record c { timeouts = record c.timeouts { plan_timeout = seconds 60 } }

negative_retries_are_three :
    (handle_event 20 no_backoff yaml started (added (configured (json Json.null)))).1
    ≡ ok with_minute
unfolding handle_event Reconciler.cached Reconciler.extract_reconciler_config Reconciler.overlay_raw
    Reconciler.overlay Reconciler.validate
negative_retries_are_three = refl

abbrev calls : List Call
calls =
    event (added (configured (json Json.null)))
    ∷ load (err config_not_found)
    ∷ event (modified (configured malformed))
    ∷ event (error "closed")
    ∷ load (ok (configured empty))
    ∷ event deleted
    ∷ []

handle_event-Serves_example : Serves 20 no_backoff yaml started calls
handle_event-Serves_example =
    handle_event-Serves 20 no_backoff yaml refl started calls
      (refl, refl, refl, refl, refl, refl, refl, refl)
