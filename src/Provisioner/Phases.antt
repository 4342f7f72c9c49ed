-- ===== src/Provisioner/Phases.antt =====
-- The handlers of the phases of internal/controller/provisioner_controller.go. A handler takes the
-- store and the claim in memory, and gives both back with the events that it recorded, its result
-- and its error.
use score_orchestrator.Base.{ℕ, String, Option, none, some, List, [], ◌∷◌}
use score_orchestrator.Base.Text.{joined}
use score_orchestrator.Base.Result.{Result, ok, err}
use score_orchestrator.Api.Claim.{
  ResourceClaim, ResourceClaimOutputs, ClaimPhase, unset, pending, claiming, bound, failed,
}
use score_orchestrator.Provisioner.Outputs.{validate_outputs}
use score_orchestrator.Provisioner.Lifecycle.{
  set_claiming, set_failed, set_bound, CtrlResult, done, after, at_once,
}
use score_orchestrator.Provisioner.Strategy.{Strategy, Selector, get_strategy}

pub data EventType : Type 0 where
  normal warning : EventType

pub record Event : Type 0 where
  pub type : EventType
  pub reason : String
  pub message : String

pub record Outcome (Store : Type 0) : Type 0 where
  pub store : Store
  pub claim : ResourceClaim
  pub events : List Event
  pub result : CtrlResult
  pub error : Option String

abbrev pub event : EventType → String → String → List Event
event type reason message = record { type = type; reason = reason; message = message } ∷ []

-- The error of GetStrategy.
abbrev pub no_strategy : String → String
no_strategy type = joined "no strategy registered for resource type: " type

module _ {Store : Type 0} (now : ℕ) where
  abbrev stopped : Store → ResourceClaim → List Event → String → Outcome Store
  stopped store claim events e = record {
    store = store;
    claim = claim;
    events = events;
    result = done;
    error = some e;
  }

  -- What handlePendingPhase and handleClaimingPhase do with the outputs of Provision, by the error
  -- of ValidateOutputs.
  unfoldable pub bind_outputs :
      Store → ResourceClaim → Option ResourceClaimOutputs → Option String → Outcome Store
  bind_outputs store claim outputs (some e) =
      stopped store (set_failed now "ProjectionError" (joined "Invalid outputs: " e) claim) [] e
  bind_outputs store claim outputs none = record {
    store = store;
    claim = set_bound now outputs claim;
    events = event normal "Provisioned" "Resource successfully provisioned";
    result = done;
    error = none;
  }

  -- What they do with the answer of Provision; they differ in the message of a failure.
  unfoldable pub after_provision :
      String → ResourceClaim → Store × Result String (Option ResourceClaimOutputs) → Outcome Store
  unfolding bind_outputs
  after_provision message claim (store, err e) =
      stopped store (set_failed now "ClaimFailed" (joined message e) claim)
        (event warning "ProvisionFailed" e) e
  after_provision message claim (store, ok outputs) =
      bind_outputs store claim outputs (validate_outputs outputs)

  unfoldable pub handle_pending_phase : Strategy Store → Store → ResourceClaim → Outcome Store
  unfolding after_provision
  handle_pending_phase strategy store claim =
      after_provision "Provisioning failed: " claim (strategy.provision store claim)

  abbrev unchanged : Store → ResourceClaim → CtrlResult → Outcome Store
  unchanged store claim result = record {
    store = store;
    claim = claim;
    events = [];
    result = result;
    error = none;
  }

  -- The three handlers that ask for the status of the resource, by the answer.
  unfoldable pub claiming_by_status :
      Strategy Store
      → Store
      → ResourceClaim
      → Result String (ClaimPhase × String × String)
      → Outcome Store
  unfolding after_provision
  claiming_by_status strategy store claim (err e) =
      stopped store (set_failed now "ClaimFailed" (joined "Status check failed: " e) claim) [] e
  claiming_by_status strategy store claim (ok (bound, reason, message)) =
      after_provision "Failed to get outputs: " claim (strategy.provision store claim)
  claiming_by_status strategy store claim (ok (failed, reason, message)) =
      stopped store (set_failed now reason message claim) (event warning "ProvisionFailed" message)
        (joined "provisioning failed: " message)
  claiming_by_status strategy store claim (ok (phase, reason, message)) =
      unchanged store claim (after 10)

  unfoldable pub handle_claiming_phase : Strategy Store → Store → ResourceClaim → Outcome Store
  unfolding claiming_by_status
  handle_claiming_phase strategy store claim =
      claiming_by_status strategy store claim (strategy.get_status store claim)

  unfoldable pub bound_by_status :
      Store → ResourceClaim → Result String (ClaimPhase × String × String) → Outcome Store
  bound_by_status store claim (err e) = stopped store claim [] e
  bound_by_status store claim (ok (failed, reason, message)) =
      stopped store (set_failed now reason message claim)
        (event warning "ProvisionFailed" "Resource became unhealthy")
        (joined "resource became unhealthy: " message)
  bound_by_status store claim (ok (phase, reason, message)) = unchanged store claim done

  unfoldable pub handle_bound_phase : Strategy Store → Store → ResourceClaim → Outcome Store
  unfolding bound_by_status
  handle_bound_phase strategy store claim =
      bound_by_status store claim (strategy.get_status store claim)

  unfoldable pub failed_by_status :
      Store → ResourceClaim → Result String (ClaimPhase × String × String) → Outcome Store
  failed_by_status store claim (err e) = unchanged store claim done
  failed_by_status store claim (ok (bound, reason, message)) =
      unchanged store (set_claiming now "Claiming" "Retrying provisioning after recovery" claim)
        at_once
  failed_by_status store claim (ok (phase, reason, message)) = unchanged store claim done

  unfoldable pub handle_failed_phase : Strategy Store → Store → ResourceClaim → Outcome Store
  unfolding failed_by_status
  handle_failed_phase strategy store claim =
      failed_by_status store claim (strategy.get_status store claim)

  -- The switch on the phase.
  unfoldable pub handle_phase : Strategy Store → Store → ResourceClaim → ClaimPhase → Outcome Store
  unfolding handle_pending_phase handle_claiming_phase handle_bound_phase handle_failed_phase
  handle_phase strategy store claim unset = handle_pending_phase strategy store claim
  handle_phase strategy store claim pending = handle_pending_phase strategy store claim
  handle_phase strategy store claim claiming = handle_claiming_phase strategy store claim
  handle_phase strategy store claim bound = handle_bound_phase strategy store claim
  handle_phase strategy store claim failed = handle_failed_phase strategy store claim

  unfoldable pub provision_by : Store → ResourceClaim → Option (Strategy Store) → Outcome Store
  unfolding handle_phase
  provision_by store claim none =
      stopped store
        (set_failed now "ClaimFailed"
          (joined "No strategy available: " (no_strategy claim.spec.type)) claim)
        (event warning "ProvisionFailed" (no_strategy claim.spec.type))
        (joined "strategy not found: " (no_strategy claim.spec.type))
  provision_by store claim (some strategy) = handle_phase strategy store claim claim.status.phase

  unfoldable pub handle_provisioning : Selector Store → Store → ResourceClaim → Outcome Store
  unfolding provision_by
  handle_provisioning selector store claim =
      provision_by store claim (get_strategy claim.spec.type selector)
