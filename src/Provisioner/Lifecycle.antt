-- ===== src/Provisioner/Lifecycle.antt =====
-- internal/controller/provisioner_lifecycle.go: the status and the finalizer of a ResourceClaim. `now`
-- is the time that SetPhase reads from the clock.
use score_orchestrator.Base.{
  ℕ, String, Bool, true, false, not, ◌&&◌, Option, none, some, [], ◌∷◌, ◌++◌, ◌==◌, any, keep, eqb,
  if◌then◌else◌, is_some,
}
use score_orchestrator.Api.Claim.{
  ResourceClaim, ResourceClaimOutputs, ClaimPhase, unset, pending, claiming, bound, failed,
}

-- a == b
abbrev pub same_phase : ClaimPhase → ClaimPhase → Bool
same_phase unset unset = true
same_phase pending pending = true
same_phase claiming claiming = true
same_phase bound bound = true
same_phase failed failed = true
same_phase _ _ = false

unfoldable pub set_phase : ℕ → ClaimPhase → String → String → ResourceClaim → ResourceClaim
set_phase now phase reason message claim = record claim {
  status = record claim.status {
    last_transition_time =
        if not (same_phase claim.status.phase phase)
        then some now
        else claim.status.last_transition_time;
    phase = phase;
    reason = reason;
    message = message;
    observed_generation = claim.generation;
  };
}

-- SetPending, SetClaiming and SetFailed are this at their phase.
unfoldable pub set_without_outputs :
    ℕ → ClaimPhase → String → String → ResourceClaim → ResourceClaim
unfolding set_phase
set_without_outputs now phase reason message claim =
    let c = set_phase now phase reason message claim in
    record c { status = record c.status { outputs_available = false; outputs = none } }

abbrev pub set_pending : ℕ → String → String → ResourceClaim → ResourceClaim
set_pending now = set_without_outputs now pending

abbrev pub set_claiming : ℕ → String → String → ResourceClaim → ResourceClaim
set_claiming now = set_without_outputs now claiming

abbrev pub set_failed : ℕ → String → String → ResourceClaim → ResourceClaim
set_failed now = set_without_outputs now failed

unfoldable pub set_bound : ℕ → Option ResourceClaimOutputs → ResourceClaim → ResourceClaim
unfolding set_phase
set_bound now outputs claim =
    let c = set_phase now bound "Succeeded" "Resource successfully provisioned" claim in
    record c { status = record c.status { outputs = outputs; outputs_available = true } }

abbrev pub resource_claim_finalizer : String
resource_claim_finalizer = "provisioner.score.dev/finalizer"

unfoldable pub has_finalizer : ResourceClaim → Bool
has_finalizer claim = any (λ f. f == resource_claim_finalizer) claim.finalizers

abbrev pub is_being_deleted : ResourceClaim → Bool
is_being_deleted claim = is_some claim.deletion_timestamp

unfoldable pub needs_finalizer : ResourceClaim → Bool
needs_finalizer claim = is_some claim.deletion_timestamp && not (has_finalizer claim)

unfoldable pub add_finalizer : ResourceClaim → ResourceClaim
add_finalizer claim =
    if not (has_finalizer claim)
    then record claim {
      metadata = record claim.metadata {
        finalizers = claim.finalizers ++ resource_claim_finalizer ∷ [];
      };
    }
    else claim

unfoldable pub remove_finalizer : ResourceClaim → ResourceClaim
remove_finalizer claim = record claim {
  metadata = record claim.metadata {
    finalizers = keep (λ f. not (f == resource_claim_finalizer)) claim.finalizers;
  };
}

unfoldable pub should_reconcile : ResourceClaim → Bool
unfolding has_finalizer
should_reconcile claim =
    if is_being_deleted claim && not (has_finalizer claim)
    then false
    else if is_being_deleted claim
    then true
    else if same_phase claim.status.phase bound
        && eqb claim.status.observed_generation claim.generation
    then false
    else true

-- ctrl.Result, with its delay in seconds
pub record CtrlResult : Type 0 where
  pub requeue : Bool
  pub requeue_after : ℕ

abbrev pub done : CtrlResult
done = record { requeue = false; requeue_after = 0 }

abbrev pub after : ℕ → CtrlResult
after seconds = record { requeue = false; requeue_after = seconds }

abbrev pub at_once : CtrlResult
at_once = record { requeue = true; requeue_after = 0 }

-- The result that goes with the error, or with none.
unfoldable pub get_reconcile_result : ResourceClaim → Bool → CtrlResult
get_reconcile_result claim true = after 120
get_reconcile_result claim false = elim claim.status.phase [
  | pending ↦ after 30
  | claiming ↦ after 60
  | bound ↦ after 600
  | failed ↦ after 300
  | unset ↦ done
]
