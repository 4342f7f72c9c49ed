-- ===== src/Workloads/Phases.antt =====
-- internal/controller/phases/interface.go and internal/reconcile/finalizer.go: what a phase is given
-- and what it answers, and the finalizer of a Workload.
use score_orchestrator.Base.{
  ℕ, String, Bool, true, false, not, Option, none, some, List, [], ◌∷◌, ◌++◌, ◌==◌, any, keep,
  if◌then◌else◌,
}
use score_orchestrator.Base.Result.{Result, ok, err}
use score_orchestrator.Api.Claim.{ResourceClaim}
use score_orchestrator.Api.Workload.{Workload}
use score_orchestrator.Api.Plan.{WorkloadPlan}
use score_orchestrator.Status.{ClaimAggregation}
use score_orchestrator.Provisioner.Phases.{Event}
use score_orchestrator.Workloads.{ApiError, Client}
use score_orchestrator.Workloads.Claims.{ClaimError}
use score_orchestrator.Workloads.Plans.Errors.{PlanError}

pub data PhaseError : Type 0 where
  api : ApiError → PhaseError
  claim : String → ClaimError → PhaseError
  plan : PlanError → PhaseError

-- `requeue_after` is in seconds.
pub record PhaseResult : Type 0 where
  pub skip : Bool
  pub requeue : Bool
  pub requeue_after : ℕ
  pub error : Option PhaseError

abbrev pub completed : PhaseResult
completed = record { skip = false; requeue = false; requeue_after = 0; error = none }

abbrev pub failed_with : PhaseError → PhaseResult
failed_with e = record { skip = false; requeue = false; requeue_after = 0; error = some e }

abbrev pub requeued : ℕ → PhaseResult
requeued seconds = record { skip = false; requeue = true; requeue_after = seconds; error = none }

-- The part of PhaseContext that changes, with the store and the events so far. The client, the
-- managers and the configuration are arguments of the phases.
pub record PhaseContext (Store : Type 0) : Type 0 where
  pub store : Store
  pub workload : Workload
  pub events : List Event
  pub claims : List ResourceClaim
  pub claim_agg : ClaimAggregation
  pub plan : Option WorkloadPlan
  pub inputs_valid : Bool
  pub validation_reason : String
  pub validation_message : String

abbrev pub Phased : Type 0 → Type 0
Phased Store = PhaseContext Store × PhaseResult

abbrev pub workload_finalizer : String
workload_finalizer = "workloads.score.dev/finalizer"

unfoldable pub holds_finalizer : Workload → Bool
holds_finalizer w = any (λ f. f == workload_finalizer) w.finalizers

abbrev pub with_finalizers : Workload → List String → Workload
with_finalizers w finalizers = record w { metadata = record w.metadata { finalizers = finalizers } }

module _ {Store : Type 0} where
  -- The object in memory is the server's answer, or the one that was sent if the update failed.
  unfoldable pub after_update :
      Workload → Store × Result ApiError Workload → Store × Workload × Option ApiError
  after_update sent (store, ok answered) = (store, answered, none)
  after_update sent (store, err e) = (store, sent, some e)

  unfoldable pub ensure_finalizer :
      Client Store → Store → Workload → Store × Workload × Option ApiError
  unfolding holds_finalizer after_update
  ensure_finalizer client store w =
      let sent = with_finalizers w (w.finalizers ++ (workload_finalizer ∷ [])) in
      if holds_finalizer w
      then (store, w, none)
      else after_update sent (client.update_workload store sent)

  unfoldable pub drop_finalizer :
      Client Store → Store → Workload → Store × Workload × Option ApiError
  unfolding holds_finalizer after_update
  drop_finalizer client store w =
      let sent = with_finalizers w (keep (λ f. not (f == workload_finalizer)) w.finalizers) in
      if not (holds_finalizer w)
      then (store, w, none)
      else after_update sent (client.update_workload store sent)
