-- ===== src/Workloads/Pipeline.antt =====
-- internal/controller/reconciler/pipeline.go, the phases of a Workload that is not deleted
-- (internal/controller/phases), and Reconcile of internal/controller/workload_controller.go behind
-- its read.
pub mod Planned
pub mod Reported
use score_orchestrator.Base.{
  ℕ, String, Bool, true, false, not, Option, none, some, List, [], ◌∷◌, ◌++◌, is_some,
  if◌then◌else◌,
}
use score_orchestrator.Base.Text.{joined, codes, contains}
use score_orchestrator.Base.Result.{Result, ok, err}
use score_orchestrator.Api.Claim.{ResourceClaim}
use score_orchestrator.Api.Workload.{Workload}
use score_orchestrator.Api.Plan.{WorkloadPlan}
use score_orchestrator.Conditions.{inputs_valid}
use score_orchestrator.Status.{
  ClaimAggregation, aggregate_claim_statuses, update_workload_status_from_aggregation,
  set_status_condition, compute_final_status,
}
use score_orchestrator.Provisioner.Phases.{Event, normal, warning, event}
use score_orchestrator.Provisioner.Lifecycle.{CtrlResult, done}
use score_orchestrator.Workloads.{ApiError, is_not_found, is_conflict, Client}
use score_orchestrator.Workloads.Claims.{ClaimError, ensure_claims, get_claims, claim_error_text}
use score_orchestrator.Workloads.Plans.{Environment, Step, GetPlanError, ensure_plan, get_plan}
use score_orchestrator.Workloads.Plans.Errors.{PlanError, plan_error_text}
use score_orchestrator.Workloads.Phases.{
  PhaseError, api, claim, plan, PhaseResult, completed, failed_with, requeued, PhaseContext, Phased,
  ensure_finalizer,
}
use score_orchestrator.Workloads.Deletion.{deletion_phase}

-- The retry settings that the phases read, in seconds.
pub record RetryConfig : Type 0 where
  pub default_requeue_delay : ℕ
  pub conflict_requeue_delay : ℕ

-- DefaultReconcilerConfig
abbrev pub default_retry_config : RetryConfig
default_retry_config = record { default_requeue_delay = 30; conflict_requeue_delay = 1 }

pub data PhaseName : Type 0 where
  validation claims_phase plan_phase status_phase : PhaseName

-- ShouldSkip of each of the four phases.
abbrev pub should_skip : Workload → Bool
should_skip w = is_some w.deletion_timestamp

-- validateInputsAndPolicy
abbrev pub validate_inputs_and_policy : Workload → Bool × String × String
validate_inputs_and_policy w = (true, "Succeeded", "Workload specification is valid")

module _ {Store : Type 0} (client : Client Store) (kind_of : Result String String)
    (env : Environment) (retry : RetryConfig) where
  unfoldable pub validation_phase : PhaseContext Store → Phased Store
  validation_phase ctx =
      let (valid, reason, message) = validate_inputs_and_policy ctx.workload in
      (
        record ctx {
          inputs_valid = valid;
          validation_reason = reason;
          validation_message = message;
          workload = set_status_condition env.now inputs_valid valid reason message ctx.workload;
        },
        if not valid
            then record { skip = true; requeue = false; requeue_after = 0; error = none }
            else completed,
      )

  -- The second half of the claim phase, by the claims that are listed.
  unfoldable pub after_claims :
      PhaseContext Store → Result ApiError (List ResourceClaim) → Phased Store
  after_claims ctx (err e) = (ctx, failed_with (api e))
  after_claims ctx (ok claims) = (
    record ctx {
      claims = claims;
      claim_agg = aggregate_claim_statuses claims;
      workload =
          update_workload_status_from_aggregation env.now (aggregate_claim_statuses claims)
            ctx.workload;
    },
    completed,
  )

  unfoldable pub after_ensure :
      PhaseContext Store → Store × Option (String × ClaimError) → Phased Store
  after_ensure ctx (store, some (key, e)) = (
    record ctx {
      store = store;
      events =
          ctx.events
          ++ event warning "ClaimError" (
              joined "Failed to create resource claims: "
                (claim_error_text env.quoted ctx.workload key e));
    },
    failed_with (claim key e),
  )
  after_ensure ctx (store, none) =
      after_claims (record ctx { store = store }) (get_claims client store ctx.workload)

  unfoldable pub claim_phase : PhaseContext Store → Phased Store
  claim_phase ctx = after_ensure ctx (ensure_claims client kind_of ctx.store ctx.workload)

  abbrev pub plan_or_nil : Result GetPlanError WorkloadPlan → Option WorkloadPlan
  plan_or_nil (ok p) = some p
  plan_or_nil (err e) = none

  -- The errors of EnsurePlan that end the pipeline without being an error of it.
  unfoldable pub is_missing_outputs : String → Bool
  is_missing_outputs text = contains (codes text) (codes "missing required outputs for projection")

  -- The rest of the plan phase, by the error of EnsurePlan. An error in the read of the plan is none
  -- of the phase.
  unfoldable pub after_plan : PhaseContext Store → Option PlanError → Phased Store
  after_plan ctx none =
      (record ctx { plan = plan_or_nil (get_plan client ctx.store ctx.workload) }, completed)
  after_plan ctx (some e) = (
    ctx,
    if is_missing_outputs (plan_error_text env.quoted ctx.workload.name e)
        then record { skip = true; requeue = false; requeue_after = 0; error = none }
        else failed_with (plan e),
  )

  abbrev pub stepped : PhaseContext Store → Step Store → PhaseContext Store
  stepped ctx step = record ctx {
    store = step.store;
    workload = step.workload;
    events = ctx.events ++ step.events;
  }

  unfoldable pub plan_phase_of : PhaseContext Store → Phased Store
  plan_phase_of ctx =
      let step = ensure_plan client env ctx.store ctx.workload ctx.claims ctx.claim_agg in
      after_plan (stepped ctx step) step.error

  abbrev pub ready_event : Option String → List Event
  ready_event none = []
  ready_event (some reason) = event normal reason "Workload is ready and operational"

  unfoldable pub after_status : PhaseContext Store → Store × Option ApiError → Phased Store
  after_status ctx (store, none) = (record ctx { store = store }, completed)
  after_status ctx (store, some e) = (
    record ctx { store = store },
    if is_conflict e.kind then requeued retry.conflict_requeue_delay else failed_with (api e),
  )

  unfoldable pub status_phase_of : PhaseContext Store → Phased Store
  status_phase_of ctx =
      let final = compute_final_status env.now ctx.plan ctx.workload in
      after_status (record ctx { workload = final.0; events = ctx.events ++ ready_event final.1 })
        (client.update_workload_status ctx.store final.0)

  unfoldable pub execute_phase : PhaseName → PhaseContext Store → Phased Store
  execute_phase validation ctx = validation_phase ctx
  execute_phase claims_phase ctx = claim_phase ctx
  execute_phase plan_phase ctx = plan_phase_of ctx
  execute_phase status_phase ctx = status_phase_of ctx

  -- What the pipeline ends with: the context, the result and the error.
  abbrev pub Ended : Type 0
  Ended = PhaseContext Store × CtrlResult × Option PhaseError

  -- The result of a phase, by its error, Requeue, RequeueAfter and Skip, and the phases behind it.
  unfoldable pub after_result :
      (PhaseContext Store → Ended)
      → PhaseContext Store
      → Option PhaseError
      → Bool
      → ℕ
      → Bool
      → Ended
  after_result rest ctx (some e) requeue seconds skip = (ctx, done, some e)
  after_result rest ctx none true seconds skip =
      (ctx, record { requeue = true; requeue_after = seconds }, none)
  after_result rest ctx none false seconds true = (ctx, done, none)
  after_result rest ctx none false seconds false = rest ctx

  unfoldable pub after_phase : (PhaseContext Store → Ended) → Phased Store → Ended
  unfolding after_result
  after_phase rest (ctx, result) =
      after_result rest ctx result.error result.requeue result.requeue_after result.skip

  unfoldable pub run_phases : List PhaseName → PhaseContext Store → Ended
  run_phases [] ctx = (ctx, done, none)
  run_phases (phase ∷ phases) ctx =
      let rest = run_phases phases ctx in
      if should_skip ctx.workload
      then rest
      else after_phase (λ next. run_phases phases next) (execute_phase phase ctx)

  unfoldable pub execute_normal_pipeline : PhaseContext Store → Ended
  execute_normal_pipeline ctx =
      run_phases (validation ∷ claims_phase ∷ plan_phase ∷ status_phase ∷ []) ctx

  unfoldable pub execute_deletion_pipeline : PhaseContext Store → Ended
  execute_deletion_pipeline ctx =
      let answer = deletion_phase client retry.default_requeue_delay ctx in
      if not (should_skip ctx.workload) then (ctx, done, none) else elim (answer.1).error [
        | some e ↦ (answer.0, done, some e)
        | none ↦
            if (answer.1).requeue
            then (
              answer.0,
              record { requeue = true; requeue_after = (answer.1).requeue_after },
              none,
            )
            else (answer.0, done, none)
      ]

  abbrev pub new_context : Store → Workload → PhaseContext Store
  new_context store w = record {
    store = store;
    workload = w;
    events = [];
    claims = [];
    claim_agg = record { ready = false; reason = ""; message = ""; claims = [] };
    plan = none;
    inputs_valid = false;
    validation_reason = "";
    validation_message = "";
  }

  unfoldable pub with_finalizer : Store × Workload × Option ApiError → Ended
  with_finalizer (store, w, some e) = (new_context store w, done, some (api e))
  with_finalizer (store, w, none) = execute_normal_pipeline (new_context store w)

  -- Execute of the pipeline.
  unfoldable pub execute : Store → Workload → Ended
  execute store w =
      if is_some w.deletion_timestamp
      then execute_deletion_pipeline (new_context store w)
      else with_finalizer (ensure_finalizer client store w)

  -- Reconcile, by the answer to its read of the Workload; nothing is done where there is none.
  unfoldable pub reconcile_workload :
      Store → Result ApiError Workload → Option Ended × Option ApiError
  reconcile_workload store (ok w) = (some (execute store w), none)
  reconcile_workload store (err e) = if is_not_found e.kind then (none, none) else (none, some e)
