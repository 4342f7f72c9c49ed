-- ===== src/Status.antt =====
-- What a workload's status says of its claims and of its plan: internal/status/aggregate.go,
-- AggregateStatus of internal/controller/managers/claim_manager.go, which has the same body, and
-- internal/controller/managers/status_manager.go. `now` is the time that SetCondition reads.
pub mod Aggregate
pub mod Final
pub mod Normalize
mod Tests
use score_orchestrator.Base.{
  ℕ, suc, ◌+◌, String, Bool, true, false, not, Option, none, some, List, [], ◌∷◌, ◌==◌, eqb, ltb,
  length, is_empty, if◌then◌else◌,
}
use score_orchestrator.Api.Meta.{ConditionStatus, is_true, is_false}
use score_orchestrator.Api.Claim.{ResourceClaim, ClaimPhase, unset, pending, bound, failed}
use score_orchestrator.Api.Workload.{Workload, WorkloadStatus, ClaimSummary}
use score_orchestrator.Api.Plan
use score_orchestrator.Api.Plan.{WorkloadPlan}
use score_orchestrator.Conditions.{
  claims_ready, ready, runtime_ready, set_condition, compute_ready_condition,
}

pub record ClaimAggregation : Type 0 where
  pub ready : Bool
  pub reason : String
  pub message : String
  pub claims : List ClaimSummary

-- An empty phase is shown as Pending.
abbrev pub shown_phase : ClaimPhase → ClaimPhase
shown_phase unset = pending
shown_phase phase = phase

abbrev pub summary : ResourceClaim → ClaimSummary
summary c = record {
  key = c.spec.key;
  phase = shown_phase c.status.phase;
  reason = c.status.reason;
  message = c.status.message;
  outputs_available = c.status.outputs_available;
}

abbrev pub summaries : List ResourceClaim → List ClaimSummary
summaries [] = []
summaries (c ∷ cs) = summary c ∷ summaries cs

-- The switch of one round of the loop, on the two counters.
unfoldable pub count : ClaimPhase → Bool → ℕ × ℕ → ℕ × ℕ
count bound true (bound_count, failed_count) = (suc bound_count, failed_count)
count failed outputs_available (bound_count, failed_count) = (bound_count, suc failed_count)
count phase outputs_available counts = counts

unfoldable pub count_claims : List ResourceClaim → ℕ × ℕ → ℕ × ℕ
count_claims [] counts = counts
count_claims (c ∷ cs) counts =
    count_claims cs (count c.status.phase c.status.outputs_available counts)

-- The readiness by the counters and the number of claims.
unfoldable pub readiness : ℕ × ℕ → ℕ → Bool × String × String
readiness (bound_count, failed_count) total_claims =
    if ltb 0 failed_count
    then (false, "ClaimFailed", "One or more resource claims have failed")
    else if eqb bound_count total_claims
    then (true, "Succeeded", "All resource claims are ready")
    else (false, "ClaimPending", "Resource claims are being provisioned")

unfoldable pub aggregate_claim_statuses : List ResourceClaim → ClaimAggregation
unfolding count count_claims readiness
aggregate_claim_statuses claims =
    if is_empty claims
    then record {
      ready = true;
      reason = "Succeeded";
      message = "No resource dependencies";
      claims = [];
    }
    else let (ready, reason, message) = readiness (count_claims claims (0, 0)) (length claims) in
      record { ready = ready; reason = reason; message = message; claims = summaries claims }

abbrev pub status_of : Bool → ConditionStatus
status_of b = if b then is_true else is_false

unfoldable pub update_workload_status_from_aggregation : ℕ → ClaimAggregation → Workload → Workload
update_workload_status_from_aggregation now agg w = record w {
  status = record w.status {
    claims = agg.claims;
    conditions =
        set_condition now claims_ready (status_of agg.ready) agg.reason agg.message
          w.status.conditions;
  };
}

-- SetInputsValidCondition, SetClaimsReadyCondition and SetRuntimeReadyCondition are this at their
-- condition type.
unfoldable pub set_status_condition : ℕ → String → Bool → String → String → Workload → Workload
set_status_condition now type holds reason message w = record w {
  status = record w.status {
    conditions = set_condition now type (status_of holds) reason message w.status.conditions;
  };
}

abbrev pub message_or : String → String → String
message_or message default = if message == "" then default else message

-- RuntimeReady by the phase of the plan.
unfoldable pub check_runtime_status_from_plan : WorkloadPlan → Bool × String × String
check_runtime_status_from_plan plan = elim plan.status.phase [
  | Plan.ready ↦ (true, "Succeeded", "Runtime provisioned successfully")
  | Plan.failed ↦
      (false, "RuntimeDegraded", message_or plan.status.message "Runtime provisioning failed")
  | Plan.provisioning ↦ (
    false,
    "RuntimeProvisioning",
    message_or plan.status.message "Runtime resources are being provisioned",
  )
  | Plan.pending ↦ (false, "RuntimeSelecting", "Runtime provisioning pending")
  | Plan.unset ↦ (false, "RuntimeSelecting", "Runtime provisioning pending")
]

unfoldable pub update_runtime_status_from_plan : ℕ → Option WorkloadPlan → Workload → Workload
unfolding set_status_condition check_runtime_status_from_plan
update_runtime_status_from_plan now none w =
    set_status_condition now runtime_ready false "RuntimeSelecting"
      "Runtime controller is being selected" w
update_runtime_status_from_plan now (some plan) w =
    let (holds, reason, message) = check_runtime_status_from_plan plan in
    set_status_condition now runtime_ready holds reason message w

-- With the event that is recorded, if the workload is ready.
unfoldable pub compute_final_status : ℕ → Option WorkloadPlan → Workload → Workload × Option String
unfolding update_runtime_status_from_plan
compute_final_status now plan w =
    let v = update_runtime_status_from_plan now plan w in
    let (status, reason, message) = compute_ready_condition v.status.conditions in
    let done : Workload = record v {
      status = record v.status {
        conditions = set_condition now ready status reason message v.status.conditions;
      };
    } in
    (done, elim status [ is_true ↦ some "Ready" | _ ↦ none ])
