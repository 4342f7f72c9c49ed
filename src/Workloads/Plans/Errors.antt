-- ===== src/Workloads/Plans/Errors.antt =====
-- The errors of the upsert of a plan and of the selection before it, and their texts, which EnsurePlan
-- searches.
use score_orchestrator.Base.{String}
use score_orchestrator.Base.Text.{joined}
use score_orchestrator.Selection.Pipeline.{
  SelectError, hinted_missing, no_profile, profile_not_found, no_candidates,
}
use score_orchestrator.Projection.Resolver.{
  Missing, missing_output, no_outputs, ResolveFailure, unresolved_env, nil_outputs,
}
use score_orchestrator.Workloads.{ApiError}

pub data PlanError : Type 0 where
  no_workload_name : PlanError
  get_failed : ApiError → PlanError
  not_resolved : ResolveFailure → PlanError
  unresolved_unparsed : String → PlanError
  unresolved_found : PlanError
  no_owner : String → PlanError
  conflict_get_failed : ApiError → PlanError
  conflict_update_failed : ApiError → PlanError
  create_failed : ApiError → PlanError
  update_failed : ApiError → PlanError
  config_failed : String → PlanError
  select_failed : SelectError → PlanError

missing_text : Missing → String
missing_text (missing_output r) =
    joined "resource '" (joined r.resource (joined "' missing output '" (joined r.output "'")))
missing_text (no_outputs r) = joined "resource '" (joined r.resource "' has no outputs available")

-- The panic has no text that is compared.
resolve_text : ResolveFailure → String
unfolding missing_text
resolve_text nil_outputs = "nil pointer dereference"
resolve_text (unresolved_env container variable e) =
    joined "failed to resolve env var "
      (joined variable (joined " in container " (joined container (joined ": " (missing_text e)))))

-- `quoted` is the verb %q of fmt.
module _ (quoted : String → String) where
  select_error_text : SelectError → String
  select_error_text (hinted_missing hint) =
      joined "profile selection failed: hinted profile " (joined (quoted hint) " does not exist")
  select_error_text no_profile =
      "profile selection failed: no profile could be determined and no default profile is configured"
  select_error_text (profile_not_found name) =
      joined "profile " (joined (quoted name) " not found in configuration")
  select_error_text (no_candidates name) =
      joined "no suitable backend candidates found for profile " (quoted name)

  -- `name` is the name of the plan.
  unfoldable pub plan_error_text : String → PlanError → String
  unfolding select_error_text resolve_text
  plan_error_text name no_workload_name = "workload name cannot be empty"
  plan_error_text name (get_failed e) =
      joined "failed to get WorkloadPlan " (joined name (joined ": " e.text))
  plan_error_text name (not_resolved e) = joined "failed to resolve placeholders: " (resolve_text e)
  plan_error_text name (unresolved_unparsed e) = joined "unresolved placeholders (parse error): " e
  plan_error_text name unresolved_found = "unresolved placeholders found in workload projection"
  plan_error_text name (no_owner e) = joined "failed to set owner reference: " e
  plan_error_text name (conflict_get_failed e) =
      joined "failed to get existing WorkloadPlan after create conflict: " e.text
  plan_error_text name (conflict_update_failed e) =
      joined "failed to update existing WorkloadPlan: " e.text
  plan_error_text name (create_failed e) = joined "failed to create WorkloadPlan: " e.text
  plan_error_text name (update_failed e) = joined "failed to update WorkloadPlan: " e.text
  plan_error_text name (config_failed e) = joined "failed to load orchestrator config: " e
  plan_error_text name (select_failed e) = joined "failed to select backend: " (select_error_text e)
