-- ===== src/Api/Plan.antt =====
-- api/v1b1/workloadplan_types.go
use score_orchestrator.Base.{ℕ, String, Option, List}
use score_orchestrator.Api.Meta.{ObjectMeta, Condition, Raw}
use score_orchestrator.Api.Claim.{NamespacedName}
use score_orchestrator.Api.Config.{TemplateSpec}

pub record PlanClaim : Type 0 where
  pub key : String
  pub type : String
  pub class : Option String
  pub params : Option Raw

pub record WorkloadPlanSpec : Type 0 where
  pub workload_ref : NamespacedName
  pub observed_workload_generation : ℕ
  pub runtime_class : String
  pub template : Option TemplateSpec
  pub resolved_values : Option Raw
  pub claims : List PlanClaim

-- The CRD admits these four phases; `unset` is the empty string.
pub data PlanPhase : Type 0 where
  unset pending provisioning ready failed : PlanPhase

pub record WorkloadPlanStatus : Type 0 where
  pub phase : PlanPhase
  pub conditions : List Condition
  pub message : String

pub record WorkloadPlan : Type 0 where
  pub metadata : ObjectMeta
  pub open metadata use *
  pub spec : WorkloadPlanSpec
  pub status : WorkloadPlanStatus
