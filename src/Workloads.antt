-- ===== src/Workloads.antt =====
-- The reconciliation of a Workload: its claims, its plan, its deletion, and the pipeline of phases.
-- The API server is a parameter: what a client of it answers, over a store.
pub mod Claims
pub mod Plans
pub mod Phases
pub mod Deletion
pub mod Pipeline
mod Tests
use score_orchestrator.Base.{String, Option, List, true, false, Bool}
use score_orchestrator.Base.Dict.{Dict}
use score_orchestrator.Base.Result.{Result}
use score_orchestrator.Api.Claim.{NamespacedName, ResourceClaim}
use score_orchestrator.Api.Workload.{Workload}
use score_orchestrator.Api.Plan.{WorkloadPlan}

-- What the tests of k8s.io/apimachinery/pkg/api/errors tell apart.
pub data ErrorKind : Type 0 where
  not_found already_exists conflict other_kind : ErrorKind

pub record ApiError : Type 0 where
  pub kind : ErrorKind
  pub text : String

-- errors.IsNotFound, errors.IsAlreadyExists and errors.IsConflict
abbrev pub is_not_found : ErrorKind → Bool
is_not_found not_found = true
is_not_found _ = false

abbrev pub is_already_exists : ErrorKind → Bool
is_already_exists already_exists = true
is_already_exists _ = false

abbrev pub is_conflict : ErrorKind → Bool
is_conflict conflict = true
is_conflict _ = false

-- The two ways in which the managers list: by the value of an index, or by namespace and label.
pub data Listing : Type 0 where
  by_index : String → Listing
  by_label : NamespacedName → Listing

-- client.Client, at the kinds and with the calls that the reconciliation of a Workload uses. Update
-- of a Workload gives back the object that the server answers with.
pub record Client (Store : Type 0) : Type 0 where
  pub get_claim : Store → NamespacedName → Result ApiError ResourceClaim
  pub list_claims : Store → Listing → Result ApiError (List ResourceClaim)
  pub create_claim : Store → ResourceClaim → Store × Option ApiError
  pub update_claim : Store → ResourceClaim → Store × Option ApiError
  pub delete_claim : Store → ResourceClaim → Store × Option ApiError
  pub get_plan : Store → NamespacedName → Result ApiError WorkloadPlan
  pub list_plans : Store → Listing → Result ApiError (List WorkloadPlan)
  pub create_plan : Store → WorkloadPlan → Store × Option ApiError
  pub update_plan : Store → WorkloadPlan → Store × Option ApiError
  pub read_secret : Store → String → String → Option (Dict String)
  pub update_workload : Store → Workload → Store × Result ApiError Workload
  pub update_workload_status : Store → Workload → Store × Option ApiError
