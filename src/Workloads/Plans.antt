-- ===== src/Workloads/Plans.antt =====
-- internal/reconcile/plan.go and internal/controller/managers/plan_manager.go: the plan of a
-- Workload, written once its claims are ready and its values resolved.
pub mod Errors
pub mod Guarded
use score_orchestrator.Base.{
  ℕ, String, Bool, true, false, not, ◌&&◌, ◌||◌, Option, none, some, List, [], ◌∷◌, ◌++◌, ◌==◌, eqb,
  length, is_empty, if◌then◌else◌,
}
use score_orchestrator.Base.Text.{joined, codes, contains}
use score_orchestrator.Base.Result.{Result, ok, err}
use score_orchestrator.Api.Meta.{ObjectMeta, OwnerReference, Raw}
use score_orchestrator.Api.Claim.{NamespacedName, ResourceClaim}
use score_orchestrator.Api.Workload.{Workload}
use score_orchestrator.Api.Config.{OrchestratorConfig}
use score_orchestrator.Api.Plan
use score_orchestrator.Api.Plan.{PlanClaim, WorkloadPlan, WorkloadPlanSpec, WorkloadPlanStatus}
use score_orchestrator.Conditions.{runtime_ready}
use score_orchestrator.Status.{ClaimAggregation, set_status_condition}
use score_orchestrator.Selection.Ranking.{SemVer}
use score_orchestrator.Selection.Pipeline.{LabelMatcher, SelectedBackend, select_backend}
use score_orchestrator.Provisioner.Phases.{Event, normal, warning, event}
use score_orchestrator.Projection.Placeholder.{Unresolved, has_unresolved_placeholders}
use score_orchestrator.Projection.Resolver
use score_orchestrator.Projection.Resolver.{ResolveFailure, resolve_all_placeholders}
use score_orchestrator.Workloads.{
  ApiError, is_not_found, is_already_exists, Client, by_index, by_label,
}
use score_orchestrator.Workloads.Claims.{index_key}
use score_orchestrator.Workloads.Plans.Errors.{
  PlanError, no_workload_name, get_failed, not_resolved, unresolved_unparsed, unresolved_found,
  no_owner, conflict_get_failed, conflict_update_failed, create_failed, update_failed,
  config_failed, select_failed, plan_error_text,
}

unfoldable pub plan_claim : ResourceClaim → PlanClaim
plan_claim claim = record {
  key = claim.spec.key;
  type = claim.spec.type;
  class = claim.spec.class;
  params = none;
}

unfoldable pub build_plan_claims : List ResourceClaim → List PlanClaim
unfolding plan_claim
build_plan_claims [] = []
build_plan_claims (claim ∷ claims) = plan_claim claim ∷ build_plan_claims claims

unfoldable pub workload_plan_spec_equal : WorkloadPlanSpec → WorkloadPlanSpec → Bool
workload_plan_spec_equal a b =
    (a.workload_ref.name == b.workload_ref.name)
    && (a.workload_ref.namespace == b.workload_ref.namespace)
    && eqb a.observed_workload_generation b.observed_workload_generation
    && (a.runtime_class == b.runtime_class)
    && eqb (length a.claims) (length b.claims)

unfoldable pub plan_at : Workload → NamespacedName
plan_at w = record { name = w.name; namespace = w.namespace }

unfoldable pub desired_plan :
    Workload → List ResourceClaim → SelectedBackend → Raw → WorkloadPlanSpec
unfolding build_plan_claims
desired_plan w claims backend resolved = record {
  workload_ref = record { name = w.name; namespace = w.namespace };
  observed_workload_generation = w.generation;
  runtime_class = backend.runtime_class;
  template = some backend.template;
  resolved_values = some resolved;
  claims = build_plan_claims claims;
}

unfoldable pub new_plan : OwnerReference → Workload → WorkloadPlanSpec → WorkloadPlan
new_plan owner w spec = record {
  metadata = record {
    name = w.name;
    namespace = w.namespace;
    uid = "";
    generation = 0;
    labels = ("score.dev/workload", w.name) ∷ [];
    annotations = [];
    finalizers = [];
    owner_references = owner ∷ [];
    deletion_timestamp = none;
  };
  spec = spec;
  status = record { phase = Plan.unset; conditions = []; message = "" };
}

unfoldable pub wrapped : (ApiError → PlanError) → Option ApiError → Option PlanError
wrapped wrap none = none
wrapped wrap (some e) = some (wrap e)

-- controllerutil.SetControllerReference of a plan to its Workload: the reference that it sets.
abbrev pub OwnerSetter : Type 0
OwnerSetter = Workload → Result String OwnerReference

module _ {Store : Type 0} (client : Client Store) where
  -- The update of a plan that is there, if its spec differs.
  unfoldable pub update_plan :
      (ApiError → PlanError) → Store → WorkloadPlan → WorkloadPlanSpec → Store × Option PlanError
  unfolding workload_plan_spec_equal wrapped
  update_plan wrap store plan desired =
      let answer = client.update_plan store (record plan { spec = desired }) in
      if not (workload_plan_spec_equal plan.spec desired)
      then (answer.0, wrapped wrap answer.1)
      else (store, none)

  -- After a creation that met a plan of the same name.
  unfoldable pub after_conflict :
      Store → WorkloadPlanSpec → Result ApiError WorkloadPlan → Store × Option PlanError
  unfolding update_plan
  after_conflict store desired (err e) = (store, some (conflict_get_failed e))
  after_conflict store desired (ok plan) = update_plan conflict_update_failed store plan desired

  unfoldable pub after_create :
      Workload → WorkloadPlanSpec → Store × Option ApiError → Store × Option PlanError
  unfolding after_conflict plan_at
  after_create w desired (store, none) = (store, none)
  after_create w desired (store, some e) =
      if is_already_exists e.kind
      then after_conflict store desired (client.get_plan store (plan_at w))
      else (store, some (create_failed e))

  unfoldable pub create_owned :
      Store → Workload → WorkloadPlanSpec → Result String OwnerReference → Store × Option PlanError
  unfolding after_create new_plan
  create_owned store w desired (err e) = (store, some (no_owner e))
  create_owned store w desired (ok owner) =
      after_create w desired (client.create_plan store (new_plan owner w desired))

  -- The write by the answer to the read, which is not a failure here.
  unfoldable pub write_plan :
      OwnerSetter
      → Store
      → Workload
      → WorkloadPlanSpec
      → Result ApiError WorkloadPlan
      → Store × Option PlanError
  unfolding create_owned update_plan
  write_plan owner store w desired (err e) = create_owned store w desired (owner w)
  write_plan owner store w desired (ok plan) = update_plan update_failed store plan desired

  -- The check for placeholders that are left, and the write behind it.
  unfoldable pub after_scan :
      OwnerSetter
      → Store
      → Workload
      → WorkloadPlanSpec
      → Result ApiError WorkloadPlan
      → Unresolved
      → Store × Option PlanError
  unfolding write_plan
  after_scan owner store w desired plan scanned =
      if scanned.found
      then (
        store,
        some (elim scanned.error [ none ↦ unresolved_found | some e ↦ unresolved_unparsed e ]),
      )
      else write_plan owner store w desired plan

  unfoldable pub after_resolve :
      OwnerSetter
      → Store
      → Workload
      → List ResourceClaim
      → SelectedBackend
      → Result ApiError WorkloadPlan
      → Result ResolveFailure Raw
      → Store × Option PlanError
  unfolding after_scan desired_plan has_unresolved_placeholders
  after_resolve owner store w claims backend plan (err e) = (store, some (not_resolved e))
  after_resolve owner store w claims backend plan (ok resolved) =
      after_scan owner store w (desired_plan w claims backend resolved) plan
        (has_unresolved_placeholders resolved)

  -- A read that fails, unless it finds nothing, ends the upsert.
  abbrev pub is_failure : Result ApiError WorkloadPlan → Bool
  is_failure (ok plan) = false
  is_failure (err e) = not (is_not_found e.kind)

  abbrev pub failure_of : Result ApiError WorkloadPlan → Option PlanError
  failure_of (ok plan) = none
  failure_of (err e) = some (get_failed e)

  unfoldable pub upsert_workload_plan :
      OwnerSetter
      → Store
      → Workload
      → List ResourceClaim
      → SelectedBackend
      → Store × Option PlanError
  unfolding after_resolve plan_at
  upsert_workload_plan owner store w claims backend =
      let plan = client.get_plan store (plan_at w) in
      if w.name == ""
      then (store, some no_workload_name)
      else if is_failure plan
      then (store, failure_of plan)
      else after_resolve owner store w claims backend plan
          (resolve_all_placeholders (client.read_secret store) w claims)

-- What a manager or a phase leaves: the store, the Workload in memory, the events and the error.
pub record Step (Store : Type 0) : Type 0 where
  pub store : Store
  pub workload : Workload
  pub events : List Event
  pub error : Option PlanError

abbrev pub is_panic : PlanError → Bool
is_panic (not_resolved Resolver.nil_outputs) = true
is_panic _ = false

-- The searches in the text of the error of an upsert.
unfoldable pub is_projection_error : String → Bool
is_projection_error text =
    contains (codes text) (codes "missing required outputs for projection")
    || contains (codes text) (codes "unresolved placeholders")

unfoldable pub projection_failed : ℕ → Workload → Workload
unfolding set_status_condition
projection_failed now w =
    set_status_condition now runtime_ready false "ProjectionError"
      "One or more required outputs are not resolved." w

-- The libraries that the manager calls: the clock, %q of fmt, the loader of the configuration, the
-- comparison of versions, the label matcher and the owner references.
pub record Environment : Type 1 where
  pub now : ℕ
  pub quoted : String → String
  pub load_config : Result String OrchestratorConfig
  pub semver : SemVer
  pub matcher : LabelMatcher
  pub owner : OwnerSetter

unfoldable pub select_with :
    Environment → Workload → Result String OrchestratorConfig → Result PlanError SelectedBackend
select_with env w (err e) = err (config_failed e)
select_with env w (ok config) = elim (select_backend env.semver env.matcher config w) [
  | err e ↦ err (select_failed e)
  | ok backend ↦ ok backend
]

-- SelectBackend of the plan manager.
unfoldable pub select_plan_backend : Environment → Workload → Result PlanError SelectedBackend
unfolding select_with
select_plan_backend env w = select_with env w env.load_config

-- The condition after a failed selection.
unfoldable pub selection_failed : Environment → Workload → PlanError → Workload
unfolding set_status_condition plan_error_text
selection_failed env w e =
    set_status_condition env.now runtime_ready false "RuntimeSelecting"
      (joined "Backend selection failed: " (plan_error_text env.quoted w.name e)) w

module _ {Store : Type 0} (client : Client Store) (env : Environment) where
  -- What EnsurePlan makes of the upsert's error. A panic leaves no event and changes no condition.
  unfoldable pub after_upsert : Workload → Store × Option PlanError → Step Store
  unfolding projection_failed is_projection_error plan_error_text
  after_upsert w (store, none) = record {
    store = store;
    workload = w;
    events = event normal "PlanCreated" "WorkloadPlan created successfully";
    error = none;
  }
  after_upsert w (store, some e) =
      let text = plan_error_text env.quoted w.name e in
      if is_panic e
      then record { store = store; workload = w; events = []; error = some e }
      else if is_projection_error text
      then record {
        store = store;
        workload = projection_failed env.now w;
        events = event warning "ProjectionError" "One or more required outputs are not resolved.";
        error = some e;
      }
      else record {
        store = store;
        workload = w;
        events = event warning "PlanError" (joined "Failed to create workload plan: " text);
        error = some e;
      }

  unfoldable pub after_select :
      Store → Workload → List ResourceClaim → Result PlanError SelectedBackend → Step Store
  unfolding after_upsert selection_failed
  after_select store w claims (err e) = record {
    store = store;
    workload = selection_failed env w e;
    events = [];
    error = some e;
  }
  after_select store w claims (ok backend) =
      after_upsert w (upsert_workload_plan client env.owner store w claims backend)

  unfoldable pub ensure_plan : Store → Workload → List ResourceClaim → ClaimAggregation → Step Store
  unfolding after_select select_plan_backend
  ensure_plan store w claims agg =
      if agg.ready
      then after_select store w claims (select_plan_backend env w)
      else record { store = store; workload = w; events = []; error = none }

pub data GetPlanError : Type 0 where
  list_failed : ApiError → GetPlanError
  none_found : GetPlanError
  multiple_found : GetPlanError

unfoldable pub single_plan : Result ApiError (List WorkloadPlan) → Result GetPlanError WorkloadPlan
single_plan (err e) = err (list_failed e)
single_plan (ok []) = err none_found
single_plan (ok (plan ∷ [])) = ok plan
single_plan (ok (plan ∷ other ∷ plans)) = err multiple_found

module _ {Store : Type 0} (client : Client Store) where
  unfoldable pub listed_plans :
      Store → Workload → Result ApiError (List WorkloadPlan) → Result ApiError (List WorkloadPlan)
  listed_plans store w (ok plans) = ok plans
  listed_plans store w (err e) =
      if contains (codes e.text) (codes "no index with name")
      then client.list_plans store (by_label (record { name = w.name; namespace = w.namespace }))
      else err e

  unfoldable pub get_plan : Store → Workload → Result GetPlanError WorkloadPlan
  unfolding single_plan listed_plans index_key
  get_plan store w =
      single_plan (listed_plans store w (client.list_plans store (by_index (index_key w))))
