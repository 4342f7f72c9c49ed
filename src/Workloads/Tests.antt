-- ===== src/Workloads/Tests.antt =====
-- Runs of the reconciliation of a Workload, and its theorems at concrete inputs.
use score_orchestrator.Base.{
  String, ◌≡◌, refl, sym, ap, ◌∙◌, ◌≢◌, ◌↔◌, ◌⊎◌, inl, inr, Bool, true, false, ◌&&◌, Option, none,
  some, List, [], ◌∷◌, ◌==◌, eq_refl, eq_iff, arith, All, Bool-cases, string_ne, subst,
  if◌then◌else◌,
}
use score_orchestrator.Base.Result.{Result, ok, err}
use score_orchestrator.Api.Meta.{ObjectMeta}
use score_orchestrator.Api.Claim.{
  NamespacedName, ResourceClaim, ResourceClaimSpec, ClaimPhase, unset, pending, bound,
}
use score_orchestrator.Api.Workload.{Workload, ResourceSpec}
use score_orchestrator.Workloads.{ApiError, not_found, Client}
use score_orchestrator.Workloads.Phases.{PhaseContext, holds_finalizer, ensure_finalizer}
use score_orchestrator.Workloads.Deletion.{process_claims, must_wait, deletion_phase}
use score_orchestrator.Workloads.Deletion.Processed.{Processed}
use score_orchestrator.Workloads.Deletion.Released.{AllGone, deletion_phase-Released}
use mathlib.Core.Bool.{true≢false}
use score_orchestrator.Selection.Tests.{config, numbers, equal_labels, selects_fitting}
use score_orchestrator.Selection.Tests
use score_orchestrator.Selection.Pipeline.{SelectedBackend}
use score_orchestrator.Status.{
  aggregate_claim_statuses, set_status_condition, update_workload_status_from_aggregation,
}
use score_orchestrator.Status.Aggregate.{IsUsable}
use score_orchestrator.Projection.Placeholder.{has_unresolved_placeholders}
use score_orchestrator.Projection.Resolver.{resolve_all_placeholders}
use score_orchestrator.Workloads.Plans.{
  Environment, ensure_plan, select_plan_backend, upsert_workload_plan, get_plan,
}
use score_orchestrator.Workloads.Plans
use score_orchestrator.Workloads.Pipeline
use score_orchestrator.Workloads.Pipeline.Reported.{
  validated, aggregated, Reports, execute-reported,
}
use score_orchestrator.Workloads.Plans.Guarded.{IsResolved, ensure_plan-guarded}
use score_orchestrator.Workloads.Pipeline.{RetryConfig, plan_or_nil, execute}
use score_orchestrator.Workloads.Pipeline.Planned.{Succeeded, IsSwallowed}
use score_orchestrator.Workloads.Claims.{get_claims, claim_at, desired_spec, ensure_claims}
use score_orchestrator.Workloads.Claims.Settled.{
  Has, HasSpec, IsReadable, IsAccepting, name_of, ensure_claims_lem,
}

abbrev meta : String → List String → ObjectMeta
meta name finalizers = record {
  name = name;
  namespace = "shop";
  uid = "u1";
  generation = 1;
  labels = [];
  annotations = [];
  finalizers = finalizers;
  owner_references = [];
  deletion_timestamp = none;
}

abbrev resource : String → ResourceSpec
resource type = record { type = type; class = none; params = none }

abbrev workload : Workload
workload = record {
  metadata = meta "web" ("workloads.score.dev/finalizer" ∷ []);
  spec = record {
    profile = none;
    containers = [];
    service = none;
    resources = ("db", resource "postgres") ∷ ("cache", resource "redis") ∷ [];
  };
  status = record { endpoint = none; conditions = []; claims = [] };
}

abbrev missing : ApiError
missing = record { kind = not_found; text = "not found" }

-- A server that keeps the specs of claims by their names.
abbrev Specs : Type 0
Specs = NamespacedName → Option ResourceClaimSpec

abbrev same_name : NamespacedName → NamespacedName → Bool
same_name a b = (a.name == b.name) && (a.namespace == b.namespace)

abbrev put : Specs → ResourceClaim → Specs
put specs claim n = if same_name (name_of claim) n then some claim.spec else specs n

abbrev claim_with : NamespacedName → ClaimPhase → ResourceClaimSpec → ResourceClaim
claim_with n phase spec = record {
  metadata = record (meta n.name []) { namespace = n.namespace };
  spec = spec;
  status = record {
    phase = phase;
    reason = "";
    message = "";
    outputs = none;
    outputs_available = false;
    observed_generation = 0;
    last_transition_time = none;
  };
}

abbrev answer : NamespacedName → Option ResourceClaimSpec → Result ApiError ResourceClaim
answer n none = err missing
answer n (some spec) = ok (claim_with n unset spec)

abbrev keeper : Client Specs
keeper = record {
  get_claim = λ specs n. answer n (specs n);
  list_claims = λ specs listing. ok [];
  create_claim = λ specs claim. (put specs claim, none);
  update_claim = λ specs claim. (put specs claim, none);
  delete_claim = λ specs claim. (specs, none);
  get_plan = λ specs n. err missing;
  list_plans = λ specs listing. ok [];
  create_plan = λ specs plan. (specs, none);
  update_plan = λ specs plan. (specs, none);
  read_secret = λ specs namespace name. none;
  update_workload = λ specs w. (specs, ok w);
  update_workload_status = λ specs w. (specs, none);
}

same_name_iff : (a b : NamespacedName) → (same_name a b ≡ true) ↔ (a ≡ b)
same_name_iff a b = (
  λ h. ground (arith, eq_iff a.name b.name, eq_iff a.namespace b.namespace),
  λ e. rw e (rw (eq_refl b.name, eq_refl b.namespace)),
)

put_self :
    (specs : Specs) (claim : ResourceClaim) → put specs claim (name_of claim) ≡ some claim.spec
put_self specs claim = rw (eq_refl claim.name, eq_refl claim.namespace)

put-apart :
    (specs : Specs) (claim : ResourceClaim) (n : NamespacedName)
    → n ≢ name_of claim
    → put specs claim n ≡ specs n
put-apart specs claim n apart = elim (Bool-cases (same_name (name_of claim) n)) [
  | inl same ↦ absurd (apart (sym ((same_name_iff (name_of claim) n).0 same)))
  | inr other ↦ rw other
]

put-HasSpec :
    (specs : Specs) (claim : ResourceClaim)
    → HasSpec (answer (name_of claim) (put specs claim (name_of claim))) claim.spec
put-HasSpec specs claim =
    subst (λ o. HasSpec (answer (name_of claim) o) claim.spec) (sym (put_self specs claim)) refl

keeper-IsAccepting : IsAccepting keeper
keeper-IsAccepting = record {
  reads = λ specs n. elim (specs n) as (λ o. IsReadable (answer n o) n) [
    | none ↦ refl
    | some spec ↦ refl
  ];
  creates = λ specs claim free. refl;
  updates = λ specs claim there. refl;
  created = λ specs claim done. put-HasSpec specs claim;
  updated = λ specs claim done. put-HasSpec specs claim;
  created_apart = λ specs claim n apart. ap (answer n) (put-apart specs claim n apart);
  updated_apart = λ specs claim n apart. ap (answer n) (put-apart specs claim n apart);
}

abbrev no_specs : Specs
no_specs n = none

ensure_claims_example :
    (next : Specs) × (ensure_claims keeper (ok "Workload") no_specs workload ≡ (next, none))
    × All
        (λ e. Has (keeper.get_claim next (claim_at workload e.0)) (desired_spec workload e.0 e.1))
        workload.spec.resources
    × ((name : NamespacedName)
        → All (λ e. name ≢ claim_at workload e.0) workload.spec.resources
        → keeper.get_claim next name ≡ keeper.get_claim no_specs name)
    × (ensure_claims keeper (ok "Workload") next workload ≡ (next, none))
ensure_claims_example =
    ensure_claims_lem keeper "Workload" keeper-IsAccepting workload no_specs
      ((string_ne "cache" "db" refl, tt), (tt, tt))

-- A server with one claim of the Workload, which `true` says to be there.
abbrev pending_claim : ResourceClaim
pending_claim =
    claim_with (record { name = "web-db"; namespace = "shop" }) pending
      (desired_spec workload "db" (resource "postgres"))

abbrev listed : Bool → List ResourceClaim
listed true = pending_claim ∷ []
listed false = []

abbrev single : Client Bool
single = record {
  get_claim = λ there n. if there then ok pending_claim else err missing;
  list_claims = λ there listing. ok (listed there);
  create_claim = λ there claim. (true, none);
  update_claim = λ there claim. (there, none);
  delete_claim = λ there claim. (false, none);
  get_plan = λ there n. err missing;
  list_plans = λ there listing. ok [];
  create_plan = λ there plan. (true, none);
  update_plan = λ there plan. (there, none);
  read_secret = λ there namespace name. none;
  update_workload = λ there w. (there, ok w);
  update_workload_status = λ there w. (there, none);
}

abbrev deleted : PhaseContext Bool
deleted = record {
  store = true;
  workload = workload;
  events = [];
  claims = [];
  claim_agg = record { ready = false; reason = ""; message = ""; claims = [] };
  plan = none;
  inputs_valid = false;
  validation_reason = "";
  validation_message = "";
}

deletion_phase-Released_example :
    (listed : List ResourceClaim) × (get_claims single true workload ≡ ok listed)
    × ((next : Bool) × Processed single workload true listed next
        × AllGone single 30 (get_claims single next workload))
unfolding deletion_phase process_claims get_claims desired_spec holds_finalizer must_wait
deletion_phase-Released_example = deletion_phase-Released single 30 deleted refl (inr refl)

abbrev env : Environment
env = record {
  now = 7;
  quoted = λ s. s;
  load_config = ok config;
  semver = numbers;
  matcher = equal_labels;
  owner = λ w. ok (record {
    kind = "Workload";
    name = w.name;
    uid = w.uid;
    controller = true;
    block_owner_deletion = true;
  });
}

abbrev usable : ResourceClaim
usable =
    record (claim_with (record { name = "web-db"; namespace = "shop" }) bound
      (desired_spec workload "db" (resource "postgres"))) {
        status = record {
          phase = bound;
          reason = "";
          message = "";
          outputs = some (record {
            secret_ref = none;
            config_map_ref = none;
            uri = some "postgres://db";
            image = none;
            cert = none;
          });
          outputs_available = true;
          observed_generation = 1;
          last_transition_time = none;
        };
      }

-- The plan is created.
plan_created :
    (ensure_plan single env false Tests.workload
      (usable ∷ [])
      (aggregate_claim_statuses (usable ∷ []))).store
    ≡ true
unfolding aggregate_claim_statuses ensure_plan Plans.select_with upsert_workload_plan
    has_unresolved_placeholders resolve_all_placeholders desired_spec
plan_created = rw (selects_fitting, Plans.select_with) refl

ensure_plan-guarded_example :
    All (λ c. IsUsable c) (usable ∷ [])
    × ((backend : SelectedBackend) × (select_plan_backend env Tests.workload ≡ ok backend))
    × (Tests.workload.name ≢ "")
    × IsResolved (resolve_all_placeholders (single.read_secret false) Tests.workload (usable ∷ []))
ensure_plan-guarded_example =
    ensure_plan-guarded single env false Tests.workload (usable ∷ [])
      (λ e. true≢false (sym plan_created ∙ e))

abbrev retry : RetryConfig
retry = record { default_requeue_delay = 30; conflict_requeue_delay = 1 }

succeeds :
    Succeeded single
      (ok "Workload")
      env
      retry
      (execute single (ok "Workload") env retry true workload)
unfolding execute ensure_finalizer Pipeline.with_finalizer Pipeline.execute_normal_pipeline
    Pipeline.run_phases Pipeline.execute_phase Pipeline.after_phase Pipeline.validation_phase
    Pipeline.claim_phase Pipeline.after_ensure Pipeline.after_claims Pipeline.plan_phase_of
    Pipeline.after_plan Pipeline.status_phase_of Pipeline.after_status ensure_claims get_claims
    set_status_condition update_workload_status_from_aggregation aggregate_claim_statuses
    ensure_plan
succeeds = (refl, refl)

-- One claim is pending, so no plan is made, and the round reports that.
execute-reported_example :
    (listed : Bool) × (claims : List ResourceClaim) × (ensure_claims single
        (ok "Workload")
        true
        (validated single (ok "Workload") env retry workload)
      ≡ (listed, none))
    × (get_claims single listed (validated single (ok "Workload") env retry workload) ≡ ok claims)
    × (let v =
          aggregated single
            (ok "Workload")
            env
            retry
            claims
            (validated single (ok "Workload") env retry workload) in
        let step = ensure_plan single env listed v claims (aggregate_claim_statuses claims) in
        IsSwallowed single (ok "Workload") env retry step.workload step.error
        ⊎ Reports single
            (ok "Workload")
            env
            retry
            claims
            (plan_or_nil single (ok "Workload") env retry (get_plan single step.store v))
            (execute single (ok "Workload") env retry true workload))
unfolding holds_finalizer
execute-reported_example =
    execute-reported single (ok "Workload") env retry true workload refl refl succeeds
