-- ===== src/Status/Tests.antt =====
-- The theorems on the status at concrete inputs: one claim that is bound and one that is claiming.
use score_orchestrator.Base.{
  String, Bool, true, false, ◌≡◌, ◌↔◌, none, some, List, [], ◌∷◌, ◌==◌, All,
}
use score_orchestrator.Api.Meta.{ObjectMeta, Condition, is_true}
use score_orchestrator.Api.Claim.{ResourceClaim, ClaimPhase, bound, claiming}
use score_orchestrator.Api.Workload.{Workload}
use score_orchestrator.Api.Plan
use score_orchestrator.Api.Plan.{WorkloadPlan, WorkloadPlanSpec, WorkloadPlanStatus}
use score_orchestrator.Conditions.{ready, inputs_valid, claims_ready, get_condition}
use score_orchestrator.Conditions.Ready.{Holds}
use score_orchestrator.Status.{
  aggregate_claim_statuses, summaries, update_workload_status_from_aggregation,
  compute_final_status,
}
use score_orchestrator.Status.Aggregate.{
  verdict, IsUsable, aggregate_claim_statuses_lem, update_workload_status_lem,
}
use score_orchestrator.Base.{refl}
use score_orchestrator.Base.Dict.{lookup}
use score_orchestrator.Status.Normalize.{
  normalize_reason, normalize_condition_type, normalize_condition, normalize_conditions,
}
use score_orchestrator.Status.Normalize.Vocabulary.{Describes, normalize_conditions_lem}
use score_orchestrator.Status.Final.{PlanIsReady, compute_final_status_iff}

abbrev meta : String → ObjectMeta
meta name = record {
  name = name;
  namespace = "shop";
  uid = "u1";
  generation = 1;
  labels = [];
  annotations = [];
  finalizers = [];
  owner_references = [];
  deletion_timestamp = none;
}

abbrev claim : String → ClaimPhase → Bool → ResourceClaim
claim key phase available = record {
  metadata = meta key;
  spec = record {
    workload_ref = record { name = "web"; namespace = "shop" };
    key = key;
    type = "postgres";
    class = none;
    id = none;
    params = none;
    deprovision_policy = none;
  };
  status = record {
    phase = phase;
    reason = "";
    message = "";
    outputs = none;
    outputs_available = available;
    observed_generation = 1;
    last_transition_time = none;
  };
}

abbrev claims : List ResourceClaim
claims = claim "db" bound true ∷ claim "cache" claiming false ∷ []

abbrev valid : Condition
valid = record {
  type = inputs_valid;
  status = is_true;
  reason = "Succeeded";
  message = "ok";
  time = 1;
}

abbrev workload : Workload
workload = record {
  metadata = meta "web";
  spec = record { profile = none; containers = []; service = none; resources = [] };
  status = record { endpoint = none; conditions = valid ∷ []; claims = [] };
}

abbrev plan : WorkloadPlan
plan = record {
  metadata = meta "web";
  spec = record {
    workload_ref = record { name = "web"; namespace = "shop" };
    observed_workload_generation = 1;
    runtime_class = "kubernetes";
    template = none;
    resolved_values = none;
    claims = [];
  };
  status = record { phase = Plan.ready; conditions = []; message = "" };
}

aggregate_claim_statuses_lem_example :
    ((aggregate_claim_statuses claims).ready ≡ (verdict claims).0)
    × ((aggregate_claim_statuses claims).reason ≡ (verdict claims).1)
    × ((aggregate_claim_statuses claims).claims ≡ summaries claims)
aggregate_claim_statuses_lem_example = aggregate_claim_statuses_lem claims

update_workload_status_lem_example :
    let v = update_workload_status_from_aggregation 4 (aggregate_claim_statuses claims) workload in
    (Holds v.status.conditions claims_ready ↔ All (λ c. IsUsable c) claims)
    × ((t : String)
        → (claims_ready == t) ≡ false
        → get_condition v.status.conditions t ≡ get_condition workload.status.conditions t)
    × (v.status.claims ≡ summaries claims)
update_workload_status_lem_example = update_workload_status_lem 4 claims workload

compute_final_status_iff_example :
    let (v, event) = compute_final_status 5 (some plan) workload in
    (Holds v.status.conditions ready ↔ (
      Holds workload.status.conditions inputs_valid
      × Holds workload.status.conditions claims_ready
      × PlanIsReady (some plan)))
    × ((event ≡ some "Ready") ↔ Holds v.status.conditions ready)
compute_final_status_iff_example = compute_final_status_iff 5 (some plan) workload

abbrev deployed : Condition
deployed = record {
  type = "Deployed";
  status = is_true;
  reason = "Available";
  message = "up";
  time = 2;
}

-- One condition is mapped, and one has a reason that is not in the map.
rendered :
    normalize_conditions (deployed ∷ valid ∷ [])
    ≡ record deployed { type = "RuntimeReady"; reason = "Succeeded" } ∷ []
unfolding normalize_conditions normalize_condition normalize_reason normalize_condition_type lookup
rendered = refl

normalize_conditions_lem_example :
    Describes (normalize_conditions (deployed ∷ valid ∷ [])) (deployed ∷ valid ∷ [])
normalize_conditions_lem_example = normalize_conditions_lem (deployed ∷ valid ∷ [])
