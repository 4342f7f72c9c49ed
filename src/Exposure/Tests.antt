-- ===== src/Exposure/Tests.antt =====
-- The mirror at a workload without endpoint and an exposure of it with two conditions.
use score_orchestrator.Base.{
  String, true, ◌≡◌, refl, inr, Option, none, some, [], ◌∷◌, ◌==◌, arith, if◌then◌else◌,
}
use score_orchestrator.Base.Dict.{lookup}
use score_orchestrator.Base.Result.{ok}
use score_orchestrator.Api.Meta.{ObjectMeta, Condition, ConditionStatus, is_true, is_false}
use score_orchestrator.Api.Workload.{Workload}
use score_orchestrator.Status.Normalize
use score_orchestrator.Exposure
use score_orchestrator.Exposure.{WorkloadExposure, ExposureClient, reconcile_exposure}
use score_orchestrator.Exposure.Mirrored.{Mirrors, reconcile_exposure-Mirrors}

abbrev meta : ObjectMeta
meta = record {
  name = "web";
  namespace = "shop";
  uid = "u1";
  generation = 2;
  labels = [];
  annotations = [];
  finalizers = [];
  owner_references = [];
  deletion_timestamp = none;
}

abbrev workload : Workload
workload = record {
  metadata = meta;
  spec = record { profile = none; containers = []; service = none; resources = [] };
  status = record { endpoint = none; conditions = []; claims = [] };
}

abbrev seen : String → ConditionStatus → String → Condition
seen type status reason = record {
  type = type;
  status = status;
  reason = reason;
  message = "m";
  time = 4;
}

abbrev exposure : WorkloadExposure
exposure = record {
  metadata = meta;
  spec = record {
    workload_ref = record { name = "web"; namespace = none; uid = "u1" };
    observed_workload_generation = 2;
    runtime_class = "kubernetes";
  };
  status = record {
    exposures =
        record {
          name = "web";
          url = "https://web.example";
          type = "ingress";
          ready = true;
          scope = "";
          scheme_hint = "";
          reachable = none;
        }
        ∷ [];
    conditions = seen "Available" is_true "Running" ∷ seen "Progressing" is_false "Pending" ∷ [];
  };
}

abbrev https_only : String → Option (String × String)
https_only url = if url == "https://web.example" then some ("https", "web.example") else none

-- The store is the workload.
abbrev client : ExposureClient Workload
client = record {
  get_exposure = λ store key. ok exposure;
  get_workload = λ store key. ok store;
  patch_status = λ store before new. (new, ok new);
}

abbrev mirrored : Workload
mirrored = record workload {
  status = record workload.status {
    endpoint = some "https://web.example";
    conditions =
        record {
          type = "RuntimeReady";
          status = is_false;
          reason = "BindingPending";
          message = "m";
          time = 9;
        }
        ∷ [];
  };
}

-- Both conditions have the type RuntimeReady for the workload: the second one overrides the first.
mirrors_last_condition :
    (reconcile_exposure client https_only 9 workload
      (record { name = "web"; namespace = "shop" })).store
    ≡ mirrored
unfolding reconcile_exposure Exposure.after_exposure Exposure.after_workload Exposure.mirror_to
    Exposure.mirror Exposure.mirror_endpoint Exposure.new_endpoint Exposure.is_valid_url
    Exposure.mirror_conditions Exposure.mirror_each Exposure.mirror_condition Exposure.changes
    Exposure.find_condition Exposure.set_status_condition Normalize.normalize_conditions
    Normalize.normalize_condition Normalize.normalize_reason Normalize.normalize_condition_type
    lookup
mirrors_last_condition = refl

reconcile_exposure-Mirrors_example :
    Mirrors client https_only workload exposure workload (
      reconcile_exposure client https_only 9 workload (record { name = "web"; namespace = "shop" }))
reconcile_exposure-Mirrors_example =
    reconcile_exposure-Mirrors client https_only 9 workload
      (record { name = "web"; namespace = "shop" }) exposure workload refl refl (inr refl)
      (omega arith)
