-- ===== src/Provisioner/Tests.antt =====
-- Runs of the provisioner controller, and its theorems at concrete inputs: a store with one claim
-- and at most one resource.
use score_orchestrator.Base.{
  String, Bool, true, false, ◌≡◌, refl, inl, inr, Option, none, some, [], ◌∷◌, ◌==◌, if◌then◌else◌,
}
use score_orchestrator.Base.Result.{ok}
use score_orchestrator.Api.Claim.{
  failed, ResourceClaim, ResourceClaimOutputs, unset, pending, bound,
}
use score_orchestrator.Provisioner.Outputs.{merge_outputs, create_uri_output, create_image_output}
use score_orchestrator.Provisioner.Outputs.Merged.{first_set, merge_outputs_lem}
use score_orchestrator.Provisioner.Strategy.{Strategy, Selector}
use score_orchestrator.Base.{◌||◌, if◌then◌else◌}
use score_orchestrator.Base.Text.{codes, split}
use score_orchestrator.Provisioner.Lifecycle.{is_being_deleted}
use score_orchestrator.Provisioner.Supported.{
  load_supported_types, filter_supported_types, is_listed, no_strategies, register_strategies,
  load_provisioning_config, filter_supported_types_lem, default_type-unserved,
}
use score_orchestrator.Provisioner.Phases.{handle_provisioning}
use score_orchestrator.Provisioner.Consistent.{
  IsConsistent, Leads, handle_provisioning-IsConsistent, handle_provisioning-Leads,
}

-- The stored claim, if there is one, and whether a postgres resource is held.
abbrev World : Type 0
World = Option ResourceClaim × Bool

abbrev uri : ResourceClaimOutputs
uri = create_uri_output "postgres://db"

abbrev postgres : Strategy World
postgres = record {
  type = "postgres";
  provision = λ w c. ((w.0, true), ok (some uri));
  deprovision = λ w c. ((w.0, false), none);
  get_status = λ w c. ok (bound, "Succeeded", "");
}

abbrev selector : Selector World
selector = record { strategies = ("postgres", postgres) ∷ []; configs = [] }

abbrev claim : ResourceClaim
claim = record {
  metadata = record {
    name = "web-db";
    namespace = "shop";
    uid = "u1";
    generation = 1;
    labels = [];
    annotations = [];
    finalizers = [];
    owner_references = [];
    deletion_timestamp = none;
  };
  spec = record {
    workload_ref = record { name = "web"; namespace = "shop" };
    key = "db";
    type = "postgres";
    class = none;
    id = none;
    params = none;
    deprovision_policy = none;
  };
  status = record {
    phase = unset;
    reason = "";
    message = "";
    outputs = none;
    outputs_available = false;
    observed_generation = 0;
    last_transition_time = none;
  };
}

abbrev pending_claim : ResourceClaim
pending_claim = record claim { status = record claim.status { phase = pending } }

merge_outputs_lem_example :
    let os = none ∷ some uri ∷ some (create_image_output "nginx") ∷ [] in
    ((merge_outputs os).secret_ref ≡ first_set (λ o. o.secret_ref) os)
    × ((merge_outputs os).config_map_ref ≡ first_set (λ o. o.config_map_ref) os)
    × ((merge_outputs os).uri ≡ first_set (λ o. o.uri) os)
    × ((merge_outputs os).image ≡ first_set (λ o. o.image) os)
    × ((merge_outputs os).cert ≡ first_set (λ o. o.cert) os)
merge_outputs_lem_example =
    merge_outputs_lem (none ∷ some uri ∷ some (create_image_output "nginx") ∷ [])

pending-IsConsistent : IsConsistent pending_claim.status
pending-IsConsistent = inr ((λ e. absurd cc), refl, refl)

handle_provisioning-IsConsistent_example :
    IsConsistent
      (handle_provisioning 5 selector (some pending_claim, false) pending_claim).claim.status
handle_provisioning-IsConsistent_example =
    handle_provisioning-IsConsistent 5 selector (some pending_claim, false) pending_claim
      pending-IsConsistent

handle_provisioning-Leads_example :
    Leads pending
      (handle_provisioning 5 selector (some pending_claim, false) pending_claim).claim.status.phase
handle_provisioning-Leads_example =
    handle_provisioning-Leads 5 selector (some pending_claim, false) pending_claim

abbrev of_type : String → Strategy World
of_type type = record postgres { type = type }

abbrev test_claim : ResourceClaim
test_claim = record claim { spec = record claim.spec { type = "test" } }

filter_supported_types_lem_example :
    filter_supported_types (load_supported_types "postgres, redis" []) claim ≡ (
      is_being_deleted claim
      || is_listed (codes claim.spec.type) (
          split
            (codes (
              if "postgres, redis" == ""
              then "postgres,redis,secret,test,mock"
              else "postgres, redis"))
            b','))
filter_supported_types_lem_example = filter_supported_types_lem "postgres, redis" claim

default_type-unserved_example :
    (filter_supported_types (load_supported_types "" []) test_claim ≡ true)
    × ((handle_provisioning 5
          (register_strategies
            (of_type "postgres")
            (of_type "redis")
            (of_type "secret")
            (load_provisioning_config no_strategies))
          (some test_claim, false)
          test_claim).claim.status.phase
        ≡ failed)
default_type-unserved_example =
    default_type-unserved 5 (of_type "postgres") (of_type "redis") (of_type "secret")
      (some test_claim, false) test_claim refl refl refl (inl refl)
