-- ===== src/Selection/Tests.antt =====
-- Runs of the backend selection, and its theorems at concrete inputs: a service workload, and a
-- profile with a newer, a preferred and an unfit backend.
use Prim.Native.Nat.{compare}
use score_orchestrator.Base.{
  ℕ, String, Bool, true, false, ◌≡◌, refl, ◌↔◌, inl, inr, Option, none, some, [], ◌∷◌, ◌++◌, arith,
  ◌==◌, ◌||◌, In, all, string_ne,
}
use mathlib.Core.List.Perm
use score_orchestrator.Base.Int.{ℤ, pos}
use score_orchestrator.Base.Dict.{Dict, lookup}
use score_orchestrator.Base.Text.{codes, to_lower, to_upper, split, trim_space}
use score_orchestrator.Base.Order.{IsPreorder}
use score_orchestrator.Base.Result.{ok}
use score_orchestrator.Api.Meta.{ObjectMeta}
use score_orchestrator.Api.Workload.{Workload, ContainerSpec}
use score_orchestrator.Api.Config.{
  OrchestratorConfig, ProfileSpec, BackendSpec, ResourceConstraints, ConstraintsRef, absent,
  present, constraints_spec, nil,
}
use score_orchestrator.Selection.Quantity.{
  parse_digits, parse_quantity, format_int, validate_quantity_constraint,
  calculate_workload_resources, validate_resource_constraints,
}
use score_orchestrator.Selection.Quantity.Decimal.{parse_quantity-format_int}
use score_orchestrator.Selection.Quantity.Range.{
  AtLeast, AtMost, validate_range_iff, exact_unit_admits_none,
}
use score_orchestrator.Selection.Quantity.Totals.{validate_resource_constraints-perm}
use score_orchestrator.Selection.Ranking
use score_orchestrator.Selection.Ranking.{SemVer}
use score_orchestrator.Selection.Ranking.Best.{
  Best, select_backend_lem, select_backend_deterministic,
}
use score_orchestrator.Selection.Features.{
  has, get_workload_features, validate_feature_requirements,
}
use score_orchestrator.Selection.Features.Detected.{
  is_declared, is_detected, has-get_workload_features,
}
use score_orchestrator.Selection.Quantity
use score_orchestrator.Selection.Features
use score_orchestrator.Selection.Pipeline
use score_orchestrator.Selection.Pipeline.{
  LabelMatcher, SelectedBackend, selected, filter_backends, select_profile, select_from,
  select_backend,
}
use score_orchestrator.Selection.Pipeline.Filter.{Admits, In-filter_backends}
use score_orchestrator.Selection.Pipeline.Profile.{
  RefersToProfiles, IsHandled, select_profile-IsHandled,
}
use score_orchestrator.Selection.Pipeline.Selected.{
  IsSelected, IsExplained, select_backend-IsSelected, select_backend-IsExplained,
}

pub compare-IsPreorder : IsPreorder (compare)
compare-IsPreorder = record { swapped = λ a b. ground arith; trans = λ a b c h k. ground arith }

-- Versions that are one number.
abbrev pub numbers : SemVer
numbers = record {
  Version = ℕ;
  new_version = λ s. parse_digits (codes s);
  compare = compare;
  precedence = compare-IsPreorder;
}

-- A matcher that looks at the labels to match only.
abbrev pub equal_labels : LabelMatcher
equal_labels wanted exprs labels =
    some (all (λ (key, value). has_label value (lookup key labels)) wanted)
  where
    has_label : String → Option String → Bool
    has_label value none = false
    has_label value (some v) = v == value

abbrev meta : ObjectMeta
meta = record {
  name = "web";
  namespace = "shop";
  uid = "u1";
  generation = 1;
  labels = [];
  annotations = [];
  finalizers = [];
  owner_references = [];
  deletion_timestamp = none;
}

abbrev container : String → ContainerSpec
container memory = record {
  image = "nginx";
  command = [];
  args = [];
  variables = none;
  files = [];
  liveness_probe = none;
  readiness_probe = none;
  resources = some (record { limits = []; requests = ("memory", memory) ∷ [] });
}

abbrev two_containers : Dict ContainerSpec
two_containers = ("app", container "256Mi") ∷ ("log", container "64Mi") ∷ []

abbrev pub workload : Workload
workload = record {
  metadata = meta;
  spec = record {
    profile = none;
    containers = two_containers;
    service =
        some
          (record { ports = record { port = pos 80; protocol = "TCP"; target_port = none } ∷ [] });
    resources = [];
  };
  status = record { endpoint = none; conditions = []; claims = [] };
}

abbrev limits : ResourceConstraints
limits = record { cpu = ""; memory = "128Mi-512Mi"; storage = "" }

abbrev backend : String → ℤ → String → ConstraintsRef → BackendSpec
backend id priority version constraints = record {
  backend_id = id;
  runtime_class = "kubernetes";
  template = record { kind = "manifests"; ref = "r"; values = none };
  priority = priority;
  version = version;
  constraints = constraints;
}

abbrev newer : BackendSpec
newer = backend "newer" (pos 5) "20" absent

abbrev pub fitting : BackendSpec
fitting =
    backend "fitting" (pos 7) "3"
      (present (constraints_spec nil ("http-ingress" ∷ []) [] (some limits)))

abbrev unfit : BackendSpec
unfit = backend "unfit" (pos 9) "4" (present (constraints_spec nil ("gpu" ∷ []) [] none))

abbrev web_service : ProfileSpec
web_service = record {
  name = "web-service";
  description = "";
  backends = newer ∷ fitting ∷ unfit ∷ [];
}

abbrev pub config : OrchestratorConfig
config = record {
  api_version = "score.dev/v1b1";
  kind = "OrchestratorConfig";
  metadata = record { name = "main"; version = "1" };
  spec = record {
    profiles = web_service ∷ [];
    provisioners = [];
    defaults = record { profile = "web-service"; selectors = [] };
  };
  reconciler = none;
}

config-RefersToProfiles : RefersToProfiles config.spec
config-RefersToProfiles = record {
  default_set = string_ne "web-service" "" refl;
  default_exists = (web_service, inl refl, refl);
  selectors_exist = tt;
}

-- The preferred backend passes its filter and wins over the newer one.
pub selects_fitting : select_backend numbers equal_labels config workload ≡ ok (selected fitting)
unfolding select_backend select_profile select_from lookup Pipeline.select_without_hint
    Pipeline.derive_profile_from_workload to_lower filter_backends Pipeline.passes
    Ranking.select_backend Pipeline.backend_selectors_match validate_feature_requirements
    get_workload_features Features.auto_detect_features Features.detect_database_features
    Features.detect_storage_features Features.detect_scale_features
    Features.detect_monitoring_features Features.detect_ingress_features
    validate_resource_constraints split to_upper trim_space Features.declared_features
    calculate_workload_resources Quantity.emit format_int parse_digits Quantity.parse_int
    parse_quantity Quantity.scan Quantity.strip_suffix Quantity.total validate_quantity_constraint
    Ranking.less Ranking.move_left Ranking.sort_from Ranking.sort_slice
selects_fitting = refl

parse_quantity-format_int_example :
    (parse_quantity (format_int 4096) ≡ some 4096)
    × (parse_quantity (format_int 4096 ++ codes "m") ≡ some 4096)
parse_quantity-format_int_example = parse_quantity-format_int 4096 (omega arith)

validate_range_iff_example :
    ((validate_quantity_constraint (format_int 4096) (codes "128-1Mi") ≡ true)
      ↔ (AtLeast (codes "128") 4096 × AtMost (codes "1Mi") 4096))
    × ((validate_quantity_constraint (format_int 4096 ++ codes "m") (codes "128-1Mi") ≡ true)
        ↔ (AtLeast (codes "128") 4096 × AtMost (codes "1Mi") 4096))
validate_range_iff_example =
    validate_range_iff (codes "128") (codes "1Mi") 4096 (omega arith) (omega arith) (omega arith)

exact_unit_admits_none_example :
    validate_quantity_constraint (format_int 536870912) (codes "512Mi") ≡ false
exact_unit_admits_none_example =
    exact_unit_admits_none (codes "512") (codes "Mi") 536870912 (omega arith) (inl refl)

validate_resource_constraints-perm_example :
    (calculate_workload_resources two_containers
      ≡ calculate_workload_resources (("log", container "64Mi") ∷ ("app", container "256Mi") ∷ []))
    × (validate_resource_constraints two_containers limits
        ≡ validate_resource_constraints
            (("log", container "64Mi") ∷ ("app", container "256Mi") ∷ [])
            limits)
validate_resource_constraints-perm_example =
    validate_resource_constraints-perm two_containers
      (("log", container "64Mi") ∷ ("app", container "256Mi") ∷ []) limits
      (Perm.swap ("log", container "64Mi") ("app", container "256Mi") [])

select_backend_lem_example :
    (b : BackendSpec) × (Ranking.select_backend numbers (newer ∷ fitting ∷ []) ≡ some b)
    × In b (newer ∷ fitting ∷ [])
    × Best numbers b (newer ∷ fitting ∷ [])
select_backend_lem_example = select_backend_lem numbers newer (fitting ∷ [])

select_backend_deterministic_example :
    Ranking.select_backend numbers (newer ∷ fitting ∷ [])
    ≡ Ranking.select_backend numbers (fitting ∷ newer ∷ [])
select_backend_deterministic_example =
    select_backend_deterministic numbers newer fitting (fitting ∷ []) (newer ∷ [])
      ((string_ne "fitting" "newer" refl, tt), (tt, tt))
      (λ z. (
        elim [ inl e ↦ inr (inl e) | inr (inl e) ↦ inl e | inr (inr m) ↦ elim m [ ] ],
        elim [ inl e ↦ inr (inl e) | inr (inl e) ↦ inl e | inr (inr m) ↦ elim m [ ] ],
      ))

has-get_workload_features_example :
    has (codes "http-ingress") (get_workload_features workload)
    ≡ (is_declared workload (codes "http-ingress") || is_detected workload (codes "http-ingress"))
has-get_workload_features_example = has-get_workload_features workload (codes "http-ingress")

In-filter_backends_example :
    In fitting (filter_backends equal_labels workload web_service.backends)
    ↔ (In fitting web_service.backends × Admits equal_labels workload fitting.constraints)
In-filter_backends_example = In-filter_backends equal_labels workload web_service.backends fitting

select_profile-IsHandled_example :
    IsHandled config equal_labels workload (select_profile config equal_labels workload)
select_profile-IsHandled_example =
    select_profile-IsHandled config equal_labels workload config-RefersToProfiles

select_backend-IsSelected_example :
    IsSelected numbers equal_labels config workload (selected fitting)
select_backend-IsSelected_example =
    select_backend-IsSelected numbers equal_labels workload config (selected fitting)
      selects_fitting

select_backend-IsExplained_example :
    IsExplained numbers equal_labels workload config
      (select_backend numbers equal_labels config workload)
select_backend-IsExplained_example =
    select_backend-IsExplained numbers equal_labels workload config config-RefersToProfiles
