-- ===== src/Selection/Features.antt =====
-- getWorkloadFeatures and validateFeatureRequirements of internal/selection/selector.go. A feature
-- set is the list of the keys that were set to true.
pub mod Detected
use score_orchestrator.Base.{
  ℕ, String, Bool, true, false, not, ◌&&◌, ◌||◌, Option, none, some, List, [], ◌∷◌, ◌++◌, ◌==◌,
  is_empty, any, if◌then◌else◌,
}
use score_orchestrator.Base.Int.{ℤ, pos, eqb_ℤ}
use score_orchestrator.Base.Dict.{entries_of, Dict, lookup}
use score_orchestrator.Base.Text.{
  Codes, codes, same_text, contains, split, trim_space, to_lower, to_upper,
}
use score_orchestrator.Api.Workload.{
  Workload, ServiceSpec, ServicePort, ContainerSpec, ResourceSpec,
}

abbrev pub FeatureSet : Type 0
FeatureSet = List Codes

-- featureSet[feature]
abbrev pub has : Codes → FeatureSet → Bool
has feature set = any (same_text feature) set

-- `workload.Spec.Service.Ports`, and no ports where there is no service
abbrev pub service_ports : Workload → List ServicePort
service_ports w = elim w.spec.service [ none ↦ [] | some s ↦ s.ports ]

abbrev is_port : ℤ → ℕ → Bool
is_port p n = eqb_ℤ p (pos n)

abbrev pub is_http_port : ServicePort → Bool
is_http_port p =
    is_port p.port 80 || is_port p.port 8080 || is_port p.port 3000 || is_port p.port 8000

abbrev pub is_https_port : ServicePort → Bool
is_https_port p = is_port p.port 443 || is_port p.port 8443

abbrev pub is_monitoring_port : ServicePort → Bool
is_monitoring_port p = is_port p.port 9090 || is_port p.port 9100 || is_port p.port 3000

abbrev pub names_monitoring : String × String → Bool
names_monitoring (name, value) =
    let upper = to_upper (codes name) in
    contains upper (codes "METRICS")
    || contains upper (codes "MONITORING")
    || contains upper (codes "PROMETHEUS")

abbrev pub monitors : String × ContainerSpec → Bool
monitors (name, container) = any names_monitoring (entries_of container.variables)

abbrev pub stores_files : String × ContainerSpec → Bool
stores_files (name, container) = not (is_empty container.files)

abbrev pub is_database : String × ResourceSpec → Bool
is_database (key, resource) =
    let type = to_lower (codes resource.type) in
    contains type (codes "postgres")
    || contains type (codes "mysql")
    || contains type (codes "database")
    || contains type (codes "redis")

-- One round of the loop over the ports.
ingress_of_port : ServicePort → FeatureSet → FeatureSet
ingress_of_port p set =
    let with_http = if is_http_port p then codes "http-ingress" ∷ set else set in
    if is_https_port p then codes "http-ingress" ∷ codes "https-ingress" ∷ with_http else with_http

ingress_of_ports : List ServicePort → FeatureSet → FeatureSet
ingress_of_ports [] set = set
ingress_of_ports (p ∷ ps) set = ingress_of_ports ps (ingress_of_port p set)

unfoldable pub detect_ingress_features : Workload → FeatureSet → FeatureSet
unfolding ingress_of_ports ingress_of_port
detect_ingress_features w set =
    if is_empty (service_ports w)
    then set
    else codes "http-ingress" ∷ ingress_of_ports (service_ports w) set

unfoldable pub detect_monitoring_features : Workload → FeatureSet → FeatureSet
detect_monitoring_features w set =
    if any is_monitoring_port (service_ports w)
    then codes "monitoring" ∷ set
    else if any monitors w.spec.containers
    then codes "monitoring" ∷ set
    else set

abbrev asks_scale_to_zero : Option String → Bool
asks_scale_to_zero none = false
asks_scale_to_zero (some value) = value == "true"

unfoldable pub detect_scale_features : Workload → FeatureSet → FeatureSet
detect_scale_features w set =
    if asks_scale_to_zero (lookup "score.dev/scale-to-zero" w.annotations)
    then codes "scale-to-zero" ∷ set
    else set

unfoldable pub detect_storage_features : Workload → FeatureSet → FeatureSet
detect_storage_features w set =
    if any stores_files w.spec.containers then codes "persistent-storage" ∷ set else set

unfoldable pub detect_database_features : Workload → FeatureSet → FeatureSet
detect_database_features w set =
    if any is_database w.spec.resources then codes "database-connectivity" ∷ set else set

unfoldable pub auto_detect_features : Workload → FeatureSet → FeatureSet
auto_detect_features w set = detect_database_features w (
    detect_storage_features w
      (detect_scale_features w (detect_monitoring_features w (detect_ingress_features w set))))

-- The features that the annotation lists, set one after the other.
abbrev declare_all : List Codes → FeatureSet → FeatureSet
declare_all [] set = set
declare_all (f ∷ fs) set = declare_all fs (trim_space f ∷ set)

unfoldable pub declared_features : Workload → FeatureSet
declared_features w = elim (lookup "score.dev/requirements" w.annotations) [
  | none ↦ []
  | some listed ↦ declare_all (split (codes listed) b',') []
]

unfoldable pub get_workload_features : Workload → FeatureSet
get_workload_features w = auto_detect_features w (declared_features w)

abbrev all_present : FeatureSet → List String → Bool
all_present set [] = true
all_present set (required ∷ rest) =
    if not (has (codes required) set) then false else all_present set rest

unfoldable pub validate_feature_requirements : Workload → List String → Bool
validate_feature_requirements w required =
    if is_empty required then true else all_present (get_workload_features w) required
