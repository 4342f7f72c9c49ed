-- ===== src/Selection/Features/Detected.antt =====
-- Which features a workload has: those that it declares, and those that are detected.
use score_orchestrator.Base.{
  String, Bool, true, false, not, ◌&&◌, ◌||◌, ◌≡◌, ◌∙◌, refl, ap, Option, none, some, List, [], ◌∷◌,
  arith, is_empty, any, all, if◌then◌else◌, Bool-cases, inl, inr,
}
use score_orchestrator.Base.Dict.{lookup}
use score_orchestrator.Base.Text.{Codes, codes, same_text, split, trim_space}
use score_orchestrator.Api.Workload.{Workload, ServicePort}
use score_orchestrator.Selection.Features.{
  FeatureSet, has, service_ports, is_http_port, is_https_port, is_monitoring_port, monitors,
  stores_files, is_database, asks_scale_to_zero, ingress_of_port, ingress_of_ports,
  detect_ingress_features, detect_monitoring_features, detect_scale_features,
  detect_storage_features, detect_database_features, auto_detect_features, declare_all,
  declared_features, get_workload_features, all_present, validate_feature_requirements,
}

-- The annotation lists the feature, up to spaces around it.
abbrev pub is_declared : Workload → Codes → Bool
is_declared w feature = elim (lookup "score.dev/requirements" w.annotations) [
  | none ↦ false
  | some listed ↦ any (λ f. same_text feature (trim_space f)) (split (codes listed) b',')
]

-- What each detected feature stands for.
abbrev pub is_detected : Workload → Codes → Bool
is_detected w feature =
    (same_text feature (codes "http-ingress") && not (is_empty (service_ports w)))
    || (same_text feature (codes "https-ingress") && any is_https_port (service_ports w))
    || (same_text feature (codes "monitoring")
        && (any is_monitoring_port (service_ports w) || any monitors w.spec.containers))
    || (same_text feature (codes "scale-to-zero")
        && asks_scale_to_zero (lookup "score.dev/scale-to-zero" w.annotations))
    || (same_text feature (codes "persistent-storage") && any stores_files w.spec.containers)
    || (same_text feature (codes "database-connectivity") && any is_database w.spec.resources)

module _ (feature : Codes) where
  has-ingress_of_port :
      (p : ServicePort) (set : FeatureSet)
      → (same_text feature (codes "http-ingress") || has feature (ingress_of_port p set)) ≡ (
          same_text feature (codes "http-ingress")
          || ((same_text feature (codes "https-ingress") && is_https_port p) || has feature set))
  unfolding ingress_of_port
  has-ingress_of_port p set = elim (Bool-cases (is_http_port p)) [
    | inl http ↦ elim (Bool-cases (is_https_port p)) [
      | inl https ↦ rw (http, https) (ground arith)
      | inr plain ↦ rw (http, plain) (ground arith)
    ]
    | inr other ↦ elim (Bool-cases (is_https_port p)) [
      | inl https ↦ rw (other, https) (ground arith)
      | inr plain ↦ rw (other, plain) (ground arith)
    ]
  ]

  -- HTTP ingress is set aside here: it is set after the loop in any case.
  has-ingress_of_ports :
      (ps : List ServicePort) (set : FeatureSet)
      → (same_text feature (codes "http-ingress") || has feature (ingress_of_ports ps set)) ≡ (
          same_text feature (codes "http-ingress")
          || ((same_text feature (codes "https-ingress") && any is_https_port ps)
              || has feature set))
  unfolding ingress_of_ports
  has-ingress_of_ports [] set = ground arith
  has-ingress_of_ports (p ∷ ps) set =
      has-ingress_of_ports ps (ingress_of_port p set)
      ∙ regroup (same_text feature (codes "http-ingress"))
          (same_text feature (codes "https-ingress")) (is_https_port p) (any is_https_port ps)
          (has feature (ingress_of_port p set)) (has feature set) (has-ingress_of_port p set)
    where
      regroup :
          (a b h hs set' set : Bool)
          → (a || set') ≡ (a || ((b && h) || set))
          → (a || ((b && hs) || set')) ≡ (a || ((b && (h || hs)) || set))
      regroup a b h hs set' set e = ground arith

  has-detect_ingress :
      (w : Workload) (set : FeatureSet)
      → has feature (detect_ingress_features w set) ≡ (
          (same_text feature (codes "http-ingress") && not (is_empty (service_ports w)))
          || ((same_text feature (codes "https-ingress") && any is_https_port (service_ports w))
              || has feature set))
  unfolding detect_ingress_features
  has-detect_ingress w set = by_ports (service_ports w)
    where
      by_ports :
          (ps : List ServicePort)
          → has feature
              (if is_empty ps then set else codes "http-ingress" ∷ ingress_of_ports ps set)
            ≡ ((same_text feature (codes "http-ingress") && not (is_empty ps))
                || ((same_text feature (codes "https-ingress") && any is_https_port ps)
                    || has feature set))
      by_ports [] = ground arith
      by_ports (p ∷ ps) = ground (arith, has-ingress_of_ports (p ∷ ps) set)

  -- A feature that is set under a test.
  has-if :
      (test : Bool) (f : Codes) (set : FeatureSet)
      → has feature (if test then f ∷ set else set)
        ≡ ((same_text feature f && test) || has feature set)
  has-if test f set = ground arith

  has-declare_all :
      (fs : List Codes) (set : FeatureSet)
      → has feature (declare_all fs set)
        ≡ (any (λ f. same_text feature (trim_space f)) fs || has feature set)
  has-declare_all [] set = refl
  has-declare_all (f ∷ fs) set = ground (arith, has-declare_all fs (trim_space f ∷ set))

  has-declared_features : (w : Workload) → has feature (declared_features w) ≡ is_declared w feature
  unfolding declared_features
  has-declared_features w = listed (lookup "score.dev/requirements" w.annotations)
    where
      listed :
          (o : Option String)
          → has feature
              (elim o [ none ↦ [] | some text ↦ declare_all (split (codes text) b',') [] ])
            ≡ (elim o [
              | none ↦ false
              | some text ↦ any (λ f. same_text feature (trim_space f)) (split (codes text) b',')
            ])
      listed none = refl
      listed (some text) = has-declare_all (split (codes text) b',') [] ∙ ground arith

  has-detect_monitoring :
      (w : Workload) (set : FeatureSet)
      → has feature (detect_monitoring_features w set) ≡ (
          (same_text feature (codes "monitoring")
            && (any is_monitoring_port (service_ports w) || any monitors w.spec.containers))
          || has feature set)
  unfolding detect_monitoring_features
  has-detect_monitoring w set =
      two_tests (any is_monitoring_port (service_ports w)) (any monitors w.spec.containers)
    where
      two_tests :
          (a b : Bool)
          → has feature
              (if a then codes "monitoring" ∷ set else if b then codes "monitoring" ∷ set else set)
            ≡ ((same_text feature (codes "monitoring") && (a || b)) || has feature set)
      two_tests a b = ground arith

  has-detect_scale :
      (w : Workload) (set : FeatureSet)
      → has feature (detect_scale_features w set) ≡ (
          (same_text feature (codes "scale-to-zero")
            && asks_scale_to_zero (lookup "score.dev/scale-to-zero" w.annotations))
          || has feature set)
  unfolding detect_scale_features
  has-detect_scale w set = has-if _ (codes "scale-to-zero") set

  has-detect_storage :
      (w : Workload) (set : FeatureSet)
      → has feature (detect_storage_features w set) ≡ (
          (same_text feature (codes "persistent-storage") && any stores_files w.spec.containers)
          || has feature set)
  unfolding detect_storage_features
  has-detect_storage w set = has-if _ (codes "persistent-storage") set

  has-detect_database :
      (w : Workload) (set : FeatureSet)
      → has feature (detect_database_features w set) ≡ (
          (same_text feature (codes "database-connectivity") && any is_database w.spec.resources)
          || has feature set)
  unfolding detect_database_features
  has-detect_database w set = has-if _ (codes "database-connectivity") set

  has-auto_detect_features :
      (w : Workload) (set : FeatureSet)
      → has feature (auto_detect_features w set) ≡ (has feature set || is_detected w feature)
  unfolding auto_detect_features
  has-auto_detect_features w set =
      let ingress = detect_ingress_features w set in
      let monitoring = detect_monitoring_features w ingress in
      let scale = detect_scale_features w monitoring in
      let storage = detect_storage_features w scale in
      has-detect_database w storage
      ∙ ap (◌||◌ _) (
          has-detect_storage w scale
          ∙ ap (◌||◌ _) (
              has-detect_scale w monitoring
              ∙ ap (◌||◌ _)
                  (has-detect_monitoring w ingress ∙ ap (◌||◌ _) (has-detect_ingress w set))))
      ∙ regroup
          (same_text feature (codes "database-connectivity") && any is_database w.spec.resources)
          (same_text feature (codes "persistent-storage") && any stores_files w.spec.containers)
          (same_text feature (codes "scale-to-zero")
            && asks_scale_to_zero (lookup "score.dev/scale-to-zero" w.annotations))
          (same_text feature (codes "monitoring")
            && (any is_monitoring_port (service_ports w) || any monitors w.spec.containers))
          (same_text feature (codes "http-ingress") && not (is_empty (service_ports w)))
          (same_text feature (codes "https-ingress") && any is_https_port (service_ports w))
          (has feature set)
    where
      regroup :
          (database storage scale monitoring http https before : Bool)
          → (database || (storage || (scale || (monitoring || (http || (https || before))))))
            ≡ (before || (http || https || monitoring || scale || storage || database))
      regroup true b c d e f g = ground arith
      regroup false true c d e f g = ground arith
      regroup false false c d e f g = ground arith

-- A workload has exactly the features that its annotation declares and those that are detected:
-- HTTP ingress by any service port, HTTPS ingress by its ports, monitoring by a port or a variable,
-- scale to zero by its annotation, storage by files, a database by a resource type.
pub has-get_workload_features :
    (w : Workload) (feature : Codes)
    → has feature (get_workload_features w) ≡ (is_declared w feature || is_detected w feature)
unfolding get_workload_features
has-get_workload_features w feature =
    has-auto_detect_features feature w (declared_features w)
    ∙ ap (λ b. b || is_detected w feature) (has-declared_features feature w)

all_present_lem :
    (w : Workload) (required : List String)
    → all_present (get_workload_features w) required
      ≡ all (λ r. is_declared w (codes r) || is_detected w (codes r)) required
all_present_lem w [] = refl
all_present_lem w (r ∷ rs) =
    all_of_two _ _ _ _ (has-get_workload_features w (codes r)) (all_present_lem w rs)
  where
    all_of_two :
        (a b rest rest' : Bool)
        → a ≡ b
        → rest ≡ rest'
        → (if not a then false else rest) ≡ (b && rest')
    all_of_two a b rest rest' e f = ground arith

-- The features that a backend requires are there exactly when each is declared or detected.
pub validate_feature_requirements_lem :
    (w : Workload) (required : List String)
    → validate_feature_requirements w required
      ≡ all (λ r. is_declared w (codes r) || is_detected w (codes r)) required
unfolding validate_feature_requirements
validate_feature_requirements_lem w [] = refl
validate_feature_requirements_lem w (r ∷ rs) = all_present_lem w (r ∷ rs)
