-- ===== src/Selection/Pipeline.antt =====
-- SelectBackend of internal/selection/selector.go: the profile, the backends that pass its filters,
-- and the best of them. The label selectors are matched by k8s.io/apimachinery, a parameter.
pub mod Profile
pub mod Filter
pub mod Selected
use score_orchestrator.Base.{
  String, Bool, true, false, not, ◌&&◌, ◌||◌, Option, none, some, List, [], ◌∷◌, ◌==◌, is_empty,
  any, keep, find, if◌then◌else◌,
}
use score_orchestrator.Base.Int.{ℤ}
use score_orchestrator.Base.Dict.{Dict, lookup}
use score_orchestrator.Base.Text.{Codes, codes, contains, to_lower}
use score_orchestrator.Base.Result.{Result, ok, err, ◌>>=◌}
use score_orchestrator.Api.Workload.{Workload}
use score_orchestrator.Api.Config.{
  OrchestratorConfig, ProfileSpec, BackendSpec, SelectorSpec, Requirement, ConstraintsSpec,
  ConstraintsRef, absent, present, TemplateSpec, ResourceConstraints, match_labels,
  match_expressions, selector_profile, required_selectors, required_features, required_resources,
}
use score_orchestrator.Selection.Quantity.{validate_resource_constraints}
use score_orchestrator.Selection.Ranking
use score_orchestrator.Selection.Ranking.{SemVer}
use score_orchestrator.Selection.Features.{service_ports, validate_feature_requirements}

-- metav1.LabelSelectorAsSelector and Matches: `none` is the error of a malformed selector.
abbrev pub LabelMatcher : Type 0
LabelMatcher = Dict String → List Requirement → Dict String → Option Bool

pub data SelectError : Type 0 where
  hinted_missing : String → SelectError
  no_profile : SelectError
  profile_not_found : String → SelectError
  no_candidates : String → SelectError

pub record SelectedBackend : Type 0 where
  pub backend_id : String
  pub runtime_class : String
  pub template : TemplateSpec
  pub priority : ℤ
  pub version : String

abbrev pub names_service : ProfileSpec → Bool
names_service p =
    contains (to_lower (codes p.name)) (codes "web")
    || contains (to_lower (codes p.name)) (codes "service")

abbrev pub names_batch : ProfileSpec → Bool
names_batch p =
    contains (to_lower (codes p.name)) (codes "batch")
    || contains (to_lower (codes p.name)) (codes "job")

abbrev pub is_named : String → ProfileSpec → Bool
is_named name p = p.name == name

abbrev pub name_or_empty : Option ProfileSpec → String
name_or_empty none = ""
name_or_empty (some p) = p.name

module _ (matcher : LabelMatcher) where
  unfoldable pub selector_matches : SelectorSpec → Dict String → Bool
  selector_matches s labels = elim (matcher (match_labels s) (match_expressions s) labels) [
    | none ↦ false
    | some matched ↦ matched
  ]

  unfoldable pub backend_selectors_match : List SelectorSpec → Dict String → Bool
  backend_selectors_match selectors labels =
      if is_empty selectors then true else any (λ s. selector_matches s labels) selectors

module _ (config : OrchestratorConfig) where
  unfoldable pub derive_profile_from_workload : Workload → String
  derive_profile_from_workload w =
      if not (is_empty (service_ports w))
      then name_or_empty (find names_service config.spec.profiles)
      else name_or_empty (find names_batch config.spec.profiles)

  unfoldable pub select_profile_from_selectors :
      LabelMatcher → List SelectorSpec → Dict String → String
  select_profile_from_selectors matcher [] labels = ""
  select_profile_from_selectors matcher (s ∷ ss) labels =
      if selector_matches matcher s labels && not (selector_profile s == "")
      then selector_profile s
      else select_profile_from_selectors matcher ss labels

  -- The steps after the hint: derivation, selectors, default.
  unfoldable pub select_without_hint : LabelMatcher → Workload → Result SelectError String
  select_without_hint matcher w =
      if not (derive_profile_from_workload w == "")
      then ok (derive_profile_from_workload w)
      else if not
          (select_profile_from_selectors matcher config.spec.defaults.selectors w.labels == "")
      then ok (select_profile_from_selectors matcher config.spec.defaults.selectors w.labels)
      else if not (config.spec.defaults.profile == "")
      then ok config.spec.defaults.profile
      else err no_profile

  unfoldable pub select_profile : LabelMatcher → Workload → Result SelectError String
  select_profile matcher w = elim (lookup "score.dev/profile" w.annotations) [
    | none ↦ select_without_hint matcher w
    | some hint ↦
        if hint == ""
        then select_without_hint matcher w
        else if any (is_named hint) config.spec.profiles
        then ok hint
        else err (hinted_missing hint)
  ]

resources_fit : Workload → Option ResourceConstraints → Bool
resources_fit w none = true
resources_fit w (some limits) = validate_resource_constraints w.spec.containers limits

-- The three tests of one round of the loop of filterBackends.
unfoldable pub passes : LabelMatcher → Workload → ConstraintsRef → Bool
unfolding resources_fit
passes matcher w absent = true
passes matcher w (present c) =
    if not (backend_selectors_match matcher (required_selectors c) w.labels)
    then false
    else if not (validate_feature_requirements w (required_features c))
    then false
    else resources_fit w (required_resources c)

unfoldable pub filter_backends : LabelMatcher → Workload → List BackendSpec → List BackendSpec
filter_backends matcher w backends = keep (λ b. passes matcher w b.constraints) backends

abbrev pub selected : BackendSpec → SelectedBackend
selected b = record {
  backend_id = b.backend_id;
  runtime_class = b.runtime_class;
  template = b.template;
  priority = b.priority;
  version = b.version;
}

-- What is selected from the sorted candidates, of which there is one at least here.
best_of : String → Option BackendSpec → Result SelectError SelectedBackend
best_of name none = err (no_candidates name)
best_of name (some best) = ok (selected best)

-- The last two steps, on the profile that was found.
unfoldable pub select_from :
    SemVer
    → LabelMatcher
    → Workload
    → String
    → Option ProfileSpec
    → Result SelectError SelectedBackend
unfolding best_of
select_from semver matcher w name none = err (profile_not_found name)
select_from semver matcher w name (some profile) =
    let candidates = filter_backends matcher w profile.backends in
    if is_empty candidates
    then err (no_candidates name)
    else best_of name (Ranking.select_backend semver candidates)

unfoldable pub select_backend :
    SemVer → LabelMatcher → OrchestratorConfig → Workload → Result SelectError SelectedBackend
select_backend semver matcher config w = do
  name ← select_profile config matcher w
  select_from semver matcher w name (find (is_named name) config.spec.profiles)
