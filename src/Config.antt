-- ===== src/Config.antt =====
-- internal/config/validation.go: the validation of an OrchestratorConfig. A map to bool is the list of
-- its keys. The check of DNS labels is that of k8s.io/apimachinery, a parameter.
pub mod Constraints
pub mod Fresh
pub mod Checked
pub mod Reconciler
mod Tests
use score_orchestrator.Base.{
  ℕ, suc, String, Bool, true, false, not, ◌&&◌, ◌||◌, Option, none, some, List, [], ◌∷◌, ◌++◌, ◌==◌,
  any, all, leb, is_empty, is_some, if◌then◌else◌,
}
use score_orchestrator.Base.Int.{ltb_ℤ, pos}
use score_orchestrator.Base.Text.{Codes, codes, split, joined}
use score_orchestrator.Api.Config.{
  OrchestratorConfig, ProfileSpec, BackendSpec, TemplateSpec, ConstraintsRef, absent, present,
  ConstraintsSpec, ResourceConstraints, ProvisionerSpec, ClassSpec, DefaultsSpec, SelectorSpec,
  match_labels, match_expressions, selector_profile, selector_constraints, required_resources,
}
use score_orchestrator.Config.Constraints.{
  FieldPath, FieldError, child, index, invalid, required, duplicate, not_supported, not_found,
  under, at, when, member, with_name, validate_template, validate_constraints,
}

unfoldable pub backend_id_errors : BackendSpec → FieldPath → List String → List FieldError
backend_id_errors b path ids =
    if b.backend_id == ""
    then required (under path "backendId") "backendId is required" ∷ []
    else when (member b.backend_id ids) (duplicate (under path "backendId"))

unfoldable pub backend_errors : BackendSpec → FieldPath → List FieldError
backend_errors b path =
    (if b.runtime_class == ""
      then required (under path "runtimeClass") "runtimeClass is required" ∷ []
      else when (not (member b.runtime_class ("kubernetes" ∷ "ecs" ∷ "nomad" ∷ [])))
          (not_supported (under path "runtimeClass")))
    ++ validate_template b.template (under path "template")
    ++ when (b.version == "") (required (under path "version") "version is required")
    ++ when (ltb_ℤ b.priority (pos 0))
        (invalid (under path "priority") "priority must be non-negative")
    ++ validate_constraints b.constraints (under path "constraints")

-- The errors of a backend, and the ids that were seen, its own included.
unfoldable pub validate_backend :
    BackendSpec → FieldPath → List String → List FieldError × List String
validate_backend b path ids = (
  backend_id_errors b path ids ++ backend_errors b path,
  (if b.backend_id == "" then ids else with_name b.backend_id ids),
)

unfoldable pub validate_backends :
    ℕ → List BackendSpec → FieldPath → List String → List FieldError × List String
validate_backends j [] path ids = ([], ids)
validate_backends j (b ∷ bs) path ids =
    let (errors, seen) = validate_backend b (at (under path "backends") j) ids in
    let (rest, last) = validate_backends (suc j) bs path seen in (errors ++ rest, last)

module _ (dns_errors : String → Option String) where
  -- The errors of the name of a profile; IsDNS1123Label's are joined to one text.
  unfoldable pub validate_name : String → FieldPath → List String → List FieldError
  validate_name name path names =
      if name == ""
      then required (under path "name") "name is required" ∷ []
      else (elim (dns_errors name) [ none ↦ [] | some e ↦ invalid (under path "name") e ∷ [] ])
        ++ when (member name names) (duplicate (under path "name"))

  unfoldable pub validate_profiles_from :
      ℕ → List ProfileSpec → FieldPath → List String → List String → List FieldError
  validate_profiles_from i [] path names ids = []
  validate_profiles_from i (p ∷ ps) path names ids =
      let (errors, seen) = validate_backends 0 p.backends (at path i) ids in
      validate_name p.name (at path i) names
      ++ when (is_empty p.backends)
          (required (under (at path i) "backends") "at least one backend must be defined")
      ++ errors
      ++ validate_profiles_from (suc i) ps path
          (if p.name == "" then names else with_name p.name names) seen

  unfoldable pub validate_profiles : List ProfileSpec → FieldPath → List FieldError
  validate_profiles profiles path =
      if is_empty profiles
      then required path "at least one profile must be defined" ∷ []
      else validate_profiles_from 0 profiles path [] []

unfoldable pub validate_classes_from :
    ℕ → List ClassSpec → FieldPath → List String → List FieldError
validate_classes_from i [] path names = []
validate_classes_from i (c ∷ cs) path names =
    (if c.name == ""
      then required (under (at path i) "name") "name is required" ∷ []
      else when (member c.name names) (duplicate (under (at path i) "name")))
    ++ validate_constraints c.constraints (under (at path i) "constraints")
    ++ validate_classes_from (suc i) cs path
        (if c.name == "" then names else with_name c.name names)

unfoldable pub validate_provisioners_from :
    ℕ → List ProvisionerSpec → FieldPath → List String → List FieldError
unfolding validate_classes_from
validate_provisioners_from i [] path types = []
validate_provisioners_from i (p ∷ ps) path types =
    (if p.type == ""
      then required (under (at path i) "type") "type is required" ∷ []
      else when (member p.type types) (duplicate (under (at path i) "type")))
    ++ when (p.provisioner == "")
        (required (under (at path i) "provisioner") "provisioner is required")
    ++ validate_classes_from 0 p.classes (under (at path i) "classes") []
    ++ validate_provisioners_from (suc i) ps path
        (if p.type == "" then types else with_name p.type types)

unfoldable pub validate_selectors_from : ℕ → List SelectorSpec → FieldPath → List FieldError
validate_selectors_from i [] path = []
validate_selectors_from i (s ∷ ss) path =
    when (is_empty (match_labels s) && is_empty (match_expressions s))
      (required (at path i) "selector must specify either matchLabels or matchExpressions")
    ++ validate_constraints (selector_constraints s) (under (at path i) "constraints")
    ++ validate_selectors_from (suc i) ss path

unfoldable pub validate_defaults : DefaultsSpec → FieldPath → List FieldError
validate_defaults d path =
    when (d.profile == "") (required (under path "profile") "default profile is required")
    ++ validate_selectors_from 0 d.selectors (under path "selectors")

-- The names that validateCrossReferences collects.
abbrev pub profile_names : List ProfileSpec → List String
profile_names [] = []
profile_names (p ∷ ps) = with_name p.name (profile_names ps)

unfoldable pub selector_references : ℕ → List SelectorSpec → List String → List FieldError
selector_references i [] names = []
selector_references i (s ∷ ss) names =
    when (not (selector_profile s == "") && not (member (selector_profile s) names)) (
      not_found (under (at (child "spec" ∷ child "defaults" ∷ child "selectors" ∷ []) i) "profile"))
    ++ selector_references (suc i) ss names

unfoldable pub class_references : ℕ → List ProvisionerSpec → List FieldError
class_references i [] = []
class_references i (p ∷ ps) =
    (elim p.defaults [
      | none ↦ []
      | some d ↦ when (not (d.class == "") && not (any (λ c. c.name == d.class) p.classes)) (
          not_found (
            at (child "spec" ∷ child "provisioners" ∷ []) i
            ++ child "defaults" ∷ child "class" ∷ []))
    ])
    ++ class_references (suc i) ps

unfoldable pub validate_cross_references : OrchestratorConfig → List FieldError
validate_cross_references config =
    let names = profile_names config.spec.profiles in
    when
      (not (config.spec.defaults.profile == "") && not (member config.spec.defaults.profile names))
      (not_found (child "spec" ∷ child "defaults" ∷ child "profile" ∷ []))
    ++ selector_references 0 config.spec.defaults.selectors names
    ++ class_references 0 config.spec.provisioners

unfoldable pub metadata_errors : OrchestratorConfig → List FieldError
metadata_errors config =
    when (not (config.api_version == "score.dev/v1b1"))
      (invalid (child "apiVersion" ∷ []) "must be 'score.dev/v1b1'")
    ++ when (not (config.kind == "OrchestratorConfig"))
        (invalid (child "kind" ∷ []) "must be 'OrchestratorConfig'")
    ++ when (config.metadata.name == "")
        (required (child "metadata" ∷ child "name" ∷ []) "name is required")

-- Every error that Validate collects; it returns nil if there is none.
unfoldable pub validate : (String → Option String) → OrchestratorConfig → List FieldError
validate dns_errors config =
    metadata_errors config
    ++ validate_profiles dns_errors config.spec.profiles (child "spec" ∷ child "profiles" ∷ [])
    ++ validate_provisioners_from 0 config.spec.provisioners
        (child "spec" ∷ child "provisioners" ∷ []) []
    ++ validate_defaults config.spec.defaults (child "spec" ∷ child "defaults" ∷ [])
    ++ validate_cross_references config
