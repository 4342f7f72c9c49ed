-- ===== src/Api/Config.antt =====
-- api/v1b1/orchestratorconfig_types.go
use score_orchestrator.Base.{String, Option, List, [], ◌∷◌}
use score_orchestrator.Base.Int.{ℤ}
use score_orchestrator.Base.Dict.{Dict}
use score_orchestrator.Api.Meta.{Raw}

pub record TemplateSpec : Type 0 where
  pub kind : String
  pub ref : String
  pub values : Option Raw

pub record ResourceConstraints : Type 0 where
  pub cpu : String
  pub memory : String
  pub storage : String

-- metav1.LabelSelectorRequirement
pub record Requirement : Type 0 where
  pub key : String
  pub operator : String
  pub values : List String

-- A selector may hold constraints, and these hold selectors: the two Go structs refer to each
-- other, through a pointer and a slice.
mutual
  -- matchLabels, matchExpressions, profile, constraints
  pub data SelectorSpec : Type 0 where
    selector_spec : Dict String → List Requirement → String → ConstraintsRef → SelectorSpec

  -- *ConstraintsSpec
  pub data ConstraintsRef : Type 0 where
    absent : ConstraintsRef
    present : ConstraintsSpec → ConstraintsRef

  -- selectors, features, regions, resources
  pub data ConstraintsSpec : Type 0 where
    constraints_spec :
        Selectors → List String → List String → Option ResourceConstraints → ConstraintsSpec

  -- []SelectorSpec
  pub data Selectors : Type 0 where
    nil : Selectors
    cons : SelectorSpec → Selectors → Selectors

abbrev pub match_labels : SelectorSpec → Dict String
match_labels (selector_spec labels exprs profile c) = labels

abbrev pub match_expressions : SelectorSpec → List Requirement
match_expressions (selector_spec labels exprs profile c) = exprs

abbrev pub selector_profile : SelectorSpec → String
selector_profile (selector_spec labels exprs profile c) = profile

abbrev pub selector_constraints : SelectorSpec → ConstraintsRef
selector_constraints (selector_spec labels exprs profile c) = c

abbrev pub to_list : Selectors → List SelectorSpec
to_list nil = []
to_list (cons s ss) = s ∷ to_list ss

abbrev pub required_selectors : ConstraintsSpec → List SelectorSpec
required_selectors (constraints_spec selectors features regions resources) = to_list selectors

abbrev pub required_features : ConstraintsSpec → List String
required_features (constraints_spec selectors features regions resources) = features

abbrev pub required_resources : ConstraintsSpec → Option ResourceConstraints
required_resources (constraints_spec selectors features regions resources) = resources

pub record BackendSpec : Type 0 where
  pub backend_id : String
  pub runtime_class : String
  pub template : TemplateSpec
  pub priority : ℤ
  pub version : String
  pub constraints : ConstraintsRef

pub record ProfileSpec : Type 0 where
  pub name : String
  pub description : String
  pub backends : List BackendSpec

pub record ClassSpec : Type 0 where
  pub name : String
  pub description : String
  pub parameters : Option Raw
  pub constraints : ConstraintsRef

pub record ProvisionerDefaults : Type 0 where
  pub class : String
  pub params : Option Raw

pub record ProvisionerSpec : Type 0 where
  pub type : String
  pub provisioner : String
  pub classes : List ClassSpec
  pub defaults : Option ProvisionerDefaults

pub record DefaultsSpec : Type 0 where
  pub profile : String
  pub selectors : List SelectorSpec

pub record OrchestratorConfigSpec : Type 0 where
  pub profiles : List ProfileSpec
  pub provisioners : List ProvisionerSpec
  pub defaults : DefaultsSpec

pub record OrchestratorConfigMeta : Type 0 where
  pub name : String
  pub version : String

pub record OrchestratorConfig : Type 0 where
  pub api_version : String
  pub kind : String
  pub metadata : OrchestratorConfigMeta
  pub spec : OrchestratorConfigSpec
  pub reconciler : Option Raw
