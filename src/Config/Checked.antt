-- ===== src/Config/Checked.antt =====
-- What a configuration with no validation error guarantees to the selection.
use score_orchestrator.Base.{
  ℕ, suc, String, true, false, not, ◌&&◌, ◌≡◌, refl, ◌⊎◌, inl, inr, Option, List, [], ◌∷◌, ◌==◌,
  eq_iff, arith, is_empty, All, Bool-cases, string_ne,
}
use score_orchestrator.Api.Workload.{Workload}
use score_orchestrator.Api.Config.{OrchestratorConfig, ProfileSpec, SelectorSpec, selector_profile}
use score_orchestrator.Selection.Ranking.{SemVer}
use score_orchestrator.Selection.Ranking.Best.{HasDistinctIds}
use score_orchestrator.Selection.Pipeline.{LabelMatcher, select_backend}
use score_orchestrator.Selection.Pipeline.Profile.{HasProfile, RefersToProfiles}
use score_orchestrator.Selection.Pipeline.Selected.{IsExplained, select_backend-IsExplained}
use score_orchestrator.Config.Constraints.{FieldPath, member}
use score_orchestrator.Config.{
  class_references, metadata_errors, validate_provisioners_from, validate_profiles, profile_names,
  selector_references, validate_defaults, validate_cross_references, validate,
}
use score_orchestrator.Config.Fresh.{
  append-eq-nil, when-eq-nil, required-eq-nil, HasDistinctNames, fresh-HasDistinctNames,
  profiles-IsFresh,
}

member_name-HasProfile :
    (name : String) (ps : List ProfileSpec)
    → member name (profile_names ps) ≡ true
    → HasProfile ps name
member_name-HasProfile name [] h = cc
member_name-HasProfile name (p ∷ ps) h = elim (Bool-cases (p.name == name)) [
  | inl same ↦ (p, inl refl, (eq_iff p.name name).0 same)
  | inr differ ↦
      let (q, m, e) = member_name-HasProfile name ps (let k = h in ground arith) in (q, inr m, e)
]

-- A name that is not empty and not found is an error.
found_or_empty :
    (name : String) (ps : List ProfileSpec)
    → (not (name == "") && not (member name (profile_names ps))) ≡ false
    → (name ≡ "") ⊎ HasProfile ps name
found_or_empty name ps h = elim (Bool-cases (name == "")) [
  | inl empty ↦ inl ((eq_iff name "").0 empty)
  | inr filled ↦ elim (Bool-cases (member name (profile_names ps))) [
    | inl found ↦ inr (member_name-HasProfile name ps found)
    | inr missing ↦ absurd (ground arith)
  ]
]

selectors_found :
    (i : ℕ) (ss : List SelectorSpec) (ps : List ProfileSpec)
    → selector_references i ss (profile_names ps) ≡ []
    → All (λ s. (selector_profile s ≡ "") ⊎ HasProfile ps (selector_profile s)) ss
unfolding selector_references
selectors_found i [] ps h = tt
selectors_found i (s ∷ ss) ps h =
    let (own, rest) = append-eq-nil _ _ h in
    (
      found_or_empty (selector_profile s) ps (when-eq-nil _ _ own),
      selectors_found (suc i) ss ps rest,
    )

-- The profiles of a configuration: there is a backend in each, no two of which have the same id, and
-- no two profiles have the same name.
abbrev pub HasProfiles : List ProfileSpec → Type 0
HasProfiles ps =
    HasDistinctNames ps × All (λ p. (is_empty p.backends ≡ false) × HasDistinctIds p.backends) ps

profiles_valid :
    (dns_errors : String → Option String) (ps : List ProfileSpec) (path : FieldPath)
    → validate_profiles dns_errors ps path ≡ []
    → HasProfiles ps
unfolding validate_profiles
profiles_valid dns_errors ps path h =
    let (filled, rest) = required-eq-nil (is_empty ps) _ _ h in
    let (fresh, distinct) = profiles-IsFresh dns_errors 0 ps path [] [] rest in
    (fresh-HasDistinctNames [] ps fresh, distinct)

references_valid :
    (config : OrchestratorConfig)
    → (config.spec.defaults.profile == "") ≡ false
    → validate_cross_references config ≡ []
    → RefersToProfiles config.spec
unfolding validate_cross_references
references_valid config filled h =
    let (before, classes) = append-eq-nil _ (class_references 0 config.spec.provisioners) h in
    let (default, selectors) =
      append-eq-nil _
        (selector_references 0 config.spec.defaults.selectors (profile_names config.spec.profiles))
        before in
    let set = string_ne config.spec.defaults.profile "" filled in
    record {
      default_set = set;
      default_exists =
          elim (found_or_empty config.spec.defaults.profile config.spec.profiles
            (when-eq-nil _ _ default)) [ inl empty ↦ absurd (set empty) | inr found ↦ found ];
      selectors_exist =
          selectors_found 0 config.spec.defaults.selectors config.spec.profiles selectors;
    }

default_filled :
    (config : OrchestratorConfig) (path : FieldPath)
    → validate_defaults config.spec.defaults path ≡ []
    → (config.spec.defaults.profile == "") ≡ false
unfolding validate_defaults
default_filled config path h =
    when-eq-nil (config.spec.defaults.profile == "") _ (append-eq-nil _ _ h).0

-- A configuration that is validated with no error refers by its defaults to profiles that it has, with
-- a default profile that is set; its profiles have distinct names, and each has a backend, with an id
-- of its own.
pub validate_lem :
    (dns_errors : String → Option String) (config : OrchestratorConfig)
    → validate dns_errors config ≡ []
    → RefersToProfiles config.spec × HasProfiles config.spec.profiles
unfolding validate
validate_lem dns_errors config h =
    let (before, references) = append-eq-nil _ (validate_cross_references config) h in
    let (before', defaults) = append-eq-nil _ (validate_defaults config.spec.defaults _) before in
    let (before'', provisioners) =
      append-eq-nil _ (validate_provisioners_from 0 config.spec.provisioners _ []) before' in
    let (metadata, profiles) =
      append-eq-nil (metadata_errors config) (validate_profiles dns_errors config.spec.profiles _)
        before'' in
    (
      references_valid config (default_filled config _ defaults) references,
      profiles_valid dns_errors config.spec.profiles _ profiles,
    )

-- For a configuration that is validated with no error, the selection of any workload returns the
-- best backend of the selected profile that admits it, or fails because the selection of the
-- profile does, or because no backend of the selected profile admits it.
pub validate-IsExplained :
    (dns_errors : String → Option String) (config : OrchestratorConfig) (semver : SemVer)
    (matcher : LabelMatcher) (w : Workload)
    → validate dns_errors config ≡ []
    → IsExplained semver matcher w config (select_backend semver matcher config w)
validate-IsExplained dns_errors config semver matcher w h =
    select_backend-IsExplained semver matcher w config (validate_lem dns_errors config h).0
