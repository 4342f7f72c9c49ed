-- ===== src/Selection/Pipeline/Filter.antt =====
-- Which backends are candidates.
use score_orchestrator.Base.{
  String, Bool, true, false, not, ◌||◌, ◌≡◌, ◌↔◌, ◌∙◌, refl, sym, if◌then◌else◌, ◌⊎◌, inl, inr,
  Option, none, some, List, [], ◌∷◌, arith, any, all, In, In-keep, any_iff,
}
use score_orchestrator.Base.Dict.{Dict}
use score_orchestrator.Base.Text.{codes}
use score_orchestrator.Api.Workload.{Workload}
use score_orchestrator.Api.Config.{
  BackendSpec, SelectorSpec, ConstraintsRef, absent, present, ResourceConstraints, match_labels,
  match_expressions, required_selectors, required_features, required_resources,
}
use score_orchestrator.Selection.Quantity.{validate_resource_constraints}
use score_orchestrator.Selection.Features.Detected.{
  is_declared, is_detected, validate_feature_requirements_lem,
}
use score_orchestrator.Selection.Features.{validate_feature_requirements}
use score_orchestrator.Selection.Pipeline.{
  LabelMatcher, selector_matches, backend_selectors_match, resources_fit, passes, filter_backends,
}

-- A selector matches the labels, with no error.
abbrev pub Selects : LabelMatcher → Dict String → SelectorSpec → Type 0
Selects matcher labels s = matcher (match_labels s) (match_expressions s) labels ≡ some true

abbrev pub FitsResources : Workload → Option ResourceConstraints → Type 0
FitsResources w none = Unit
FitsResources w (some limits) = validate_resource_constraints w.spec.containers limits ≡ true

-- What a backend asks of a workload: one of its selectors matches the workload's labels if it has
-- any, each of its features is declared or detected, and its resource limits hold.
abbrev pub Admits : LabelMatcher → Workload → ConstraintsRef → Type 0
Admits matcher w absent = Unit
Admits matcher w (present c) =
    ((required_selectors c ≡ [])
      ⊎ ((s : SelectorSpec) × In s (required_selectors c) × Selects matcher w.labels s))
    × (all (λ f. is_declared w (codes f) || is_detected w (codes f)) (required_features c) ≡ true)
    × FitsResources w (required_resources c)

module _ (matcher : LabelMatcher) (labels : Dict String) where
  selector_matches_iff :
      (s : SelectorSpec) → (selector_matches matcher s labels ≡ true) ↔ Selects matcher labels s
  unfolding selector_matches
  selector_matches_iff s = ground arith

  any_selector_iff :
      (ss : List SelectorSpec)
      → (any (λ s. selector_matches matcher s labels) ss ≡ true)
        ↔ ((s : SelectorSpec) × In s ss × Selects matcher labels s)
  any_selector_iff ss =
      let (to, from) = any_iff (λ s. selector_matches matcher s labels) ss in
      (
        λ e. let (s, m, h) = to e in (s, m, (selector_matches_iff s).0 h),
        λ (s, m, h). from (s, m, (selector_matches_iff s).1 h),
      )

  backend_selectors_match_iff :
      (ss : List SelectorSpec)
      → (backend_selectors_match matcher ss labels ≡ true)
        ↔ ((ss ≡ []) ⊎ ((s : SelectorSpec) × In s ss × Selects matcher labels s))
  unfolding backend_selectors_match
  backend_selectors_match_iff [] = ((λ e. inl refl), (λ h. refl))
  backend_selectors_match_iff (s ∷ ss) =
      (λ e. inr ((any_selector_iff (s ∷ ss)).0 e), λ h. some_selector h)
    where
      some_selector :
          (s ∷ ss ≡ []) ⊎ ((t : SelectorSpec) × In t (s ∷ ss) × Selects matcher labels t)
          → any (λ s'. selector_matches matcher s' labels) (s ∷ ss) ≡ true
      some_selector (inl e) = cc
      some_selector (inr h) = (any_selector_iff (s ∷ ss)).1 h

three_tests :
    (a b c : Bool)
    → ((if not a then false else if not b then false else c) ≡ true)
      ↔ ((a ≡ true) × (b ≡ true) × (c ≡ true))
three_tests a b c = ground arith

resources_fit_iff :
    (w : Workload) (o : Option ResourceConstraints) → (resources_fit w o ≡ true) ↔ FitsResources w o
unfolding resources_fit
resources_fit_iff w none = ((λ e. tt), (λ h. refl))
resources_fit_iff w (some limits) = ((λ e. e), (λ h. h))

passes_iff :
    (matcher : LabelMatcher) (w : Workload) (c : ConstraintsRef)
    → (passes matcher w c ≡ true) ↔ Admits matcher w c
unfolding passes
passes_iff matcher w absent = ((λ e. tt), (λ h. refl))
passes_iff matcher w (present c) =
    let (split, join) =
      three_tests (backend_selectors_match matcher (required_selectors c) w.labels)
        (validate_feature_requirements w (required_features c))
        (resources_fit w (required_resources c)) in
    let (s, s') = backend_selectors_match_iff matcher w.labels (required_selectors c) in
    let features = validate_feature_requirements_lem w (required_features c) in
    let (r, r') = resources_fit_iff w (required_resources c) in
    (
      λ e. (s (split e).0, sym features ∙ (split e).1, r (split e).2),
      λ (h, k, l). join (s' h, features ∙ k, r' l),
    )

-- The candidates are exactly the backends of the profile that admit the workload.
pub In-filter_backends :
    (matcher : LabelMatcher) (w : Workload) (backends : List BackendSpec) (b : BackendSpec)
    → In b (filter_backends matcher w backends) ↔ (In b backends × Admits matcher w b.constraints)
unfolding filter_backends
In-filter_backends matcher w backends b =
    let (to, from) = In-keep (λ d. passes matcher w d.constraints) b backends in
    let (admitted, passing) = passes_iff matcher w b.constraints in
    (λ m. let (n, e) = to m in (n, admitted e), λ (n, h). from (n, passing h))
