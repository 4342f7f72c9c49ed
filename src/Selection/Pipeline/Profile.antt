-- ===== src/Selection/Pipeline/Profile.antt =====
-- The profile that is selected exists in the configuration.
use score_orchestrator.Base.{
  String, Bool, false, not, ◌≡◌, ◌≢◌, ◌∙◌, refl, sym, ◌⊎◌, inl, inr, Option, none, some, List, [],
  ◌∷◌, ◌==◌, eq_iff, is_empty, any, find, In, All, any_iff, find-some, Bool-cases, Option-cases,
  if◌then◌else◌, ◌&&◌, ne_string, string_ne,
}
use mathlib.Core.Bool.{false≢true}
use score_orchestrator.Base.Dict.{Dict, lookup}
use score_orchestrator.Base.Result.{Result, ok, err}
use score_orchestrator.Api.Workload.{Workload}
use score_orchestrator.Api.Config.{
  OrchestratorConfig, OrchestratorConfigSpec, ProfileSpec, SelectorSpec, selector_profile,
}
use score_orchestrator.Selection.Features.{service_ports}
use score_orchestrator.Selection.Pipeline.{
  LabelMatcher, SelectError, hinted_missing, no_profile, names_service, names_batch, is_named,
  name_or_empty, selector_matches, derive_profile_from_workload, select_profile_from_selectors,
  select_without_hint, select_profile,
}

-- A profile of that name is configured.
abbrev pub HasProfile : List ProfileSpec → String → Type 0
HasProfile profiles name = (p : ProfileSpec) × In p profiles × (p.name ≡ name)

-- The names that the defaults refer to are empty or those of configured profiles, and the default
-- profile is set: what the validation of the configuration asks for.
pub record RefersToProfiles (spec : OrchestratorConfigSpec) : Type 0 where
  pub default_set : spec.defaults.profile ≢ ""
  pub default_exists : HasProfile spec.profiles spec.defaults.profile
  pub selectors_exist :
      All
        (λ s. (selector_profile s ≡ "") ⊎ HasProfile spec.profiles (selector_profile s))
        spec.defaults.selectors

find-HasProfile :
    (test : ProfileSpec → Bool) (profiles : List ProfileSpec)
    → (name_or_empty (find test profiles) ≡ "")
      ⊎ HasProfile profiles (name_or_empty (find test profiles))
find-HasProfile test profiles = elim (Option-cases (find test profiles)) [
  | inl missing ↦ inl (rw missing)
  | inr (p, found) ↦ inr (rw found (p, (find-some test profiles found).0, refl))
]

-- The value of a step that is not empty has the property.
filled : (P : String → Type 0) (a : String) → (a ≡ "") ⊎ P a → (a == "") ≡ false → P a
filled P a (inl e) h = absurd (string_ne a "" h e)
filled P a (inr h) k = h

-- The first of three names that is not empty.
first_set :
    (P : String → Type 0) (a b c : String)
    → (a ≡ "") ⊎ P a
    → (b ≡ "") ⊎ P b
    → c ≢ ""
    → P c
    → (name : String) × ◌≡◌ {A = Result SelectError String}
        (if not (a == "")
          then ok a
          else if not (b == "")
          then ok b
          else if not (c == "")
          then ok c
          else err no_profile)
        (ok name)
      × P name
first_set P a b c h k filled_c l = elim (Bool-cases (a == "")) [
  | inr set_a ↦ rw set_a (a, refl, filled P a h set_a)
  | inl empty_a ↦ elim (Bool-cases (b == "")) [
    | inr set_b ↦ rw (empty_a, set_b) (b, refl, filled P b k set_b)
    | inl empty_b ↦ rw (empty_a, empty_b, ne_string c "" filled_c) (c, refl, l)
  ]
]

module _ (config : OrchestratorConfig) (matcher : LabelMatcher) (w : Workload) where
  derived :
      (derive_profile_from_workload config w ≡ "")
      ⊎ HasProfile config.spec.profiles (derive_profile_from_workload config w)
  unfolding derive_profile_from_workload
  derived = elim (Bool-cases (is_empty (service_ports w))) [
    | inl batch ↦ rw batch (find-HasProfile names_batch config.spec.profiles)
    | inr service ↦ rw service (find-HasProfile names_service config.spec.profiles)
  ]

  from_selectors :
      (P : String → Type 0) (ss : List SelectorSpec) (labels : Dict String)
      → All (λ s. (selector_profile s ≡ "") ⊎ P (selector_profile s)) ss
      → (select_profile_from_selectors config matcher ss labels ≡ "")
        ⊎ P (select_profile_from_selectors config matcher ss labels)
  unfolding select_profile_from_selectors
  from_selectors P [] labels h = inl refl
  from_selectors P (s ∷ ss) labels (h, hs) =
      elim (Bool-cases (selector_matches matcher s labels && not (selector_profile s == ""))) [
        | inl chosen ↦ rw chosen h
        | inr passed ↦ rw passed (from_selectors P ss labels hs)
      ]

  -- Where the defaults refer to configured profiles, a profile that is configured is selected
  -- unless a hint is refused.
  select_without_hint-HasProfile :
      RefersToProfiles config.spec
      → (name : String) × (select_without_hint config matcher w ≡ ok name)
        × HasProfile config.spec.profiles name
  unfolding select_without_hint
  select_without_hint-HasProfile r =
      first_set (HasProfile config.spec.profiles) (derive_profile_from_workload config w)
        (select_profile_from_selectors config matcher config.spec.defaults.selectors w.labels)
        config.spec.defaults.profile derived
        (from_selectors (HasProfile config.spec.profiles) config.spec.defaults.selectors w.labels
          r.selectors_exist)
        r.default_set r.default_exists

  -- The outcome of the profile selection.
  abbrev pub IsHandled : Result SelectError String → Type 0
  IsHandled (ok name) = HasProfile config.spec.profiles name
  IsHandled (err e) =
      (hint : String) × (e ≡ hinted_missing hint)
      × (lookup "score.dev/profile" w.annotations ≡ some hint)
      × ¬ HasProfile config.spec.profiles hint

  IsHandled-without_hint :
      RefersToProfiles config.spec → IsHandled (select_without_hint config matcher w)
  IsHandled-without_hint r = let (name, e, h) = select_without_hint-HasProfile r in rw e h

  -- Where the defaults refer to configured profiles, either the selected profile is configured, or
  -- the workload names by its annotation a profile that is not.
  pub select_profile-IsHandled :
      RefersToProfiles config.spec → IsHandled (select_profile config matcher w)
  unfolding select_profile
  select_profile-IsHandled r = by_hint (lookup "score.dev/profile" w.annotations) refl
    where
      not_known :
          (hint : String)
          → any (is_named hint) config.spec.profiles ≡ false
          → ¬ HasProfile config.spec.profiles hint
      not_known hint unknown (p, m, e) =
          let known =
            (any_iff (is_named hint) config.spec.profiles).1 (p, m, (eq_iff p.name hint).1 e) in
          false≢true (sym unknown ∙ known)

      by_hint :
          (o : Option String)
          → lookup "score.dev/profile" w.annotations ≡ o
          → IsHandled (elim o [
            | none ↦ select_without_hint config matcher w
            | some hint ↦
                if hint == ""
                then select_without_hint config matcher w
                else if any (is_named hint) config.spec.profiles
                then ok hint
                else err (hinted_missing hint)
          ])
      by_hint none e = IsHandled-without_hint r
      by_hint (some hint) e = elim (Bool-cases (hint == "")) [
        | inl empty ↦ rw empty (IsHandled-without_hint r)
        | inr given ↦ elim (Bool-cases (any (is_named hint) config.spec.profiles)) [
          | inl known ↦
              let (p, m, named) = (any_iff (is_named hint) config.spec.profiles).0 known in
              rw (given, known) (p, m, (eq_iff p.name hint).0 named)
          | inr unknown ↦ rw (given, unknown) (hint, refl, e, not_known hint unknown)
        ]
      ]
