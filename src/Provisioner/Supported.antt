-- ===== src/Provisioner/Supported.antt =====
-- loadSupportedTypes, loadProvisioningConfig, registerStrategies and filterSupportedTypes of
-- internal/controller/provisioner_controller.go. The map of supported types is the list of its keys.
use score_orchestrator.Base.{
  ℕ, String, Bool, true, false, not, ◌&&◌, ◌||◌, ◌≡◌, refl, ◌∙◌, ap, ◌⊎◌, inl, inr, none, List, [],
  ◌∷◌, ◌==◌, any, is_empty, arith, Bool-cases, if◌then◌else◌,
}
use score_orchestrator.Base.Dict.{lookup}
use score_orchestrator.Base.Text.{Codes, codes, same_text, split, trim_space}
use score_orchestrator.Api.Claim.{ResourceClaim, failed}
use score_orchestrator.Provisioner.Lifecycle.{set_phase, set_without_outputs, is_being_deleted}
use score_orchestrator.Provisioner.Strategy.{
  Strategy, ProvisioningConfig, Selector, register_strategy, load_config, get_strategy,
  get_strategy-register_strategy,
}
use score_orchestrator.Provisioner.Phases.{provision_by, handle_provisioning}

-- The loop over the pieces of the variable.
unfoldable pub add_types : List Codes → List Codes → List Codes
add_types [] types = types
add_types (piece ∷ pieces) types =
    if not (is_empty (trim_space piece))
    then add_types pieces (trim_space piece ∷ types)
    else add_types pieces types

-- `variable` is the value of SUPPORTED_RESOURCE_TYPES.
unfoldable pub load_supported_types : String → List Codes → List Codes
unfolding add_types
load_supported_types variable types =
    add_types
      (split (codes (if variable == "" then "postgres,redis,secret,test,mock" else variable)) b',')
      types

unfoldable pub filter_supported_types : List Codes → ResourceClaim → Bool
filter_supported_types types claim =
    if is_being_deleted claim then true else any (λ t. same_text (codes claim.spec.type) t) types

abbrev pub provisioning_configs : List ProvisioningConfig
provisioning_configs =
    record { type = "postgres"; strategy = "postgres" }
    ∷ record { type = "redis"; strategy = "redis" }
    ∷ record { type = "test"; strategy = "mock" }
    ∷ record { type = "mock"; strategy = "mock" }
    ∷ []

module _ {Store : Type 0} where
  unfoldable pub load_provisioning_config : Selector Store → Selector Store
  unfolding load_config
  load_provisioning_config selector = load_config provisioning_configs selector

  -- The three strategies that the function constructs are arguments.
  unfoldable pub register_strategies :
      Strategy Store → Strategy Store → Strategy Store → Selector Store → Selector Store
  register_strategies postgres redis secret selector =
      register_strategy secret (register_strategy redis (register_strategy postgres selector))

-- A type that the variable lists, up to spaces around it.
abbrev pub is_listed : Codes → List Codes → Bool
is_listed type pieces =
    any (λ p. not (is_empty (trim_space p)) && same_text type (trim_space p)) pieces

add_types_lem :
    (type : Codes) (pieces types : List Codes)
    → any (λ t. same_text type t) (add_types pieces types)
      ≡ (any (λ t. same_text type t) types || is_listed type pieces)
unfolding add_types
add_types_lem type [] types = ground arith
add_types_lem type (p ∷ ps) types = elim (Bool-cases (is_empty (trim_space p))) [
  | inl blank ↦ rw blank (add_types_lem type ps types)
  | inr word ↦ rw word (
      add_types_lem type ps (trim_space p ∷ types)
      ∙ regroup (same_text type (trim_space p)) (any (λ t. same_text type t) types)
          (is_listed type ps))
]
  where
    regroup : (a b c : Bool) → ((a || b) || c) ≡ (b || (a || c))
    regroup a b c = ground arith

-- The events of a claim pass the filter exactly if it is being deleted or its type is listed in the
-- variable, or in the default list if the variable is empty.
pub filter_supported_types_lem :
    (variable : String) (claim : ResourceClaim)
    → filter_supported_types (load_supported_types variable []) claim ≡ (
        is_being_deleted claim
        || is_listed (codes claim.spec.type) (
            split
              (codes (if variable == "" then "postgres,redis,secret,test,mock" else variable))
              b','))
unfolding filter_supported_types load_supported_types
filter_supported_types_lem variable claim =
    let listed =
      add_types_lem (codes claim.spec.type)
        (split (codes (if variable == "" then "postgres,redis,secret,test,mock" else variable))
          b',')
        [] in
    elim (Bool-cases (is_being_deleted claim)) [
      | inl deleted ↦ rw deleted refl
      | inr live ↦ rw live listed
    ]

abbrev pub no_strategies : {Store : Type 0} → Selector Store
no_strategies = record { strategies = []; configs = [] }

-- A type that none of the three strategies has is not served.
unserved :
    {Store : Type 0} (postgres redis secret : Strategy Store) (type : String)
    → (postgres.type == type) ≡ false
    → (redis.type == type) ≡ false
    → (secret.type == type) ≡ false
    → get_strategy type
        (register_strategies postgres redis secret (load_provisioning_config no_strategies))
      ≡ none
unfolding register_strategies
unserved {Store} postgres redis secret type p r s =
    get_strategy-register_strategy type secret _
    ∙ rw s (
        get_strategy-register_strategy type redis _
        ∙ rw r (get_strategy-register_strategy type postgres _ ∙ rw p (nothing type)))
  where
    nothing :
        (t : String)
        → get_strategy t (load_provisioning_config (no_strategies {Store = Store})) ≡ none
    nothing t = unfold get_strategy lookup load_provisioning_config in refl

-- With the default list of types, the events of a claim of type "test" or "mock" pass the filter, but
-- no registered strategy serves them: handleProvisioning sets the claim Failed.
pub default_type-unserved :
    {Store : Type 0} (now : ℕ) (postgres redis secret : Strategy Store) (store : Store)
    (claim : ResourceClaim)
    → postgres.type ≡ "postgres"
    → redis.type ≡ "redis"
    → secret.type ≡ "secret"
    → (claim.spec.type ≡ "test") ⊎ (claim.spec.type ≡ "mock")
    → (filter_supported_types (load_supported_types "" []) claim ≡ true)
      × ((handle_provisioning now
            (register_strategies postgres redis secret (load_provisioning_config no_strategies))
            store
            claim).claim.status.phase
          ≡ failed)
default_type-unserved {Store} now postgres redis secret store claim p r s t =
    let (listed, other, other', other'') = by_type claim.spec.type t in
    (
      filter_supported_types_lem "" claim ∙ rw listed (or_true (is_being_deleted claim)),
      fails _ (
          unserved postgres redis secret claim.spec.type (ap (λ x. x == claim.spec.type) p ∙ other)
            (ap (λ x. x == claim.spec.type) r ∙ other')
            (ap (λ x. x == claim.spec.type) s ∙ other'')),
    )
  where
    or_true : (b : Bool) → (b || true) ≡ true
    or_true b = ground arith

    by_type :
        (type : String)
        → (type ≡ "test") ⊎ (type ≡ "mock")
        → (is_listed (codes type) (split (codes "postgres,redis,secret,test,mock") b',') ≡ true)
          × (("postgres" == type) ≡ false)
          × (("redis" == type) ≡ false)
          × (("secret" == type) ≡ false)
    by_type type (inl e) = rw e (unfold split trim_space in (refl, refl, refl, refl))
    by_type type (inr e) = rw e (unfold split trim_space in (refl, refl, refl, refl))

    fails :
        (selector : Selector Store)
        → get_strategy claim.spec.type selector ≡ none
        → (handle_provisioning now selector store claim).claim.status.phase ≡ failed
    fails selector e =
        unfold handle_provisioning provision_by set_without_outputs set_phase in
        ap (λ o. (provision_by now store claim o).claim.status.phase) e
