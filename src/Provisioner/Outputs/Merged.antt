-- ===== src/Provisioner/Outputs/Merged.antt =====
-- Which outputs are valid, and what a merge of them holds.
use score_orchestrator.Base.{
  String, Bool, true, not, ◌&&◌, ◌≡◌, refl, ◌∙◌, ap, ◌↔◌, ◌⊎◌, Option, none, some, List, [], ◌∷◌,
  arith, if◌then◌else◌,
}
use score_orchestrator.Api.Claim.{ResourceClaimOutputs}
use score_orchestrator.Provisioner.Outputs.{
  has_name, has_text, has_cert, validate_outputs, kept_or, no_outputs, merge_output, merge_from,
  merge_outputs,
}

-- One field at least is set, and not empty.
abbrev pub IsProvided : Option ResourceClaimOutputs → Type 0
IsProvided none = ⊥
IsProvided (some o) =
    (has_name o.secret_ref ≡ true)
    ⊎ (has_name o.config_map_ref ≡ true)
    ⊎ (has_text o.uri ≡ true)
    ⊎ (has_text o.image ≡ true)
    ⊎ (has_cert o.cert ≡ true)

pub validate_outputs_iff :
    (o : Option ResourceClaimOutputs) → (validate_outputs o ≡ none) ↔ IsProvided o
unfolding validate_outputs
validate_outputs_iff none = ((λ e. absurd cc), (λ h. elim h [ ]))
validate_outputs_iff (some o) =
    five (has_name o.secret_ref) (has_name o.config_map_ref) (has_text o.uri) (has_text o.image)
      (has_cert o.cert) _
  where
    five :
        (a b c d e : Bool) (text : String)
        → ((if not a && not b && not c && not d && not e then some text else none) ≡ none)
          ↔ ((a ≡ true) ⊎ (b ≡ true) ⊎ (c ≡ true) ⊎ (d ≡ true) ⊎ (e ≡ true))
    five a b c d e text = ground arith

-- The field of the first output that has it.
abbrev pub first_set :
    {A : Type 0} → (ResourceClaimOutputs → Option A) → List (Option ResourceClaimOutputs) → Option A
first_set field [] = none
first_set field (none ∷ os) = first_set field os
first_set field (some o ∷ os) = kept_or (field o) (first_set field os)

-- A field that a round of the loop fills as MergeOutputs does is the first that is set.
merge_from_lem :
    {A : Type 0} (field : ResourceClaimOutputs → Option A)
    → ((r : ResourceClaimOutputs) (o : ResourceClaimOutputs)
        → field (merge_output r (some o)) ≡ kept_or (field r) (field o))
    → (os : List (Option ResourceClaimOutputs)) (r : ResourceClaimOutputs)
    → field (merge_from r os) ≡ kept_or (field r) (first_set field os)
unfolding merge_from merge_output
merge_from_lem {A} field h [] r = right_none (field r)
  where
    right_none : (x : Option A) → x ≡ kept_or x none
    right_none none = refl
    right_none (some a) = refl
merge_from_lem field h (none ∷ os) r = merge_from_lem field h os r
merge_from_lem {A} field h (some o ∷ os) r =
    merge_from_lem field h os (merge_output r (some o))
    ∙ ap (λ x. kept_or x (first_set field os)) (h r o)
    ∙ assoc (field r) (field o) (first_set field os)
  where
    assoc : (x y z : Option A) → kept_or (kept_or x y) z ≡ kept_or x (kept_or y z)
    assoc none y z = refl
    assoc (some a) y z = refl

-- Each field of the merged outputs is that of the first output that has it, nil ones passed over.
pub merge_outputs_lem :
    (os : List (Option ResourceClaimOutputs))
    → ((merge_outputs os).secret_ref ≡ first_set (λ o. o.secret_ref) os)
      × ((merge_outputs os).config_map_ref ≡ first_set (λ o. o.config_map_ref) os)
      × ((merge_outputs os).uri ≡ first_set (λ o. o.uri) os)
      × ((merge_outputs os).image ≡ first_set (λ o. o.image) os)
      × ((merge_outputs os).cert ≡ first_set (λ o. o.cert) os)
unfolding merge_outputs merge_output
merge_outputs_lem os = (
  merge_from_lem (λ o. o.secret_ref) (λ r o. refl) os no_outputs,
  merge_from_lem (λ o. o.config_map_ref) (λ r o. refl) os no_outputs,
  merge_from_lem (λ o. o.uri) (λ r o. refl) os no_outputs,
  merge_from_lem (λ o. o.image) (λ r o. refl) os no_outputs,
  merge_from_lem (λ o. o.cert) (λ r o. refl) os no_outputs,
)
