-- ===== src/Conditions/Ready.antt =====
-- The Ready condition: when it is true, and which part it blames when it is not.
use score_orchestrator.Base.{
  ℕ, String, true, false, ◌≡◌, refl, sym, ◌∙◌, ◌⊎◌, inl, inr, subst, ◌≢◌, ◌↔◌, Option, none, some,
  List, [], ◌∷◌, arith, eq_refl,
}
use score_orchestrator.Api.Meta.{ConditionStatus, is_true, is_false, is_unknown, Condition}
use score_orchestrator.Conditions.{
  inputs_valid, claims_ready, runtime_ready, same_status, set_condition, get_condition,
  is_condition_true, not_ready, compute_ready_condition,
}
use score_orchestrator.Conditions.Laws.{is_condition_true-eq, set_condition_lem, same_status_iff}

-- A condition of the type is there and True.
abbrev pub Holds : List Condition → String → Type 0
Holds cs t = (c : Condition) × (get_condition cs t ≡ some c) × (c.status ≡ is_true)

pub is_condition_true_iff :
    (cs : List Condition) (t : String) → (is_condition_true cs t ≡ true) ↔ Holds cs t
is_condition_true_iff cs t = (
  λ h. holds (get_condition cs t) (sym (is_condition_true-eq cs t) ∙ h),
  λ (c, found, holding). rw (is_condition_true-eq, found) (ground arith),
)
  where
    holds :
        (o : Option Condition)
        → (elim o [ none ↦ false | some c ↦ same_status c.status is_true ]) ≡ true
        → (c : Condition) × (o ≡ some c) × (c.status ≡ is_true)
    holds none h = cc
    holds (some c) h = (c, refl, (same_status_iff c.status is_true).0 h)

compute_ready-eq_tests :
    (cs : List Condition)
    → ((compute_ready_condition cs).0 ≡ is_true) ↔ (
        (is_condition_true cs inputs_valid ≡ true)
        × (is_condition_true cs claims_ready ≡ true)
        × (is_condition_true cs runtime_ready ≡ true))
unfolding compute_ready_condition not_ready
compute_ready-eq_tests cs = ground arith

-- The workload is Ready exactly when its inputs are valid, its claims are ready and its runtime is
-- ready, each by a condition that is there and True.
pub compute_ready_condition_iff :
    (cs : List Condition)
    → ((compute_ready_condition cs).0 ≡ is_true)
      ↔ (Holds cs inputs_valid × Holds cs claims_ready × Holds cs runtime_ready)
compute_ready_condition_iff cs =
    let (to, from) = compute_ready-eq_tests cs in
    let (i, i') = is_condition_true_iff cs inputs_valid in
    let (c, c') = is_condition_true_iff cs claims_ready in
    let (r, r') = is_condition_true_iff cs runtime_ready in
    (λ e. (i (to e).0, c (to e).1, r (to e).2), λ (h, k, l). from (i' h, c' k, r' l))

-- The reason by the parts in their order: the first that is not True gives its own reason if it is
-- False, and the default if it is missing or Unknown.
abbrev pub blamed : List Condition → List (String × String) → String
blamed cs [] = "Succeeded"
blamed cs ((t, pending) ∷ parts) =
    let rest = blamed cs parts in
    elim (get_condition cs t) [
      | none ↦ pending
      | some c ↦ elim c.status [ is_true ↦ rest | is_false ↦ c.reason | is_unknown ↦ pending ]
    ]

abbrev pub ready_parts : List (String × String)
ready_parts =
    (inputs_valid, "SpecInvalid")
    ∷ (claims_ready, "ClaimPending")
    ∷ (runtime_ready, "RuntimeProvisioning")
    ∷ []

-- The first part, in the order inputs, claims, runtime, that is not True gives the reason of Ready: its
-- own reason if it is False, and a fixed one if it is missing or Unknown (SpecInvalid for the inputs,
-- ClaimPending for the claims, RuntimeProvisioning for the runtime). If all three are True the reason
-- is Succeeded. The status is True or False, and never Unknown.
pub compute_ready_condition-blamed :
    (cs : List Condition)
    → ((compute_ready_condition cs).1 ≡ blamed cs ready_parts)
      × ((compute_ready_condition cs).0 ≢ is_unknown)
unfolding compute_ready_condition not_ready
compute_ready_condition-blamed cs =
    let i = is_condition_true-eq cs inputs_valid in
    let c = is_condition_true-eq cs claims_ready in
    let r = is_condition_true-eq cs runtime_ready in (ground (arith, i, c, r), ground arith)

false_of_ne : (s : ConditionStatus) → s ≢ is_true → s ≢ is_unknown → s ≡ is_false
false_of_ne s h k = ground arith

module _ (now : ℕ) (type : String) (status : ConditionStatus) (reason message : String) where
  not-Holds-set_condition :
      (cs : List Condition)
      → status ≢ is_true
      → ¬ Holds (set_condition now type status reason message cs) type
  not-Holds-set_condition cs h (d, found, holding) =
      let (c, s, r, m, w, reads) = set_condition_lem now type status reason message cs in
      let same = reads type in ground (arith, same, eq_refl type)

  -- Once one of the three parts is set to something other than True the workload is not Ready,
  -- whatever conditions were there.
  pub set_condition-not_ready :
      (cs : List Condition)
      → (type ≡ inputs_valid) ⊎ ((type ≡ claims_ready) ⊎ (type ≡ runtime_ready))
      → status ≢ is_true
      → (compute_ready_condition (set_condition now type status reason message cs)).0 ≡ is_false
  set_condition-not_ready cs part h =
      let after = set_condition now type status reason message cs in
      let not_held = not-Holds-set_condition cs h in
      false_of_ne _
        (λ e.
          let (i, c, r) = (compute_ready_condition_iff after).0 e in
          blame (Holds after) part not_held i c r)
        ((compute_ready_condition-blamed after).1)
    where
      blame :
          (P : String → Type 0)
          → (type ≡ inputs_valid) ⊎ ((type ≡ claims_ready) ⊎ (type ≡ runtime_ready))
          → ¬ P type
          → P inputs_valid
          → P claims_ready
          → P runtime_ready
          → ⊥
      blame P (inl e) no_p i c r = no_p (subst P (sym e) i)
      blame P (inr (inl e)) no_p i c r = no_p (subst P (sym e) c)
      blame P (inr (inr e)) no_p i c r = no_p (subst P (sym e) r)
