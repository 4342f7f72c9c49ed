-- ===== src/Status/Final.antt =====
-- The Ready condition of a workload, from its conditions and its plan.
use score_orchestrator.Base.{
  ℕ, String, Bool, true, false, ◌≡◌, refl, sym, ◌∙◌, ◌↔◌, Option, none, some, List, arith, ◌==◌,
  eq_refl,
}
use score_orchestrator.Api.Meta.{ConditionStatus, Condition, is_true, is_false, is_unknown}
use score_orchestrator.Api.Workload.{Workload}
use score_orchestrator.Api.Plan
use score_orchestrator.Api.Plan.{WorkloadPlan, PlanPhase}
use score_orchestrator.Conditions.{
  inputs_valid, claims_ready, runtime_ready, ready, get_condition, set_condition,
  compute_ready_condition,
}
use score_orchestrator.Conditions.Laws.{set_condition_lem}
use score_orchestrator.Conditions.Ready.{Holds, compute_ready_condition_iff}
use score_orchestrator.Status.{
  check_runtime_status_from_plan, status_of, set_status_condition, update_runtime_status_from_plan,
  compute_final_status,
}

-- There is a plan, and its runtime is ready.
abbrev pub PlanIsReady : Option WorkloadPlan → Type 0
PlanIsReady none = ⊥
PlanIsReady (some plan) = plan.status.phase ≡ Plan.ready

check_runtime_iff :
    (plan : WorkloadPlan)
    → ((check_runtime_status_from_plan plan).0 ≡ true) ↔ (plan.status.phase ≡ Plan.ready)
unfolding check_runtime_status_from_plan
check_runtime_iff plan = ground arith

-- The condition that was set holds if its status is True; those of other types hold as before.
module _ (now : ℕ) (type : String) (status : ConditionStatus) (reason message : String)
    (cs : List Condition) where
  pub Holds-set_condition :
      Holds (set_condition now type status reason message cs) type ↔ (status ≡ is_true)
  Holds-set_condition =
      let (c, s, reason_eq, message_eq, time, reads) =
        set_condition_lem now type status reason message cs in
      let at : get_condition (set_condition now type status reason message cs) type ≡ some c =
        reads type ∙ rw (eq_refl type) refl in
      (λ (d, found, holds). same c d s (sym at ∙ found) holds, λ e. (c, at, s ∙ e))
    where
      same :
          (c d : Condition)
          → c.status ≡ status
          → ◌≡◌ {A = Option Condition} (some c) (some d)
          → d.status ≡ is_true
          → status ≡ is_true
      same c d e f g = ground arith

  Holds-set_other :
      (t : String)
      → (type == t) ≡ false
      → Holds (set_condition now type status reason message cs) t ↔ Holds cs t
  Holds-set_other t other =
      let (c, s, reason_eq, message_eq, time, reads) =
        set_condition_lem now type status reason message cs in
      let at : get_condition (set_condition now type status reason message cs) t
          ≡ get_condition cs t =
        reads t ∙ rw other refl in
      (λ (d, found, holds). (d, sym at ∙ found, holds), λ (d, found, holds). (d, at ∙ found, holds))

pub status_of_iff : (b : Bool) → (status_of b ≡ is_true) ↔ (b ≡ true)
status_of_iff b = ground arith

-- After the runtime's part is updated, RuntimeReady is True exactly when the plan is ready, and the
-- other conditions hold as before.
update_runtime_iff :
    (now : ℕ) (plan : Option WorkloadPlan) (w : Workload)
    → let v = update_runtime_status_from_plan now plan w in
      (Holds v.status.conditions runtime_ready ↔ PlanIsReady plan)
      × ((t : String)
          → (runtime_ready == t) ≡ false
          → Holds v.status.conditions t ↔ Holds w.status.conditions t)
unfolding update_runtime_status_from_plan set_status_condition
update_runtime_iff now none w =
    let set =
      Holds-set_condition now runtime_ready is_false "RuntimeSelecting"
        "Runtime controller is being selected" w.status.conditions in
    (
      (λ h. absurd (let e = set.0 h in cc), λ h. elim h [ ]),
      λ t other. Holds-set_other _ _ _ _ _ _ t other,
    )
update_runtime_iff now (some plan) w =
    let (holds, reason, message) = check_runtime_status_from_plan plan in
    let (to, from) = check_runtime_iff plan in
    let (up, down) = status_of_iff (check_runtime_status_from_plan plan).0 in
    let (set, unset) =
      Holds-set_condition now runtime_ready (status_of (check_runtime_status_from_plan plan).0)
        (check_runtime_status_from_plan plan).1 (check_runtime_status_from_plan plan).2
        w.status.conditions in
    (
      (λ h. to (up (set h)), λ e. unset (down (from e))),
      λ t other. Holds-set_other _ _ _ _ _ _ t other,
    )

module _ (now : ℕ) (plan : Option WorkloadPlan) (w : Workload) where
  computed_iff :
      let cs = (update_runtime_status_from_plan now plan w).status.conditions in
      ((compute_ready_condition cs).0 ≡ is_true) ↔ (
        Holds w.status.conditions inputs_valid
        × Holds w.status.conditions claims_ready
        × PlanIsReady plan)
  computed_iff =
      let (runtime, others) = update_runtime_iff now plan w in
      let (to, from) =
        compute_ready_condition_iff
          (update_runtime_status_from_plan now plan w).status.conditions in
      let inputs = others inputs_valid refl in
      let claims = others claims_ready refl in
      (
        λ e. let (i, c, r) = to e in (inputs.0 i, claims.0 c, runtime.0 r),
        λ (i, c, r). from (inputs.1 i, claims.1 c, runtime.1 r),
      )

  -- Once the final status is computed, the workload is Ready exactly when its inputs are valid, its
  -- claims are ready, and it has a plan in phase Ready; the event is recorded exactly then.
  pub compute_final_status_iff :
      let (v, event) = compute_final_status now plan w in
      (Holds v.status.conditions ready ↔ (
        Holds w.status.conditions inputs_valid
        × Holds w.status.conditions claims_ready
        × PlanIsReady plan))
      × ((event ≡ some "Ready") ↔ Holds v.status.conditions ready)
  unfolding compute_final_status
  compute_final_status_iff =
      let cs = (update_runtime_status_from_plan now plan w).status.conditions in
      let (set, unset) =
        Holds-set_condition now ready (compute_ready_condition cs).0 (compute_ready_condition cs).1
          (compute_ready_condition cs).2 cs in
      let (to, from) = computed_iff in
      let (fired, recorded) = event_iff (compute_ready_condition cs).0 in
      ((λ h. to (set h), λ h. unset (from h)), (λ e. unset (fired e), λ h. recorded (set h)))
    where
      event_iff :
          (s : ConditionStatus)
          → ◌≡◌ {A = Option String} (elim s [ is_true ↦ some "Ready" | _ ↦ none ]) (some "Ready")
            ↔ (s ≡ is_true)
      event_iff is_true = ((λ e. refl), (λ e. refl))
      event_iff is_false = ((λ e. cc), (λ e. cc))
      event_iff is_unknown = ((λ e. cc), (λ e. cc))
