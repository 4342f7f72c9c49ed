-- ===== src/Workloads/Pipeline/Planned.antt =====
-- The plan phase and the status phase of a round that ends without an error.
use score_orchestrator.Base.{
  ℕ, String, ◌≡◌, refl, sym, ap, subst, ◌∙◌, ◌⊎◌, inl, inr, Bool, true, false, Option, none, some,
  List, [], ◌∷◌, ◌++◌, arith, Bool-cases,
}
use score_orchestrator.Base.Result.{Result, ok, err}
use score_orchestrator.Api.Claim.{ResourceClaim}
use score_orchestrator.Api.Workload.{Workload}
use score_orchestrator.Api.Plan.{WorkloadPlan}
use score_orchestrator.Status.{ClaimAggregation, compute_final_status}
use score_orchestrator.Selection.Pipeline.{SelectedBackend}
use score_orchestrator.Provisioner.Lifecycle.{done}
use score_orchestrator.Workloads.{ApiError, Client}
use score_orchestrator.Workloads.Plans.{
  Environment, Step, after_upsert, after_select, ensure_plan, get_plan, select_plan_backend,
  upsert_workload_plan,
}
use score_orchestrator.Workloads.Plans.Errors.{PlanError, plan_error_text}
use score_orchestrator.Workloads.Phases
use score_orchestrator.Workloads.Phases.{
  PhaseError, PhaseResult, PhaseContext, holds_finalizer, ensure_finalizer,
}
use score_orchestrator.Workloads.Pipeline.{
  RetryConfig, PhaseName, should_skip, status_phase, plan_phase, plan_or_nil, is_missing_outputs,
  stepped, after_status, after_plan, ready_event, status_phase_of, plan_phase_of, execute_phase,
  after_phase, after_result, Ended, run_phases,
}

module _ {Store : Type 0} (client : Client Store) (kind_of : Result String String)
    (env : Environment) (retry : RetryConfig) where
  abbrev pub Round : Type 0
  Round = Ended client kind_of env retry

  -- The round ended with neither an error nor a requeue.
  abbrev pub Succeeded : Round → Type 0
  Succeeded out = ((out.1).requeue ≡ false) × (out.2 ≡ none)

  pub run_phases-live :
      (phase : PhaseName) (phases : List PhaseName) (ctx : PhaseContext Store)
      → should_skip ctx.workload ≡ false
      → run_phases client kind_of env retry (phase ∷ phases) ctx
        ≡ after_phase client kind_of env retry
            (λ next. run_phases client kind_of env retry phases next)
            (execute_phase client kind_of env retry phase ctx)
  unfolding run_phases
  run_phases-live phase phases ctx live = rw live

  -- A round that succeeds behind a phase: the phase had no error and asked for no requeue, and the
  -- round ended there or went on.
  abbrev pub Passed :
      (PhaseContext Store → Round)
      → PhaseContext Store
      → Option PhaseError
      → Bool
      → Bool
      → Round
      → Type 0
  Passed rest ctx error requeue skip out =
      (error ≡ none) × (requeue ≡ false) × ((skip ≡ true) ⊎ (rest ctx ≡ out))

  pub after_result_cases :
      (rest : PhaseContext Store → Round) (ctx : PhaseContext Store) (error : Option PhaseError)
      (requeue : Bool) (seconds : ℕ) (skip : Bool) (out : Round)
      → after_result client kind_of env retry rest ctx error requeue seconds skip ≡ out
      → Succeeded out
      → Passed rest ctx error requeue skip out
  unfolding after_result
  after_result_cases rest ctx (some e) requeue seconds skip out is_out h =
      absurd (let p = ap (λ (o : Round). o.2) is_out ∙ h.1 in cc)
  after_result_cases rest ctx none true seconds skip out is_out h =
      absurd (let p = ap (λ (o : Round). (o.1).requeue) is_out ∙ h.0 in cc)
  after_result_cases rest ctx none false seconds true out is_out h = (refl, refl, inl refl)
  after_result_cases rest ctx none false seconds false out is_out h = (refl, refl, inr is_out)

  -- The status of the Workload in memory was written, and it is the final status by the plan.
  abbrev pub WritesStatus : Option WorkloadPlan → Workload → Round → Type 0
  WritesStatus plan w out =
      (store : Store) × (client.update_workload_status store (out.0).workload
        ≡ ((out.0).store, none))
      × ((out.0).workload ≡ (compute_final_status env.now plan w).0)

  after_status_lem :
      (ctx : PhaseContext Store) (answer : Store × Option ApiError)
      → (after_status client kind_of env retry ctx answer).1.error ≡ none
      → (after_status client kind_of env retry ctx answer).1.requeue ≡ false
      → (answer ≡ ((after_status client kind_of env retry ctx answer).0.store, none))
        × ((after_status client kind_of env retry ctx answer).0.workload ≡ ctx.workload)
        × ((after_status client kind_of env retry ctx answer).1.skip ≡ false)
  unfolding after_status
  after_status_lem ctx (store, none) e r = (refl, refl, refl)
  after_status_lem ctx (store, some f) e r = ground arith

  run_phases-nil :
      (ctx : PhaseContext Store) → run_phases client kind_of env retry [] ctx ≡ (ctx, done, none)
  unfolding run_phases
  run_phases-nil ctx = refl

  pub status_reported :
      (ctx : PhaseContext Store) (out : Round)
      → should_skip ctx.workload ≡ false
      → run_phases client kind_of env retry (status_phase ∷ []) ctx ≡ out
      → Succeeded out
      → WritesStatus ctx.plan ctx.workload out
  unfolding execute_phase status_phase_of after_phase
  status_reported ctx out live is_out h =
      let final = compute_final_status env.now ctx.plan ctx.workload in
      let answer = client.update_workload_status ctx.store final.0 in
      let ended =
        after_status client kind_of env retry
          (record ctx {
            workload = final.0;
            events = ctx.events ++ ready_event client kind_of env retry final.1;
          })
          answer in
      let passed =
        after_result_cases (λ next. run_phases client kind_of env retry [] next) (ended.0)
          (ended.1).error (ended.1).requeue (ended.1).requeue_after (ended.1).skip out
          (sym (run_phases-live status_phase [] ctx live) ∙ is_out) h in
      let written = after_status_lem _ answer passed.0 passed.1 in
      let goes_on : (ended.0, done, none) ≡ out = elim passed.2 [
        | inl skips ↦ absurd (let p = sym written.2 ∙ skips in cc)
        | inr rest ↦ sym (run_phases-nil ended.0) ∙ rest
      ] in
      subst (λ o. WritesStatus ctx.plan ctx.workload o) goes_on
        (
          ctx.store,
          ap (λ w. client.update_workload_status ctx.store w) written.1 ∙ written.0,
          written.1,
        )

  -- The error of EnsurePlan ends the round as if it were none.
  abbrev pub IsSwallowed : Workload → Option PlanError → Type 0
  IsSwallowed w e =
      (failure : PlanError) × (e ≡ some failure)
      × (is_missing_outputs client kind_of env retry (plan_error_text env.quoted w.name failure)
          ≡ true)

  by_upsert :
      (w : Workload) (answer : Store × Option PlanError)
      → (after_upsert client env w answer).error ≡ none
      → (after_upsert client env w answer).workload ≡ w
  unfolding after_upsert
  by_upsert w (store, none) h = refl
  by_upsert w (store, some e) h = ground arith

  by_select :
      (store : Store) (w : Workload) (claims : List ResourceClaim)
      (answer : Result PlanError SelectedBackend)
      → (after_select client env store w claims answer).error ≡ none
      → (after_select client env store w claims answer).workload ≡ w
  unfolding after_select
  by_select store w claims (err e) h = cc
  by_select store w claims (ok backend) h =
      by_upsert w (upsert_workload_plan client env.owner store w claims backend) h

  -- Without an error, EnsurePlan leaves the Workload as it is.
  ensure_plan-workload :
      (store : Store) (w : Workload) (claims : List ResourceClaim) (agg : ClaimAggregation)
      → (ensure_plan client env store w claims agg).error ≡ none
      → (ensure_plan client env store w claims agg).workload ≡ w
  unfolding ensure_plan
  ensure_plan-workload store w claims agg h = elim (Bool-cases agg.ready) [
    | inl holds ↦ rw holds (by_select store w claims (select_plan_backend env w) (rw holds at h))
    | inr waits ↦ rw waits
  ]

  -- What follows a plan phase that succeeds.
  abbrev pub Planned : Store → Workload → List ResourceClaim → ClaimAggregation → Round → Type 0
  Planned store w claims agg out =
      let step = ensure_plan client env store w claims agg in
      IsSwallowed step.workload step.error
      ⊎ ((step.error ≡ none)
          × WritesStatus (plan_or_nil client kind_of env retry (get_plan client step.store w)) w
              out)

  module _ (ctx : PhaseContext Store) (out : Round) (h : Succeeded out) where
    abbrev step : Step Store
    step = ensure_plan client env ctx.store ctx.workload ctx.claims ctx.claim_agg

    abbrev behind : PhaseContext Store → Round
    behind next = run_phases client kind_of env retry (status_phase ∷ []) next

    plan_failed :
        (e : PlanError)
        → step.error ≡ some e
        → after_phase client kind_of env retry behind (
            after_plan client kind_of env retry
              (stepped client kind_of env retry ctx step)
              (some e))
          ≡ out
        → IsSwallowed step.workload step.error
    unfolding after_phase after_plan
    plan_failed e error is_end =
        elim (Bool-cases (
          is_missing_outputs client kind_of env retry
            (plan_error_text env.quoted step.workload.name e))) [
              | inl missing ↦ (e, error, missing)
              | inr other ↦
                  let ends = rw other at is_end in
                  let passed =
                    after_result_cases behind (stepped client kind_of env retry ctx step)
                      (some (Phases.plan e)) false 0 false out ends h in
                  absurd (cc passed.0)
            ]

    plan_succeeded :
        should_skip ctx.workload ≡ false
        → step.error ≡ none
        → after_phase client kind_of env retry behind
            (after_plan client kind_of env retry (stepped client kind_of env retry ctx step) none)
          ≡ out
        → WritesStatus
            (plan_or_nil client kind_of env retry (get_plan client step.store ctx.workload))
            ctx.workload
            out
    unfolding after_phase after_plan
    plan_succeeded live error is_end =
        let same = ensure_plan-workload ctx.store ctx.workload ctx.claims ctx.claim_agg error in
        let next = record (stepped client kind_of env retry ctx step) {
          plan = plan_or_nil client kind_of env retry (get_plan client step.store step.workload);
        } in
        let passed = after_result_cases behind next none false 0 false out is_end h in
        let rest : behind next ≡ out = elim passed.2 [
          | inl skips ↦ absurd (cc skips)
          | inr rest ↦ rest
        ] in
        let reported = status_reported next out (ap (λ w. should_skip w) same ∙ live) rest h in
        subst
          (λ w.
            WritesStatus (plan_or_nil client kind_of env retry (get_plan client step.store w)) w
              out)
          same reported

    pub plan_reported :
        should_skip ctx.workload ≡ false
        → run_phases client kind_of env retry (plan_phase ∷ status_phase ∷ []) ctx ≡ out
        → Planned ctx.store ctx.workload ctx.claims ctx.claim_agg out
    unfolding execute_phase plan_phase_of
    plan_reported live is_out =
        by_error step.error refl
          (sym (run_phases-live plan_phase (status_phase ∷ []) ctx live) ∙ is_out)
      where
        by_error :
            (e : Option PlanError)
            → step.error ≡ e
            → after_phase client kind_of env retry behind
                (after_plan client kind_of env retry (stepped client kind_of env retry ctx step) e)
              ≡ out
            → Planned ctx.store ctx.workload ctx.claims ctx.claim_agg out
        by_error none error is_end = inr (error, plan_succeeded live error is_end)
        by_error (some e) error is_end = inl (plan_failed e error is_end)
