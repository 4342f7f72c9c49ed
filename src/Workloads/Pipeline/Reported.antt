-- ===== src/Workloads/Pipeline/Reported.antt =====
-- What a round of the pipeline reports when it ends without an error.
use score_orchestrator.Base.{
  ℕ, String, ◌≡◌, refl, sym, ap, subst, ◌∙◌, ◌⊎◌, ◌↔◌, inl, inr, true, false, Option, none, some,
  List, [], ◌∷◌, All,
}
use score_orchestrator.Base.Result.{Result, ok, err}
use score_orchestrator.Api.Meta.{is_true}
use score_orchestrator.Api.Claim.{ResourceClaim}
use score_orchestrator.Api.Workload.{Workload}
use score_orchestrator.Api.Plan.{WorkloadPlan}
use score_orchestrator.Conditions.{inputs_valid, ready}
use score_orchestrator.Conditions.Ready.{Holds}
use score_orchestrator.Status.{
  aggregate_claim_statuses, summaries, update_workload_status_from_aggregation,
  set_status_condition, compute_final_status,
}
use score_orchestrator.Status.Aggregate.{IsUsable, update_workload_status_lem}
use score_orchestrator.Status.Final.{PlanIsReady, Holds-set_condition, compute_final_status_iff}
use score_orchestrator.Workloads.{ApiError, Client}
use score_orchestrator.Workloads.Claims.{ClaimError, ensure_claims, get_claims}
use score_orchestrator.Workloads.Plans.{Environment, ensure_plan, get_plan}
use score_orchestrator.Workloads.Phases
use score_orchestrator.Workloads.Phases.{
  PhaseError, PhaseResult, PhaseContext, holds_finalizer, ensure_finalizer,
}
use score_orchestrator.Workloads.Pipeline.{
  RetryConfig, should_skip, status_phase, plan_phase, claims_phase, validation, plan_or_nil,
  after_ensure, after_claims, claim_phase, validation_phase, execute_phase, after_phase, run_phases,
  execute_normal_pipeline, new_context, with_finalizer, execute,
}
use score_orchestrator.Workloads.Pipeline.Planned.{
  Round, Succeeded, after_result_cases, run_phases-live, WritesStatus, IsSwallowed, Planned,
  plan_reported,
}

-- The claims that were listed stay in the summaries, whatever the plan.
compute_final_status-claims :
    (now : ℕ) (plan : Option WorkloadPlan) (w : Workload)
    → (compute_final_status now plan w).0.status.claims ≡ w.status.claims
unfolding compute_final_status
compute_final_status-claims now none w = refl
compute_final_status-claims now (some p) w = refl

module _ {Store : Type 0} (client : Client Store) (kind_of : Result String String)
    (env : Environment) (retry : RetryConfig) where
  -- The Workload once its inputs were found valid, and then its claims aggregated.
  abbrev pub validated : Workload → Workload
  validated w =
      set_status_condition env.now inputs_valid true "Succeeded" "Workload specification is valid" w

  abbrev pub aggregated : List ResourceClaim → Workload → Workload
  aggregated claims w =
      update_workload_status_from_aggregation env.now (aggregate_claim_statuses claims) w

  validated-live : (w : Workload) → should_skip w ≡ false → should_skip (validated w) ≡ false
  unfolding set_status_condition
  validated-live w live = live

  aggregated-live :
      (claims : List ResourceClaim) (w : Workload)
      → should_skip w ≡ false
      → should_skip (aggregated claims w) ≡ false
  unfolding update_workload_status_from_aggregation
  aggregated-live claims w live = live

  -- The claims were ensured and listed, and the plan phase and the status phase followed.
  abbrev pub Claimed : Store → Workload → Round client kind_of env retry → Type 0
  Claimed store w out =
      (listed : Store) × (claims : List ResourceClaim) × (ensure_claims client kind_of store w
        ≡ (listed, none))
      × (get_claims client listed w ≡ ok claims)
      × Planned client kind_of env retry listed (aggregated claims w) claims
          (aggregate_claim_statuses claims) out

  module _ (ctx : PhaseContext Store) (out : Round client kind_of env retry)
      (h : Succeeded client kind_of env retry out) (live : should_skip ctx.workload ≡ false) where
    abbrev after : PhaseContext Store → Round client kind_of env retry
    after next = run_phases client kind_of env retry (plan_phase ∷ status_phase ∷ []) next

    claims_listed :
        (answer : Result ApiError (List ResourceClaim)) (store : Store)
        → after_phase client kind_of env retry after
            (after_claims client kind_of env retry (record ctx { store = store }) answer)
          ≡ out
        → (claims : List ResourceClaim) × (answer ≡ ok claims)
          × Planned client kind_of env retry store
              (aggregated claims ctx.workload)
              claims
              (aggregate_claim_statuses claims)
              out
    unfolding after_phase after_claims
    claims_listed (err e) store is_end =
        let passed =
          after_result_cases client kind_of env retry after (record ctx { store = store })
            (some (Phases.api e)) false 0 false out is_end h in
        absurd (cc passed.0)
    claims_listed (ok claims) store is_end =
        let next = record ctx {
          store = store;
          claims = claims;
          claim_agg = aggregate_claim_statuses claims;
          workload = aggregated claims ctx.workload;
        } in
        let passed =
          after_result_cases client kind_of env retry after next none false 0 false out is_end h in
        let rest : after next ≡ out = elim passed.2 [
          | inl skips ↦ absurd (cc skips)
          | inr rest ↦ rest
        ] in
        (
          claims,
          refl,
          plan_reported client kind_of env retry next out h
              (aggregated-live claims ctx.workload live) rest,
        )

    claims_ensured :
        (answer : Store × Option (String × ClaimError))
        → after_phase client kind_of env retry after
            (after_ensure client kind_of env retry ctx answer)
          ≡ out
        → (answer.1 ≡ none)
          × ((claims : List ResourceClaim) × (get_claims client answer.0 ctx.workload ≡ ok claims)
              × Planned client kind_of env retry answer.0
                  (aggregated claims ctx.workload)
                  claims
                  (aggregate_claim_statuses claims)
                  out)
    unfolding after_phase after_ensure
    claims_ensured (store, some (key, e)) is_end =
        let passed =
          after_result_cases client kind_of env retry after _ (some (Phases.claim key e)) false 0
            false out is_end h in
        absurd (cc passed.0)
    claims_ensured (store, none) is_end =
        (refl, claims_listed (get_claims client store ctx.workload) store is_end)

    claims_reported :
        run_phases client kind_of env retry (claims_phase ∷ plan_phase ∷ status_phase ∷ []) ctx
          ≡ out
        → Claimed ctx.store ctx.workload out
    unfolding execute_phase claim_phase
    claims_reported is_out =
        let answer = ensure_claims client kind_of ctx.store ctx.workload in
        let found = claims_ensured answer (
          sym (
            run_phases-live client kind_of env retry claims_phase (plan_phase ∷ status_phase ∷ [])
              ctx live)
          ∙ is_out) in
        (answer.0, found.1.0, ap (λ e. (answer.0, e)) found.0, found.1.1, found.1.2)

  pipeline_reported :
      (ctx : PhaseContext Store) (out : Round client kind_of env retry)
      → Succeeded client kind_of env retry out
      → should_skip ctx.workload ≡ false
      → execute_normal_pipeline client kind_of env retry ctx ≡ out
      → Claimed ctx.store (validated ctx.workload) out
  unfolding execute_normal_pipeline execute_phase validation_phase after_phase
  pipeline_reported ctx out h live is_out =
      let next = (execute_phase client kind_of env retry validation ctx).0 in
      let last = λ (c : PhaseContext Store).
        run_phases client kind_of env retry (claims_phase ∷ plan_phase ∷ status_phase ∷ []) c in
      let passed =
        after_result_cases client kind_of env retry last next none false 0 false out
          (sym (
              run_phases-live client kind_of env retry validation
                (claims_phase ∷ plan_phase ∷ status_phase ∷ []) ctx live)
            ∙ is_out)
          h in
      let rest : last next ≡ out = elim passed.2 [
        | inl skips ↦ absurd (cc skips)
        | inr rest ↦ rest
      ] in
      claims_reported next out h (validated-live ctx.workload live) rest

  -- The status that is written: Ready stands for usable claims and a plan in phase Ready, and the
  -- claims are those that were listed.
  abbrev pub Reports :
      List ResourceClaim → Option WorkloadPlan → Round client kind_of env retry → Type 0
  Reports claims plan out =
      ((written : Store) × (client.update_workload_status written (out.0).workload
          ≡ ((out.0).store, none)))
      × (Holds (out.0).workload.status.conditions ready
          ↔ (All (λ c. IsUsable c) claims × PlanIsReady plan))
      × ((out.0).workload.status.claims ≡ summaries claims)

  validated-Holds : (w : Workload) → Holds (validated w).status.conditions inputs_valid
  unfolding set_status_condition
  validated-Holds w =
      (Holds-set_condition env.now inputs_valid is_true "Succeeded"
          "Workload specification is valid" w.status.conditions).1
        refl

  writes-Reports :
      (w : Workload) (claims : List ResourceClaim) (plan : Option WorkloadPlan)
      (out : Round client kind_of env retry)
      → WritesStatus client kind_of env retry plan (aggregated claims (validated w)) out
      → Reports claims plan out
  writes-Reports w claims plan out (written, answered, final) =
      let v = aggregated claims (validated w) in
      let (listed, others, kept) = update_workload_status_lem env.now claims (validated w) in
      let (is_ready, event) = compute_final_status_iff env.now plan v in
      let (c, found, holds) = validated-Holds w in
      let inputs : Holds v.status.conditions inputs_valid =
        (c, others inputs_valid refl ∙ found, holds) in
      let same : (out.0).workload.status.conditions
          ≡ (compute_final_status env.now plan v).0.status.conditions =
        ap (λ (x : Workload). x.status.conditions) final in
      (
        (written, answered),
        (
          λ r.
              let (i, usable, p) = is_ready.0 (subst (λ cs. Holds cs ready) same r) in
              (listed.0 usable, p),
          λ (usable, p).
              subst (λ cs. Holds cs ready) (sym same) (is_ready.1 (inputs, listed.1 usable, p)),
        ),
        ap (λ (x : Workload). x.status.claims) final
            ∙ compute_final_status-claims env.now plan v
            ∙ kept,
      )

  -- A round of the pipeline at a Workload that is not being deleted and has the finalizer, if it ends
  -- with neither an error nor a requeue: the claims were ensured and listed without an error; and
  -- unless the error of EnsurePlan was one that ends the round silently, a status was written in
  -- which Ready is True exactly when every listed claim is bound with its outputs and the plan that
  -- was read is in phase Ready, and which summarises the listed claims.
  pub execute-reported :
      (store : Store) (w : Workload)
      → should_skip w ≡ false
      → holds_finalizer w ≡ true
      → Succeeded client kind_of env retry (execute client kind_of env retry store w)
      → (listed : Store) × (claims : List ResourceClaim) × (ensure_claims client kind_of store
            (validated w)
          ≡ (listed, none))
        × (get_claims client listed (validated w) ≡ ok claims)
        × (let v = aggregated claims (validated w) in
            let step = ensure_plan client env listed v claims (aggregate_claim_statuses claims) in
            IsSwallowed client kind_of env retry step.workload step.error
            ⊎ Reports claims
                (plan_or_nil client kind_of env retry (get_plan client step.store v))
                (execute client kind_of env retry store w))
  unfolding execute with_finalizer ensure_finalizer
  execute-reported store w live holds h =
      let out = execute client kind_of env retry store w in
      let runs : execute_normal_pipeline client kind_of env retry
            (new_context client kind_of env retry store w)
          ≡ out =
        rw (live, holds) refl in
      let (listed, claims, ensured, got, planned) =
        pipeline_reported (new_context client kind_of env retry store w) out h live runs in
      (
        listed,
        claims,
        ensured,
        got,
        elim planned [
          | inl swallowed ↦ inl swallowed
          | inr (clean, written) ↦ inr (writes-Reports w claims _ out written)
        ],
      )
