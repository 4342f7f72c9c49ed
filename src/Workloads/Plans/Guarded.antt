-- ===== src/Workloads/Plans/Guarded.antt =====
-- When the plan of a Workload is written.
use score_orchestrator.Base.{
  String, ◌≡◌, refl, ap, subst, ◌∙◌, ◌≢◌, false, Option, none, some, List, ◌==◌, eq_iff, All, arith,
  Bool-cases, inl, inr,
}
use score_orchestrator.Base.Result.{Result, ok, err, >>=-eq-ok}
use score_orchestrator.Base.Text.{codes}
use score_orchestrator.Api.Meta.{Raw, Json, obj, end, field, json}
use score_orchestrator.Api.Claim.{ResourceClaim}
use score_orchestrator.Api.Workload.{Workload}
use score_orchestrator.Api.Plan.{WorkloadPlan}
use score_orchestrator.Status.{aggregate_claim_statuses}
use score_orchestrator.Status.Aggregate.{IsUsable, ready_iff}
use score_orchestrator.Selection.Pipeline.{SelectedBackend}
use score_orchestrator.Projection.Placeholder.{has_unresolved_placeholders}
use score_orchestrator.Projection.Placeholder.Found.{
  Occurs, HasPlaceholder, has_unresolved_placeholders_iff,
}
use score_orchestrator.Projection.Resolver.{
  ResolveFailure, Available, resolve_all_placeholders, resolve_with, resolve_containers,
}
use score_orchestrator.Workloads.{ApiError, Client}
use score_orchestrator.Workloads.Plans.{
  Environment, OwnerSetter, after_scan, after_resolve, is_failure, plan_at, upsert_workload_plan,
  select_plan_backend, after_upsert, after_select, ensure_plan,
}
use score_orchestrator.Workloads.Plans.Errors.{PlanError}

-- The values were resolved to a document in which no string holds a placeholder.
abbrev pub IsResolved : Result ResolveFailure Raw → Type 0
IsResolved answer =
    (document : Json) × (answer ≡ ok (json document))
    × ((s : String) → Occurs s document → ¬ HasPlaceholder (codes s))

resolved_json :
    (w : Workload) (available : Option Available) {resolved : Raw}
    → resolve_with w available ≡ ok resolved
    → (document : Json) × (resolved ≡ json document)
unfolding resolve_with
resolved_json w none e = cc
resolved_json w (some available) {resolved} e =
    let step = >>=-eq-ok (resolve_containers available w.spec.containers) _ e in
    (obj (field "containers" (obj step.0) end), cc (step.2))

not_found_free :
    (document : Json)
    → (has_unresolved_placeholders (json document)).found ≡ false
    → (s : String) → Occurs s document
    → ¬ HasPlaceholder (codes s)
not_found_free document h s o p =
    let found = (has_unresolved_placeholders_iff document).1 (s, o, p) in cc

module _ {Store : Type 0} (client : Client Store) (owner : OwnerSetter) (store : Store)
    (w : Workload) (claims : List ResourceClaim) (backend : SelectedBackend) where
  after_resolve-writes :
      (plan : Result ApiError WorkloadPlan) (answer : Result ResolveFailure Raw)
      → (after_resolve client owner store w claims backend plan answer).0 ≢ store
      → (resolved : Raw) × (answer ≡ ok resolved)
        × ((has_unresolved_placeholders resolved).found ≡ false)
  unfolding after_resolve after_scan
  after_resolve-writes plan (err e) h = absurd (h refl)
  after_resolve-writes plan (ok resolved) h =
      elim (Bool-cases (has_unresolved_placeholders resolved).found) [
        | inl found ↦ absurd (h (rw found refl))
        | inr free ↦ (resolved, refl, free)
      ]

  -- A store that is not what it was means a write behind all checks.
  upsert_workload_plan-writes :
      (upsert_workload_plan client owner store w claims backend).0 ≢ store
      → (w.name ≢ "") × IsResolved (resolve_all_placeholders (client.read_secret store) w claims)
  unfolding upsert_workload_plan resolve_all_placeholders
  upsert_workload_plan-writes h = elim (Bool-cases (w.name == "")) [
    | inl unnamed ↦ absurd (h (rw unnamed refl))
    | inr named ↦ elim (Bool-cases (is_failure client (client.get_plan store (plan_at w)))) [
      | inl failed ↦ absurd (h (rw (named, failed) refl))
      | inr read ↦
          let written =
            after_resolve-writes (client.get_plan store (plan_at w))
              (resolve_all_placeholders (client.read_secret store) w claims)
              (rw (named, read) at h) in
          let parsed = resolved_json w _ written.1 in
          (
            ground (arith, eq_iff w.name ""),
            (
              parsed.0,
              written.1 ∙ ap ok parsed.1,
              not_found_free parsed.0
                  (subst (λ r. (has_unresolved_placeholders r).found ≡ false) parsed.1 written.2),
            ),
          )
    ]
  ]

module _ {Store : Type 0} (client : Client Store) (env : Environment) (store : Store) (w : Workload)
    (claims : List ResourceClaim) where
  -- If EnsurePlan, given the aggregation of the claims, leaves the store other than it was, then all
  -- claims are bound with their outputs, the Workload has a name, a backend was selected for it, and
  -- its values were resolved to a document in which no string has a placeholder.
  pub ensure_plan-guarded :
      (ensure_plan client env store w claims (aggregate_claim_statuses claims)).store ≢ store
      → All (λ c. IsUsable c) claims
        × ((backend : SelectedBackend) × (select_plan_backend env w ≡ ok backend))
        × (w.name ≢ "")
        × IsResolved (resolve_all_placeholders (client.read_secret store) w claims)
  unfolding ensure_plan
  ensure_plan-guarded h = elim (Bool-cases (aggregate_claim_statuses claims).ready) [
    | inr waiting ↦ absurd (h (rw waiting refl))
    | inl ready ↦
        let selected = by_selected (select_plan_backend env w) (rw ready at h) in
        ((ready_iff claims).0 ready, (selected.0, selected.1), selected.2, selected.3)
  ]
    where
      by_upserted :
          (answer : Store × Option PlanError) → (after_upsert client env w answer).store ≡ answer.0
      by_upserted (s, none) = refl
      by_upserted (s, some e) = ground arith

      by_selected :
          (answer : Result PlanError SelectedBackend)
          → (after_select client env store w claims answer).store ≢ store
          → (backend : SelectedBackend) × (answer ≡ ok backend)
            × (w.name ≢ "")
            × IsResolved (resolve_all_placeholders (client.read_secret store) w claims)
      by_selected (err e) n = absurd (n refl)
      by_selected (ok backend) n =
          let up = upsert_workload_plan-writes client env.owner store w claims backend (λ e.
            n (by_upserted (upsert_workload_plan client env.owner store w claims backend) ∙ e)) in
          (backend, refl, up.0, up.1)
