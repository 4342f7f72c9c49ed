-- ===== src/Workloads/Deletion.antt =====
-- internal/controller/phases/deletion.go: the claims of a Workload that is deleted, by their
-- policies, and the end of the deletion.
pub mod Processed
pub mod Released
use score_orchestrator.Base.{
  ℕ, String, Bool, true, false, not, ◌&&◌, Option, none, some, List, [], ◌∷◌, ◌++◌, ◌==◌, any, keep,
  is_some, if◌then◌else◌,
}
use score_orchestrator.Base.Result.{Result, ok, err}
use score_orchestrator.Api.Meta.{OwnerReference}
use score_orchestrator.Api.Claim.{ResourceClaim, DeprovisionPolicy, delete, retain, orphan}
use score_orchestrator.Api.Workload.{Workload}
use score_orchestrator.Provisioner.Phases.{normal, event}
use score_orchestrator.Workloads.{ApiError, Client}
use score_orchestrator.Workloads.Claims.{get_claims}
use score_orchestrator.Workloads.Phases.{
  api, PhaseResult, completed, failed_with, requeued, PhaseContext, Phased, holds_finalizer,
  drop_finalizer,
}

-- The policy of a claim, Delete if it has none.
unfoldable pub get_deprovision_policy : ResourceClaim → DeprovisionPolicy
get_deprovision_policy claim = elim claim.spec.deprovision_policy [
  | none ↦ delete
  | some policy ↦ policy
]

-- The reference is kept: it is not one to the Workload.
abbrev pub is_other_owner : Workload → OwnerReference → Bool
is_other_owner w owner = not ((owner.kind == "Workload") && (owner.name == w.name))

unfoldable pub without_owner : Workload → ResourceClaim → ResourceClaim
without_owner w claim = record claim {
  metadata = record claim.metadata {
    owner_references = keep (is_other_owner w) claim.owner_references;
  };
}

abbrev pub is_delete : DeprovisionPolicy → Bool
is_delete delete = true
is_delete _ = false

-- claimsToWaitFor > 0
unfoldable pub must_wait : List ResourceClaim → Bool
unfolding get_deprovision_policy
must_wait claims = any (λ claim. is_delete (get_deprovision_policy claim)) claims

module _ {Store : Type 0} (client : Client Store) where
  unfoldable pub remove_owner_reference : Store → Workload → ResourceClaim → Store × Option ApiError
  unfolding without_owner
  remove_owner_reference store w claim = client.update_claim store (without_owner w claim)

  unfoldable pub delete_resource_claim : Store → ResourceClaim → Store × Option ApiError
  delete_resource_claim store claim =
      if is_some claim.deletion_timestamp then (store, none) else client.delete_claim store claim

  unfoldable pub process_by :
      DeprovisionPolicy → Store → Workload → ResourceClaim → Store × Option ApiError
  unfolding remove_owner_reference delete_resource_claim
  process_by delete store w claim = delete_resource_claim store claim
  process_by retain store w claim = remove_owner_reference store w claim
  process_by orphan store w claim = remove_owner_reference store w claim

  unfoldable pub process_deprovision_policy :
      Store → Workload → ResourceClaim → Store × Option ApiError
  unfolding process_by get_deprovision_policy
  process_deprovision_policy store w claim = process_by (get_deprovision_policy claim) store w claim

  unfoldable pub processed :
      (Store → Store × Option ApiError) → Store × Option ApiError → Store × Option ApiError
  processed rest (store, none) = rest store
  processed rest (store, some e) = (store, some e)

  -- The loop over the claims, which ends at the first error.
  unfoldable pub process_claims : Store → Workload → List ResourceClaim → Store × Option ApiError
  unfolding processed process_deprovision_policy
  process_claims store w [] = (store, none)
  process_claims store w (claim ∷ claims) =
      processed (λ next. process_claims next w claims) (process_deprovision_policy store w claim)

  unfoldable pub after_release :
      PhaseContext Store → Store × Workload × Option ApiError → Phased Store
  after_release ctx (store, w, some e) =
      (record ctx { store = store; workload = w }, failed_with (api e))
  after_release ctx (store, w, none) = (
    record ctx {
      store = store;
      workload = w;
      events = ctx.events ++ event normal "Deleted" "Workload cleanup completed";
    },
    completed,
  )

  -- The end, by the claims that are still there. `delay` is DefaultRequeueDelay.
  unfoldable pub after_remaining :
      ℕ → PhaseContext Store → Result ApiError (List ResourceClaim) → Phased Store
  unfolding must_wait after_release drop_finalizer
  after_remaining delay ctx (err e) = (ctx, failed_with (api e))
  after_remaining delay ctx (ok claims) =
      if must_wait claims
      then (ctx, requeued delay)
      else after_release ctx (drop_finalizer client ctx.store ctx.workload)

  unfoldable pub after_processing : ℕ → PhaseContext Store → Store × Option ApiError → Phased Store
  unfolding after_remaining
  after_processing delay ctx (store, some e) = (record ctx { store = store }, failed_with (api e))
  after_processing delay ctx (store, none) =
      after_remaining delay (record ctx { store = store }) (get_claims client store ctx.workload)

  unfoldable pub after_listing :
      ℕ → PhaseContext Store → Result ApiError (List ResourceClaim) → Phased Store
  unfolding after_processing process_claims
  after_listing delay ctx (err e) = (ctx, failed_with (api e))
  after_listing delay ctx (ok claims) =
      after_processing delay ctx (process_claims ctx.store ctx.workload claims)

  -- Execute of the deletion phase.
  unfoldable pub deletion_phase : ℕ → PhaseContext Store → Phased Store
  unfolding after_listing holds_finalizer
  deletion_phase delay ctx =
      if not (holds_finalizer ctx.workload)
      then (ctx, completed)
      else after_listing delay ctx (get_claims client ctx.store ctx.workload)
