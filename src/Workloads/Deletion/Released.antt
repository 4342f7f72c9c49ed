-- ===== src/Workloads/Deletion/Released.antt =====
-- When a Workload that is deleted loses its finalizer.
use score_orchestrator.Base.{
  ℕ, ◌≡◌, refl, ◌≢◌, ◌⊎◌, inl, inr, true, false, Option, none, some, List, [], ◌∷◌, All, arith,
  Bool-cases,
}
use score_orchestrator.Base.Result.{Result, ok, err}
use score_orchestrator.Api.Claim.{ResourceClaim}
use score_orchestrator.Workloads.{ApiError, Client}
use score_orchestrator.Workloads.Claims.{get_claims}
use score_orchestrator.Workloads.Phases.{
  PhaseResult, completed, PhaseContext, Phased, holds_finalizer,
}
use score_orchestrator.Workloads.Deletion.Processed.{
  IsToKeep, Processed, process_claims-Processed, kept,
}
use score_orchestrator.Workloads.Deletion.{
  get_deprovision_policy, is_delete, process_claims, must_wait, after_remaining, after_processing,
  after_listing, deletion_phase,
}

must_wait-IsToKeep : (claims : List ResourceClaim) → must_wait claims ≡ false → All IsToKeep claims
unfolding must_wait
must_wait-IsToKeep [] h = tt
must_wait-IsToKeep (claim ∷ claims) h =
    let here : is_delete (get_deprovision_policy claim) ≡ false = ground arith in
    let others : must_wait claims ≡ false = ground arith in
    (kept claim here, must_wait-IsToKeep claims others)

module _ {Store : Type 0} (client : Client Store) (delay : ℕ) where
  -- The phase took the finalizer off, or ended as completed.
  abbrev pub Released : PhaseContext Store → Phased Store → Type 0
  Released ctx out = (out.0.workload ≢ ctx.workload) ⊎ (out.1 ≡ completed)

  -- The answer to a list is claims that are all to be kept.
  abbrev pub AllGone : Result ApiError (List ResourceClaim) → Type 0
  AllGone answer =
      (remaining : List ResourceClaim) × (answer ≡ ok remaining) × All IsToKeep remaining

  after_remaining-Released :
      (ctx : PhaseContext Store) (answer : Result ApiError (List ResourceClaim))
      → Released ctx (after_remaining client delay ctx answer)
      → AllGone answer
  unfolding after_remaining
  after_remaining-Released ctx (err e) (inl h) = absurd (h refl)
  after_remaining-Released ctx (err e) (inr h) = cc
  after_remaining-Released ctx (ok claims) r = elim (Bool-cases (must_wait claims)) [
    | inl waits ↦ by_release (rw waits at r)
    | inr gone ↦ (claims, refl, must_wait-IsToKeep claims gone)
  ]
    where
      by_release :
          (ctx.workload ≢ ctx.workload)
            ⊎ (◌≡◌ {A = PhaseResult}
                (record { skip = false; requeue = true; requeue_after = delay; error = none })
                completed)
          → AllGone (ok claims)
      by_release (inl h) = absurd (h refl)
      by_release (inr h) = cc

  after_processing-Released :
      (ctx : PhaseContext Store) (answer : Store × Option ApiError)
      → Released ctx (after_processing client delay ctx answer)
      → (answer.1 ≡ none) × AllGone (get_claims client answer.0 ctx.workload)
  unfolding after_processing
  after_processing-Released ctx (store, some e) (inl h) = absurd (h refl)
  after_processing-Released ctx (store, some e) (inr h) = cc
  after_processing-Released ctx (store, none) r =
      (refl, after_remaining-Released (record ctx { store = store }) _ r)

  after_listing-Released :
      (ctx : PhaseContext Store) (answer : Result ApiError (List ResourceClaim))
      → Released ctx (after_listing client delay ctx answer)
      → (listed : List ResourceClaim) × (answer ≡ ok listed)
        × ((next : Store) × Processed client ctx.workload ctx.store listed next
            × AllGone (get_claims client next ctx.workload))
  unfolding after_listing
  after_listing-Released ctx (err e) (inl h) = absurd (h refl)
  after_listing-Released ctx (err e) (inr h) = cc
  after_listing-Released ctx (ok listed) r =
      let done' =
        after_processing-Released ctx (process_claims client ctx.store ctx.workload listed) r in
      (
        listed,
        refl,
        (
          (process_claims client ctx.store ctx.workload listed).0,
          process_claims-Processed client ctx.workload ctx.store listed done'.0,
          done'.1,
        ),
      )

  -- If the deletion phase, at a Workload with the finalizer, changes the Workload or ends as
  -- completed, then it listed claims, and each of these was processed in turn without an error: one
  -- with the policy Delete or none was deleted, if it was not being deleted already, and one with
  -- Retain or Orphan was stored without its references to the Workload and otherwise as it was. Of the
  -- claims that it listed after that, each has the policy Retain or Orphan.
  pub deletion_phase-Released :
      (ctx : PhaseContext Store)
      → holds_finalizer ctx.workload ≡ true
      → Released ctx (deletion_phase client delay ctx)
      → (listed : List ResourceClaim) × (get_claims client ctx.store ctx.workload ≡ ok listed)
        × ((next : Store) × Processed client ctx.workload ctx.store listed next
            × AllGone (get_claims client next ctx.workload))
  unfolding deletion_phase
  deletion_phase-Released ctx holds r =
      after_listing-Released ctx (get_claims client ctx.store ctx.workload) (rw holds at r)
