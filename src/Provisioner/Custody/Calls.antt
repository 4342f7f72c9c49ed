-- ===== src/Provisioner/Custody/Calls.antt =====
-- Which calls of a strategy the handlers make.
use score_orchestrator.Base.{ℕ, String, ◌≡◌, refl, ◌⊎◌, inl, inr, Option, none, some}
use score_orchestrator.Base.Result.{Result, ok, err}
use score_orchestrator.Api.Claim.{
  ResourceClaim, ResourceClaimOutputs, ClaimPhase, unset, pending, claiming, bound, failed,
}
use score_orchestrator.Provisioner.Outputs.{validate_outputs}
use score_orchestrator.Provisioner.Strategy.{Strategy}
use score_orchestrator.Provisioner.Phases.{
  bind_outputs, after_provision, claiming_by_status, bound_by_status, failed_by_status,
  handle_pending_phase, handle_claiming_phase, handle_bound_phase, handle_failed_phase,
  handle_phase,
}

-- The store that handleProvisioning leaves is the one that it was given, or the one that a single call
-- of Provision left.
module _ {Store : Type 0} (now : ℕ) (strategy : Strategy Store) (store : Store)
    (claim : ResourceClaim) where
  abbrev pub OneCall : Store → Type 0
  OneCall t = (t ≡ store) ⊎ (t ≡ (strategy.provision store claim).0)

  bind-store :
      (s : Store) (o : Option ResourceClaimOutputs) (e : Option String)
      → (bind_outputs now s claim o e).store ≡ s
  unfolding bind_outputs
  bind-store s o none = refl
  bind-store s o (some e) = refl

  provision-store :
      (message : String) (a : Store × Result String (Option ResourceClaimOutputs))
      → (after_provision now message claim a).store ≡ a.0
  unfolding after_provision
  provision-store message (s, err e) = refl
  provision-store message (s, ok o) = bind-store s o (validate_outputs o)

  claiming-store :
      (r : Result String (ClaimPhase × String × String))
      → OneCall (claiming_by_status now strategy store claim r).store
  unfolding claiming_by_status
  claiming-store (err e) = inl refl
  claiming-store (ok (bound, reason, message)) = inr (provision-store _ _)
  claiming-store (ok (failed, reason, message)) = inl refl
  claiming-store (ok (unset, reason, message)) = inl refl
  claiming-store (ok (pending, reason, message)) = inl refl
  claiming-store (ok (claiming, reason, message)) = inl refl

  bound-store :
      (r : Result String (ClaimPhase × String × String))
      → (bound_by_status now store claim r).store ≡ store
  unfolding bound_by_status
  bound-store (err e) = refl
  bound-store (ok (bound, reason, message)) = refl
  bound-store (ok (failed, reason, message)) = refl
  bound-store (ok (unset, reason, message)) = refl
  bound-store (ok (pending, reason, message)) = refl
  bound-store (ok (claiming, reason, message)) = refl

  failed-store :
      (r : Result String (ClaimPhase × String × String))
      → (failed_by_status now store claim r).store ≡ store
  unfolding failed_by_status
  failed-store (err e) = refl
  failed-store (ok (bound, reason, message)) = refl
  failed-store (ok (failed, reason, message)) = refl
  failed-store (ok (unset, reason, message)) = refl
  failed-store (ok (pending, reason, message)) = refl
  failed-store (ok (claiming, reason, message)) = refl

  pub phase-store : (p : ClaimPhase) → OneCall (handle_phase now strategy store claim p).store
  unfolding handle_phase handle_pending_phase handle_claiming_phase handle_bound_phase
      handle_failed_phase
  phase-store unset = inr (provision-store _ _)
  phase-store pending = inr (provision-store _ _)
  phase-store claiming = claiming-store _
  phase-store bound = inl (bound-store _)
  phase-store failed = inl (failed-store _)
