-- ===== src/Provisioner/Consistent.antt =====
-- The status that the handlers leave: bound with provided outputs or with none at all, and the phases
-- that it goes through.
use score_orchestrator.Base.{
  ℕ, String, true, false, ◌≡◌, ◌≢◌, refl, ◌⊎◌, inl, inr, Option, none, some,
}
use score_orchestrator.Base.Result.{Result, ok, err}
use score_orchestrator.Api.Claim.{
  ResourceClaim, ResourceClaimOutputs, ResourceClaimStatus, ClaimPhase, unset, pending, claiming,
  bound, failed,
}
use score_orchestrator.Provisioner.Outputs.{validate_outputs}
use score_orchestrator.Provisioner.Outputs.Merged.{IsProvided, validate_outputs_iff}
use score_orchestrator.Provisioner.Lifecycle.{set_phase, set_without_outputs, set_bound}
use score_orchestrator.Provisioner.Strategy.{Strategy, Selector, get_strategy}
use score_orchestrator.Provisioner.Phases.{
  bind_outputs, after_provision, handle_pending_phase, claiming_by_status, handle_claiming_phase,
  bound_by_status, handle_bound_phase, failed_by_status, handle_failed_phase, handle_phase,
  provision_by, handle_provisioning,
}

-- Outputs are there exactly when the claim is bound, and then one of them is provided.
abbrev pub IsConsistent : ResourceClaimStatus → Type 0
IsConsistent s =
    ((s.phase ≡ bound) × (s.outputs_available ≡ true) × IsProvided s.outputs)
    ⊎ ((s.phase ≢ bound) × (s.outputs_available ≡ false) × (s.outputs ≡ none))

-- The phases that one call of handleProvisioning may lead to.
pub data Leads : ClaimPhase → ClaimPhase → Type 0 where
  binds_first : Leads unset bound
  binds_pending : Leads pending bound
  binds_claimed : Leads claiming bound
  waits : Leads claiming claiming
  stays_bound : Leads bound bound
  stays_failed : Leads failed failed
  recovers : Leads failed claiming
  fails : (p : ClaimPhase) → Leads p failed

-- What a handler has to show of the claim that it leaves.
abbrev Follows : ResourceClaim → ResourceClaim → Type 0
Follows c d =
    (IsConsistent c.status → IsConsistent d.status)
    × Leads c.status.phase d.status.phase
    × (d.metadata ≡ c.metadata)
    × (d.spec ≡ c.spec)

module _ (now : ℕ) (claim : ResourceClaim) where
  set_failed-Follows :
      (reason message : String)
      → Follows claim (set_without_outputs now failed reason message claim)
  unfolding set_without_outputs set_phase
  set_failed-Follows reason message =
      (λ h. inr ((λ e. absurd cc), refl, refl), fails claim.status.phase, refl, refl)

  bind-Follows :
      {Store : Type 0} (store : Store) (o : Option ResourceClaimOutputs) (e : Option String)
      → validate_outputs o ≡ e
      → Leads claim.status.phase bound
      → Follows claim (bind_outputs now store claim o e).claim
  unfolding bind_outputs set_bound set_phase
  bind-Follows store o (some e) h leads = set_failed-Follows _ _
  bind-Follows store o none h leads =
      (λ c. inl (refl, refl, (validate_outputs_iff o).0 h), leads, refl, refl)

  provision-Follows :
      {Store : Type 0} (message : String) (a : Store × Result String (Option ResourceClaimOutputs))
      → Leads claim.status.phase bound
      → Follows claim (after_provision now message claim a).claim
  unfolding after_provision
  provision-Follows message (store, err e) leads = set_failed-Follows _ _
  provision-Follows message (store, ok o) leads = bind-Follows store o _ refl leads

  same-Follows : Leads claim.status.phase claim.status.phase → Follows claim claim
  same-Follows leads = ((λ h. h), leads, refl, refl)

  claiming-Follows :
      {Store : Type 0} (strategy : Strategy Store) (store : Store)
      (r : Result String (ClaimPhase × String × String))
      → Leads claim.status.phase bound
      → Leads claim.status.phase claim.status.phase
      → Follows claim (claiming_by_status now strategy store claim r).claim
  unfolding claiming_by_status
  claiming-Follows strategy store (err e) leads stays = set_failed-Follows _ _
  claiming-Follows strategy store (ok (bound, reason, message)) leads stays =
      provision-Follows _ _ leads
  claiming-Follows strategy store (ok (failed, reason, message)) leads stays =
      set_failed-Follows _ _
  claiming-Follows strategy store (ok (unset, reason, message)) leads stays = same-Follows stays
  claiming-Follows strategy store (ok (pending, reason, message)) leads stays = same-Follows stays
  claiming-Follows strategy store (ok (claiming, reason, message)) leads stays = same-Follows stays

  bound-Follows :
      {Store : Type 0} (store : Store) (r : Result String (ClaimPhase × String × String))
      → Leads claim.status.phase claim.status.phase
      → Follows claim (bound_by_status now store claim r).claim
  unfolding bound_by_status
  bound-Follows store (err e) stays = same-Follows stays
  bound-Follows store (ok (failed, reason, message)) stays = set_failed-Follows _ _
  bound-Follows store (ok (unset, reason, message)) stays = same-Follows stays
  bound-Follows store (ok (pending, reason, message)) stays = same-Follows stays
  bound-Follows store (ok (claiming, reason, message)) stays = same-Follows stays
  bound-Follows store (ok (bound, reason, message)) stays = same-Follows stays

  failed-Follows :
      {Store : Type 0} (store : Store) (r : Result String (ClaimPhase × String × String))
      → Leads claim.status.phase claiming
      → Leads claim.status.phase claim.status.phase
      → Follows claim (failed_by_status now store claim r).claim
  unfolding failed_by_status set_without_outputs set_phase
  failed-Follows store (err e) leads stays = same-Follows stays
  failed-Follows store (ok (bound, reason, message)) leads stays =
      (λ h. inr ((λ e. absurd cc), refl, refl), leads, refl, refl)
  failed-Follows store (ok (unset, reason, message)) leads stays = same-Follows stays
  failed-Follows store (ok (pending, reason, message)) leads stays = same-Follows stays
  failed-Follows store (ok (claiming, reason, message)) leads stays = same-Follows stays
  failed-Follows store (ok (failed, reason, message)) leads stays = same-Follows stays

  phase-Follows :
      {Store : Type 0} (strategy : Strategy Store) (store : Store) (p : ClaimPhase)
      → claim.status.phase ≡ p
      → Follows claim (handle_phase now strategy store claim p).claim
  unfolding handle_phase handle_pending_phase handle_claiming_phase handle_bound_phase
      handle_failed_phase
  phase-Follows strategy store unset e = provision-Follows _ _ (rw e binds_first)
  phase-Follows strategy store pending e = provision-Follows _ _ (rw e binds_pending)
  phase-Follows strategy store claiming e =
      claiming-Follows strategy store _ (rw e binds_claimed) (rw e waits)
  phase-Follows strategy store bound e = bound-Follows store _ (rw e stays_bound)
  phase-Follows strategy store failed e = failed-Follows store _ (rw e recovers) (rw e stays_failed)

module _ {Store : Type 0} (now : ℕ) (selector : Selector Store) (store : Store)
    (claim : ResourceClaim) where
  provision_by-Follows :
      (o : Option (Strategy Store)) → Follows claim (provision_by now store claim o).claim
  unfolding provision_by handle_phase
  provision_by-Follows none = set_failed-Follows now claim _ _
  provision_by-Follows (some strategy) =
      phase-Follows now claim strategy store claim.status.phase refl

  handled : Follows claim (handle_provisioning now selector store claim).claim
  unfolding handle_provisioning
  handled = provision_by-Follows (get_strategy claim.spec.type selector)

  -- From a status in which exactly a bound claim has outputs, and these provided, handleProvisioning
  -- leaves such a status, whatever its strategy answers.
  pub handle_provisioning-IsConsistent :
      IsConsistent claim.status
      → IsConsistent (handle_provisioning now selector store claim).claim.status
  handle_provisioning-IsConsistent = handled.0

  -- Whatever the strategy answers, one call of handleProvisioning takes the phase of a claim along a
  -- step of Leads: with no phase, Pending or Claiming to Bound; Failed to Claiming; each phase to
  -- Failed; and Claiming, Bound and Failed to themselves. So a pending claim does not go through
  -- Claiming, no call leaves it pending, and a failed one is not bound by one call.
  pub handle_provisioning-Leads :
      Leads claim.status.phase (handle_provisioning now selector store claim).claim.status.phase
  handle_provisioning-Leads = handled.1

  -- The metadata and the spec of the claim are left alone.
  pub handle_provisioning-meta :
      ((handle_provisioning now selector store claim).claim.metadata ≡ claim.metadata)
      × ((handle_provisioning now selector store claim).claim.spec ≡ claim.spec)
  handle_provisioning-meta = (handled.2, handled.3)
