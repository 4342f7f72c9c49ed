-- ===== src/Provisioner/Converges.antt =====
-- A new claim is bound by two rounds of Reconcile if nothing fails, and then left alone.
pub mod Secrets
use score_orchestrator.Base.{
  ℕ, Bool, true, false, not, ◌&&◌, ◌≡◌, refl, ◌∙◌, ap, Option, none, some, [], arith, is_some, eqb,
  Bool-cases, inl, inr, if◌then◌else◌,
}
use score_orchestrator.Base.Result.{ok}
use score_orchestrator.Api.Claim.{
  ResourceClaim, ResourceClaimSpec, ResourceClaimOutputs, unset, pending, bound,
}
use score_orchestrator.Provisioner.Outputs.{validate_outputs}
use score_orchestrator.Provisioner.Outputs.Merged.{IsProvided, validate_outputs_iff}
use score_orchestrator.Provisioner.Lifecycle.{
  done, after, same_phase, set_phase, set_pending, set_without_outputs, set_bound, has_finalizer,
  add_finalizer, is_being_deleted, should_reconcile, get_reconcile_result,
}
use score_orchestrator.Provisioner.Strategy.{Strategy, Selector, get_strategy}
use score_orchestrator.Provisioner.Phases.{
  Outcome, normal, event, bind_outputs, after_provision, handle_pending_phase, handle_phase,
  provision_by, handle_provisioning,
}
use score_orchestrator.Provisioner.Reconcile.{
  Client, Reconciled, ended, initialized, after_finalizer, recorded, record_outcome,
  reconcile_claim, reconcile_answer, reconcile,
}
use score_orchestrator.Provisioner.Custody.{add_finalizer-has, add_finalizer-spec}

-- An API server that takes every update of a claim that is there, and stores what it answers with:
-- the metadata and the spec that were sent for an update, the status for one of the status.
pub record TakesUpdates {Store : Type 0} (client : Client Store) : Type 0 where
  pub takes_update :
      (s : Store) (b c : ResourceClaim)
      → client.get s ≡ ok b
      → (t : Store) × (client.update s c ≡ (t, ok (record c { status = b.status })))
        × (client.get t ≡ ok (record c { status = b.status }))
  pub takes_status :
      (s : Store) (b c : ResourceClaim)
      → client.get s ≡ ok b
      → (t : Store) × (client.update_status s c ≡ (t, ok (record b { status = c.status })))
        × (client.get t ≡ ok (record b { status = c.status }))

-- A strategy that gives outputs for the claim that is stored, and leaves it alone.
pub record AlwaysProvides {Store : Type 0} (client : Client Store) (p : Strategy Store)
    (outputs : ResourceClaim → ResourceClaimOutputs) : Type 0 where
  pub gives :
      (s : Store) (c : ResourceClaim)
      → client.get s ≡ ok c
      → (p.provision s c).1 ≡ ok (some (outputs c))
  pub get-provision :
      (s : Store) (c : ResourceClaim)
      → client.get s ≡ ok c
      → client.get (p.provision s c).0 ≡ client.get s

-- A claim that is not being deleted and not bound is reconciled.
wanted :
    (c : ResourceClaim)
    → c.deletion_timestamp ≡ none
    → same_phase c.status.phase bound ≡ false
    → should_reconcile c ≡ true
unfolding should_reconcile
wanted c alive phase = by_tests c.deletion_timestamp (same_phase c.status.phase bound) alive phase
  where
    by_tests :
        (o : Option ℕ) (b : Bool)
        → o ≡ none
        → b ≡ false
        → (if is_some o && not (has_finalizer c)
            then false
            else if is_some o
            then true
            else if b && eqb c.status.observed_generation c.generation
            then false
            else true)
          ≡ true
    by_tests o b e f = ground arith

module _ {Store : Type 0} (now : ℕ) (client : Client Store) (selector : Selector Store)
    (server : TakesUpdates client) where
  unfoldable pub initial : ResourceClaim → ResourceClaim
  initial c = record (add_finalizer c) {
    status =
        (set_pending now "ClaimPending" "Initializing resource claim"
          (record (add_finalizer c) { status = c.status })).status;
  }

  -- What Reconcile does with a claim that is there, to be reconciled and not being deleted.
  on_live :
      (s : Store) (c : ResourceClaim)
      → client.get s ≡ ok c
      → should_reconcile c ≡ true
      → c.deletion_timestamp ≡ none
      → reconcile now client selector s ≡ (
          if not (has_finalizer c)
          then after_finalizer now client (client.update s (add_finalizer c))
          else record_outcome client (handle_provisioning now selector s c))
  unfolding reconcile reconcile_answer reconcile_claim
  on_live s c at should alive =
      let not_deleted : is_being_deleted c ≡ false = ap (λ o. is_some o) alive in
      ap (reconcile_answer now client selector s) at ∙ rw (should, not_deleted) refl

  -- The first round adds the finalizer and sets the claim pending.
  first_round :
      (s : Store) (c : ResourceClaim)
      → client.get s ≡ ok c
      → c.deletion_timestamp ≡ none
      → has_finalizer c ≡ false
      → c.status.phase ≡ unset
      → (t : Store) × (reconcile now client selector s
          ≡ record { store = t; events = []; result = after 30; error = none })
        × (client.get t ≡ ok (initial c))
  unfolding initial after_finalizer initialized set_without_outputs set_phase get_reconcile_result
  first_round s c at alive fresh phase =
      let (t, took, stored) = server.takes_update s c (add_finalizer c) at in
      let (u, took', stored') =
        server.takes_status t _
          (set_pending now "ClaimPending" "Initializing resource claim"
            (record (add_finalizer c) { status = c.status }))
          stored in
      (
        u,
        on_live s c at (wanted c alive (ap (λ p. same_phase p bound) phase)) alive
            ∙ rw fresh (ap (after_finalizer now client) took ∙ ap initialized took'),
        stored',
      )

  -- A claim that is bound.
  provided : ResourceClaimOutputs → ResourceClaim → ResourceClaim
  provided outputs c = record c { status = (set_bound now (some outputs) c).status }

  abbrev bound_outcome :
      Store → ResourceClaim → Strategy Store → ResourceClaimOutputs → Outcome Store
  bound_outcome s c p outputs = record {
    store = (p.provision s c).0;
    claim = set_bound now (some outputs) c;
    events = event normal "Provisioned" "Resource successfully provisioned";
    result = done;
    error = none;
  }

  provided_outcome :
      (s : Store) (c : ResourceClaim) (p : Strategy Store) (outputs : ResourceClaimOutputs)
      → c.status.phase ≡ pending
      → get_strategy c.spec.type selector ≡ some p
      → (p.provision s c).1 ≡ ok (some outputs)
      → validate_outputs (some outputs) ≡ none
      → handle_provisioning now selector s c ≡ bound_outcome s c p outputs
  unfolding handle_provisioning provision_by handle_phase handle_pending_phase after_provision
      bind_outputs
  provided_outcome s c p outputs phase found gives valid =
      ap (provision_by now s c) found
      ∙ ap (handle_phase now p s c) phase
      ∙ ap (λ a. after_provision now "Provisioning failed: " c ((p.provision s c).0, a)) gives
      ∙ ap (bind_outputs now (p.provision s c).0 c (some outputs)) valid

  -- The second round provisions it.
  second_round :
      (s : Store) (c : ResourceClaim) (p : Strategy Store)
      (outputs : ResourceClaim → ResourceClaimOutputs)
      → client.get s ≡ ok c
      → c.deletion_timestamp ≡ none
      → has_finalizer c ≡ true
      → c.status.phase ≡ pending
      → get_strategy c.spec.type selector ≡ some p
      → AlwaysProvides client p outputs
      → IsProvided (some (outputs c))
      → (t : Store) × (reconcile now client selector s ≡ record {
        store = t;
        events = event normal "Provisioned" "Resource successfully provisioned";
        result = after 600;
        error = none;
      })
        × (client.get t ≡ ok (provided (outputs c) c))
  unfolding provided record_outcome recorded set_bound set_phase get_reconcile_result
  second_round s c p outputs at alive had phase found always provides =
      let valid = (validate_outputs_iff (some (outputs c))).1 provides in
      let outcome = provided_outcome s c p (outputs c) phase found (always.gives s c at) valid in
      let (t, took, stored) =
        server.takes_status (p.provision s c).0 c (set_bound now (some (outputs c)) c)
          (always.get-provision s c at ∙ at) in
      (
        t,
        on_live s c at (wanted c alive (ap (λ q. same_phase q bound) phase)) alive
            ∙ rw had (
                ap (record_outcome client) outcome
                ∙ ap (recorded (bound_outcome s c p (outputs c))) took),
        stored,
      )

  -- A claim that is bound, and whose generation has been observed, is left alone, with no requeue.
  steady :
      (s : Store) (c : ResourceClaim)
      → client.get s ≡ ok c
      → c.deletion_timestamp ≡ none
      → c.status.phase ≡ bound
      → c.status.observed_generation ≡ c.generation
      → reconcile now client selector s ≡ ended s [] none
  unfolding reconcile reconcile_answer reconcile_claim should_reconcile
  steady s c at alive phase seen =
      ap (reconcile_answer now client selector s) at
      ∙ by_tests c.deletion_timestamp (same_phase c.status.phase bound)
          (eqb c.status.observed_generation c.generation) _ alive
          (ap (λ q. same_phase q bound) phase) (ground arith)
    where
      by_tests :
          (o : Option ℕ) (b e : Bool) (rest : Reconciled Store)
          → o ≡ none
          → b ≡ true
          → e ≡ true
          → (if not (
                if is_some o && not (has_finalizer c)
                then false
                else if is_some o
                then true
                else if b && e
                then false
                else true)
              then ended s [] none
              else rest)
            ≡ ended s [] none
      by_tests o b e rest x y z = ground arith

add_finalizer-alive :
    (c : ResourceClaim) → c.deletion_timestamp ≡ none → (add_finalizer c).deletion_timestamp ≡ none
unfolding add_finalizer
add_finalizer-alive c e = elim (Bool-cases (has_finalizer c)) [
  | inl had ↦ rw had e
  | inr fresh ↦ rw fresh e
]

-- If the API server takes every update, and the strategy of the claim's type always provides, then a
-- new claim is bound with the provided outputs after two rounds, and left alone by the third.
pub three_rounds :
    {Store : Type 0} (first second third : ℕ) (client : Client Store) (selector : Selector Store)
    (s : Store) (c : ResourceClaim) (p : Strategy Store)
    (outputs : ResourceClaim → ResourceClaimOutputs)
    → (server : TakesUpdates client) → AlwaysProvides client p outputs
    → ((b : ResourceClaim) → IsProvided (some (outputs b)))
    → client.get s ≡ ok c
    → c.deletion_timestamp ≡ none
    → has_finalizer c ≡ false
    → c.status.phase ≡ unset
    → get_strategy c.spec.type selector ≡ some p
    → let s1 = (reconcile first client selector s).store in
      let s2 = (reconcile second client selector s1).store in
      (d : ResourceClaim) × (client.get s2 ≡ ok d)
      × (d.status.phase ≡ bound)
      × (d.status.outputs ≡ some (outputs (initial first client selector server c)))
      × (reconcile third client selector s2 ≡ ended s2 [] none)
unfolding initial provided set_bound set_phase set_without_outputs has_finalizer
three_rounds {Store} first second third client selector s c p outputs server always provides at
      alive fresh phase found =
    let (t, round, stored) = first_round first client selector server s c at alive fresh phase in
    let s1 = (reconcile first client selector s).store in
    let same : s1 ≡ t = ap (λ (r : Reconciled Store). r.store) round in
    let d = initial first client selector server c in
    let live = add_finalizer-alive c alive in
    let typed =
      ap (λ (x : ResourceClaimSpec). get_strategy x.type selector) (add_finalizer-spec c) in
    let (u, round', stored') =
      second_round second client selector server s1 d p outputs
        (ap (λ x. client.get x) same ∙ stored) live (add_finalizer-has c) refl (typed ∙ found)
        always (provides d) in
    let s2 = (reconcile second client selector s1).store in
    let same' : s2 ≡ u = ap (λ (r : Reconciled Store). r.store) round' in
    let at' = ap (λ x. client.get x) same' ∙ stored' in
    (_, at', refl, refl, steady third client selector server s2 _ at' live refl refl)
