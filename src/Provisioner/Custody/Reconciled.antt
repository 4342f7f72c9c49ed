-- ===== src/Provisioner/Custody/Reconciled.antt =====
-- Reconcile keeps what has been provisioned in custody.
use score_orchestrator.Base.{
  ℕ, String, true, ◌≡◌, refl, sym, ◌∙◌, ap, subst, inl, inr, Option, none, some, Bool-cases,
}
use score_orchestrator.Base.Result.{Result, ok, err}
use score_orchestrator.Api.Claim.{ResourceClaim}
use score_orchestrator.Provisioner.Lifecycle.{
  has_finalizer, add_finalizer, remove_finalizer, is_being_deleted, should_reconcile,
}
use score_orchestrator.Provisioner.Strategy.{Strategy, Selector, get_strategy}
use score_orchestrator.Provisioner.Phases.{Outcome, provision_by, handle_provisioning}
use score_orchestrator.Provisioner.Reconcile.{
  ApiError, not_found, refused, Client, released, release, after_deprovision, deprovision_by,
  handle_deletion, initialized, after_finalizer, recorded, record_outcome, reconcile_claim,
  reconcile_answer, reconcile,
}
use score_orchestrator.Provisioner.Custody.{
  ServesClaims, Provides, InCustody, same_claim, update_status-InCustody, update-InCustody,
  nothing_held, add_finalizer-has, add_finalizer-spec,
}
use score_orchestrator.Provisioner.Custody.Calls.{phase-store}

module _ {Store : Type 0} (now : ℕ) (client : Client Store) (selector : Selector Store)
    (Holds : Store → String → Type 0) (server : ServesClaims client Holds)
    (strategies : Provides client selector Holds) where
  -- Provisioning is done for a claim that is stored with the finalizer.
  provisioned :
      (p : Strategy Store) (s : Store) (c : ResourceClaim)
      → InCustody client selector Holds s
      → client.get s ≡ ok c
      → has_finalizer c ≡ true
      → get_strategy c.spec.type selector ≡ some p
      → InCustody client selector Holds (p.provision s c).0
  provisioned p s c h at finalizer found type held =
      let stored = strategies.provision-get p s c at found in
      elim (strategies.provision-adds p s c type at found held) [
        | inl before ↦
            let (b, at', had, typed, served) = h type before in
            (b, stored ∙ at', had, typed, served)
        | inr own ↦ (
          c,
          stored ∙ at,
          finalizer,
          own,
          (p, subst (λ t. get_strategy t selector ≡ some p) own found),
        )
      ]

  provision_by-InCustody :
      (s : Store) (c : ResourceClaim) (o : Option (Strategy Store))
      → get_strategy c.spec.type selector ≡ o
      → InCustody client selector Holds s
      → client.get s ≡ ok c
      → has_finalizer c ≡ true
      → InCustody client selector Holds (provision_by now s c o).store
  unfolding provision_by
  provision_by-InCustody s c none found h at finalizer = h
  provision_by-InCustody s c (some p) found h at finalizer =
      elim (phase-store now p s c c.status.phase) [
        | inl same ↦ subst (InCustody client selector Holds) (sym same) h
        | inr called ↦
            subst (InCustody client selector Holds) (sym called)
              (provisioned p s c h at finalizer found)
      ]

  recorded-store :
      (o : Outcome Store) (a : Store × Result ApiError ResourceClaim) → (recorded o a).store ≡ a.0
  unfolding recorded
  recorded-store o (s, ok c) = refl
  recorded-store o (s, err e) = refl

  record_outcome-InCustody :
      (o : Outcome Store)
      → InCustody client selector Holds o.store
      → InCustody client selector Holds (record_outcome client o).store
  unfolding record_outcome
  record_outcome-InCustody o h =
      subst (InCustody client selector Holds)
        (sym (recorded-store o (client.update_status o.store o.claim)))
        (update_status-InCustody client selector Holds server o.store o.claim h)

  initialized-store : (a : Store × Result ApiError ResourceClaim) → (initialized a).store ≡ a.0
  unfolding initialized
  initialized-store (s, ok c) = refl
  initialized-store (s, err e) = refl

  after_finalizer-InCustody :
      (a : Store × Result ApiError ResourceClaim)
      → InCustody client selector Holds a.0
      → InCustody client selector Holds (after_finalizer now client a).store
  unfolding after_finalizer
  after_finalizer-InCustody (s, err e) h = h
  after_finalizer-InCustody (s, ok c) h =
      subst (InCustody client selector Holds) (sym (initialized-store _))
        (update_status-InCustody client selector Holds server s _ h)

  released-store : (a : Store × Result ApiError ResourceClaim) → (released a).store ≡ a.0
  unfolding released
  released-store (s, ok c) = refl
  released-store (s, err e) = refl

  -- The finalizer is removed once nothing is held.
  release-InCustody :
      (s : Store) (c : ResourceClaim)
      → ((type : String) → ¬ Holds s type)
      → InCustody client selector Holds (release client s c).store
  unfolding release
  release-InCustody s c free =
      subst (InCustody client selector Holds) (sym (released-store _))
        (nothing_held client selector Holds server s (remove_finalizer c) free)

  -- What is held is of the type of the claim that is stored.
  own_type :
      (s : Store) (c : ResourceClaim) (type : String)
      → InCustody client selector Holds s
      → client.get s ≡ ok c
      → Holds s type
      → (c.spec.type ≡ type) × ((p : Strategy Store) × (get_strategy type selector ≡ some p))
  own_type s c type h at held =
      let (b, at', had, typed, served) = h type held in (ap type_of (sym at ∙ at') ∙ typed, served)
    where
      type_of : Result ApiError ResourceClaim → String
      type_of (ok x) = x.spec.type
      type_of (err x) = c.spec.type

  after_deprovision-InCustody :
      (s : Store) (c : ResourceClaim) (a : Store × Option String)
      → InCustody client selector Holds a.0
      → (a.1 ≡ none → (type : String) → ¬ Holds a.0 type)
      → InCustody client selector Holds (after_deprovision client c a).store
  unfolding after_deprovision
  after_deprovision-InCustody s c (t, none) h free = release-InCustody t c (free refl)
  after_deprovision-InCustody s c (t, some e) h free = h

  deprovision_by-InCustody :
      (s : Store) (c : ResourceClaim) (o : Option (Strategy Store))
      → get_strategy c.spec.type selector ≡ o
      → InCustody client selector Holds s
      → client.get s ≡ ok c
      → InCustody client selector Holds (deprovision_by client s c o).store
  unfolding deprovision_by
  deprovision_by-InCustody s c none found h at = release-InCustody s c (λ type held.
      let (typed, (p, served)) = own_type s c type h at held in
      none_is_not p (sym found ∙ ap (λ t. get_strategy t selector) typed ∙ served))
    where
      none_is_not : (p : Strategy Store) → ¬ ◌≡◌ {A = Option (Strategy Store)} none (some p)
      none_is_not p e = absurd cc
  deprovision_by-InCustody s c (some p) found h at =
      after_deprovision-InCustody s c (p.deprovision s c)
        (same_claim client selector Holds s (p.deprovision s c).0 h
          (strategies.deprovision-get p s c at found)
          (λ type held. strategies.deprovision-keeps p s c type at found held))
        (λ clean type held.
          let before = strategies.deprovision-keeps p s c type at found held in
          let typed = (own_type s c type h at before).0 in
          strategies.deprovision-frees p s c at found clean
            (subst (λ t. Holds (p.deprovision s c).0 t) (sym typed) held))

  deletion-InCustody :
      (s : Store) (c : ResourceClaim)
      → InCustody client selector Holds s
      → client.get s ≡ ok c
      → InCustody client selector Holds (handle_deletion client selector s c).store
  unfolding handle_deletion
  deletion-InCustody s c h at = elim (Bool-cases (has_finalizer c)) [
    | inl had ↦ rw had (deprovision_by-InCustody s c _ refl h at)
    | inr not_had ↦ rw not_had h
  ]

  provisioning-InCustody :
      (s : Store) (c : ResourceClaim)
      → InCustody client selector Holds s
      → client.get s ≡ ok c
      → has_finalizer c ≡ true
      → InCustody client selector Holds
          (record_outcome client (handle_provisioning now selector s c)).store
  unfolding handle_provisioning
  provisioning-InCustody s c h at had =
      record_outcome-InCustody (provision_by now s c (get_strategy c.spec.type selector))
        (provision_by-InCustody s c _ refl h at had)

  claim-InCustody :
      (s : Store) (c : ResourceClaim)
      → InCustody client selector Holds s
      → client.get s ≡ ok c
      → InCustody client selector Holds (reconcile_claim now client selector s c).store
  unfolding reconcile_claim
  claim-InCustody s c h at = elim (Bool-cases (should_reconcile c)) [
    | inr skipped ↦ rw skipped h
    | inl wanted ↦ elim (Bool-cases (is_being_deleted c)) [
      | inl deleted ↦ rw (wanted, deleted) (deletion-InCustody s c h at)
      | inr kept ↦ elim (Bool-cases (has_finalizer c)) [
        | inl had ↦ rw (wanted, kept, had) (provisioning-InCustody s c h at had)
        | inr fresh ↦
            rw (wanted, kept, fresh)
              (after_finalizer-InCustody (client.update s (add_finalizer c)) (
                update-InCustody client selector Holds server s c (add_finalizer c) h at
                  (add_finalizer-spec c) (add_finalizer-has c)))
      ]
    ]
  ]

  -- No resource is leaked, where the API server and the strategies do as ServesClaims and Provides
  -- state: if every resource that is held is that of the stored claim, which has the finalizer and
  -- a type that a strategy cleans up, the same is true after Reconcile, whichever call fails.
  pub reconcile-InCustody :
      (s : Store)
      → InCustody client selector Holds s
      → InCustody client selector Holds (reconcile now client selector s).store
  unfolding reconcile reconcile_answer
  reconcile-InCustody s h = by_answer (client.get s) refl
    where
      by_answer :
          (a : Result ApiError ResourceClaim)
          → client.get s ≡ a
          → InCustody client selector Holds (reconcile_answer now client selector s a).store
      by_answer (err not_found) at = h
      by_answer (err (refused e)) at = h
      by_answer (ok c) at = claim-InCustody s c h at
