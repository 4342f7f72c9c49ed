-- ===== src/Provisioner/Custody.antt =====
-- What has been provisioned stays in the custody of a claim: the claim exists and has the finalizer,
-- so that it is not gone before its resource is. The store holds the resource of a type, or not;
-- what the API server and the strategies do to that is stated as hypotheses.
pub mod Calls
pub mod Reconciled
pub mod Creates
pub mod Kept
use score_orchestrator.Base.{
  ℕ, String, Bool, true, false, not, ◌≡◌, ◌≢◌, refl, sym, ◌∙◌, ap, subst, ◌⊎◌, inl, inr, Option,
  none, some, List, [], ◌∷◌, ◌++◌, arith, ◌==◌, any, is_some, Bool-cases, Option-cases,
  if◌then◌else◌,
}
use score_orchestrator.Base.Result.{Result, ok, err}
use score_orchestrator.Api.Meta.{ObjectMeta}
use score_orchestrator.Api.Claim.{
  ResourceClaim, ResourceClaimSpec, ResourceClaimOutputs, ClaimPhase,
}
use score_orchestrator.Provisioner.Lifecycle.{
  resource_claim_finalizer, has_finalizer, add_finalizer, remove_finalizer, is_being_deleted,
  should_reconcile,
}
use score_orchestrator.Provisioner.Strategy.{Strategy, Selector, get_strategy}
use score_orchestrator.Provisioner.Phases.{
  Outcome, bind_outputs, after_provision, claiming_by_status, bound_by_status, failed_by_status,
  handle_pending_phase, handle_claiming_phase, handle_bound_phase, handle_failed_phase,
  handle_phase, provision_by, handle_provisioning,
}
use score_orchestrator.Provisioner.Consistent.{handle_provisioning-meta}
use score_orchestrator.Provisioner.Reconcile.{
  ApiError, not_found, refused, Client, released, release, after_deprovision, deprovision_by,
  handle_deletion, initialized, after_finalizer, recorded, record_outcome, reconcile_claim,
  reconcile_answer, reconcile,
}

-- The API server: an update that succeeds stores the object that it answers with, which has the
-- metadata and the spec (for the status, those of the stored object and the status) of the one that
-- was sent, unless the object goes away, which takes that no finalizer is left; one that fails
-- changes nothing. No update touches a resource.
pub record ServesClaims {Store : Type 0} (client : Client Store) (Holds : Store → String → Type 0)
    : Type 0 where
  pub updated :
      (s t : Store) (c d : ResourceClaim)
      → client.update s c ≡ (t, ok d)
      → (d.metadata ≡ c.metadata)
        × (d.spec ≡ c.spec)
        × ((client.get t ≡ ok d) ⊎ (c.finalizers ≡ []))
  pub not_updated :
      (s t : Store) (c : ResourceClaim) (e : ApiError)
      → client.update s c ≡ (t, err e)
      → client.get t ≡ client.get s
  pub status_updated :
      (s t : Store) (c d : ResourceClaim)
      → client.update_status s c ≡ (t, ok d)
      → (client.get t ≡ ok d)
        × ((b : ResourceClaim)
            → client.get s ≡ ok b
            → (d.metadata ≡ b.metadata) × (d.spec ≡ b.spec))
  pub status_not_updated :
      (s t : Store) (c : ResourceClaim) (e : ApiError)
      → client.update_status s c ≡ (t, err e)
      → client.get t ≡ client.get s
  pub update-keeps :
      (s : Store) (c : ResourceClaim) (type : String)
      → Holds (client.update s c).0 type
      → Holds s type
  pub update_status-keeps :
      (s : Store) (c : ResourceClaim) (type : String)
      → Holds (client.update_status s c).0 type
      → Holds s type

-- The strategies, for the claim that is stored: provisioning makes no resource but one of the claim's
-- type, cleaning up makes none and leaves none of that type unless it fails, and neither changes the
-- claim.
pub record Provides {Store : Type 0} (client : Client Store) (selector : Selector Store)
    (Holds : Store → String → Type 0) : Type 0 where
  pub provision-get :
      (p : Strategy Store) (s : Store) (c : ResourceClaim)
      → client.get s ≡ ok c
      → get_strategy c.spec.type selector ≡ some p
      → client.get (p.provision s c).0 ≡ client.get s
  pub provision-adds :
      (p : Strategy Store) (s : Store) (c : ResourceClaim) (type : String)
      → client.get s ≡ ok c
      → get_strategy c.spec.type selector ≡ some p
      → Holds (p.provision s c).0 type
      → Holds s type ⊎ (c.spec.type ≡ type)
  pub deprovision-get :
      (p : Strategy Store) (s : Store) (c : ResourceClaim)
      → client.get s ≡ ok c
      → get_strategy c.spec.type selector ≡ some p
      → client.get (p.deprovision s c).0 ≡ client.get s
  pub deprovision-keeps :
      (p : Strategy Store) (s : Store) (c : ResourceClaim) (type : String)
      → client.get s ≡ ok c
      → get_strategy c.spec.type selector ≡ some p
      → Holds (p.deprovision s c).0 type
      → Holds s type
  pub deprovision-frees :
      (p : Strategy Store) (s : Store) (c : ResourceClaim)
      → client.get s ≡ ok c
      → get_strategy c.spec.type selector ≡ some p
      → (p.deprovision s c).1 ≡ none
      → ¬ Holds (p.deprovision s c).0 c.spec.type

any-append_last :
    (f : String) (fs : List String) → (f == f) ≡ true → any (λ g. g == f) (fs ++ f ∷ []) ≡ true
any-append_last f [] e = rw e
any-append_last f (g ∷ gs) e = ground (arith, any-append_last f gs e)

pub add_finalizer-has : (c : ResourceClaim) → has_finalizer (add_finalizer c) ≡ true
unfolding has_finalizer add_finalizer
add_finalizer-has c = elim (Bool-cases (has_finalizer c)) [
  | inl there ↦ rw there there
  | inr missing ↦ rw missing (any-append_last resource_claim_finalizer c.finalizers refl)
]

pub add_finalizer-spec : (c : ResourceClaim) → (add_finalizer c).spec ≡ c.spec
unfolding add_finalizer
add_finalizer-spec c = elim (Bool-cases (has_finalizer c)) [
  | inl there ↦ rw there refl
  | inr missing ↦ rw missing refl
]

module _ {Store : Type 0} (client : Client Store) (selector : Selector Store)
    (Holds : Store → String → Type 0) where
  -- Every resource that is held is that of a claim which is stored and has the finalizer, and a
  -- strategy can clean it up.
  abbrev pub InCustody : Store → Type 0
  InCustody s =
      (type : String)
      → Holds s type
      → (c : ResourceClaim) × (client.get s ≡ ok c)
        × (has_finalizer c ≡ true)
        × (c.spec.type ≡ type)
        × ((p : Strategy Store) × (get_strategy type selector ≡ some p))

  -- A step that changes neither the stored claim nor what is held, but for less of it.
  pub same_claim :
      (s t : Store)
      → InCustody s
      → client.get t ≡ client.get s
      → ((type : String) → Holds t type → Holds s type)
      → InCustody t
  same_claim s t h e less type held =
      let (c, stored, finalizer, typed, served) = h type (less type held) in
      (c, e ∙ stored, finalizer, typed, served)

  -- A step that stores a claim with the finalizer in place of the one that was stored.
  next_claim :
      (s t : Store) (d : ResourceClaim)
      → InCustody s
      → client.get t ≡ ok d
      → ((b : ResourceClaim)
          → client.get s ≡ ok b
          → has_finalizer b ≡ true
          → (has_finalizer d ≡ true) × (d.spec ≡ b.spec))
      → ((type : String) → Holds t type → Holds s type)
      → InCustody t
  next_claim s t d h e follows less type held =
      let (b, stored, finalizer, typed, served) = h type (less type held) in
      let (kept, same) = follows b stored finalizer in
      (d, e, kept, ap (λ (x : ResourceClaimSpec). x.type) same ∙ typed, served)

  same_finalizers :
      (b d : ResourceClaim)
      → d.metadata ≡ b.metadata
      → has_finalizer b ≡ true
      → has_finalizer d ≡ true
  unfolding has_finalizer
  same_finalizers b d e h =
      ap (λ (m : ObjectMeta). any (λ f. f == resource_claim_finalizer) m.finalizers) e ∙ h

  module _ (server : ServesClaims client Holds) where
    pub update_status-InCustody :
        (s : Store) (c : ResourceClaim) → InCustody s → InCustody (client.update_status s c).0
    update_status-InCustody s c h =
        by_answer (client.update_status s c) refl
          (λ type held. server.update_status-keeps s c type held)
      where
        by_answer :
            (a : Store × Result ApiError ResourceClaim)
            → client.update_status s c ≡ a
            → ((type : String) → Holds a.0 type → Holds s type)
            → InCustody a.0
        by_answer (t, err e) q less = same_claim s t h (server.status_not_updated s t c e q) less
        by_answer (t, ok d) q less =
            let (stored, meta) = server.status_updated s t c d q in
            next_claim s t d h stored
              (λ b at finalizer. (same_finalizers b d (meta b at).0 finalizer, (meta b at).1)) less

    -- An update that leaves a finalizer.
    pub update-InCustody :
        (s : Store) (b c : ResourceClaim)
        → InCustody s
        → client.get s ≡ ok b
        → c.spec ≡ b.spec
        → has_finalizer c ≡ true
        → InCustody (client.update s c).0
    unfolding has_finalizer
    update-InCustody s b c h at spec finalizer =
        by_answer (client.update s c) refl (λ type held. server.update-keeps s c type held)
      where
        not_gone : (fs : List String) → any (λ f. f == resource_claim_finalizer) fs ≡ true → fs ≢ []
        not_gone [] e = absurd cc
        not_gone (f ∷ fs) e = λ q. absurd cc

        by_answer :
            (a : Store × Result ApiError ResourceClaim)
            → client.update s c ≡ a
            → ((type : String) → Holds a.0 type → Holds s type)
            → InCustody a.0
        by_answer (t, err e) q less = same_claim s t h (server.not_updated s t c e q) less
        by_answer (t, ok d) q less =
            let (meta, same, stored) = server.updated s t c d q in
            elim stored [
              | inl stored' ↦
                  next_claim s t d h stored'
                    (λ b' at' had. (
                      same_finalizers c d meta finalizer,
                      same ∙ spec ∙ ap claim_spec (sym at ∙ at'),
                    ))
                    less
              | inr gone ↦ absurd (not_gone c.finalizers finalizer gone)
            ]
          where
            claim_spec : Result ApiError ResourceClaim → ResourceClaimSpec
            claim_spec (ok x) = x.spec
            claim_spec (err x) = b.spec

    -- Where nothing is held, nothing has to be guarded.
    pub nothing_held :
        (s : Store) (c : ResourceClaim)
        → ((type : String) → ¬ Holds s type)
        → InCustody (client.update s c).0
    nothing_held s c free type held = absurd (free type (server.update-keeps s c type held))
