-- ===== src/Workloads/Deletion/Processed.antt =====
-- What the loop of internal/controller/phases/deletion.go asks of the API server for each claim.
use score_orchestrator.Base.{
  ℕ, Bool, true, false, eq_iff, ◌≡◌, refl, sym, ap, ◌∙◌, ◌↔◌, ◌⊎◌, inl, inr, Option, none, some,
  List, [], ◌∷◌, In, In-keep, arith, is_some, Option-cases, subst, if◌then◌else◌,
}
use score_orchestrator.Api.Meta.{OwnerReference}
use score_orchestrator.Api.Claim.{ResourceClaim, DeprovisionPolicy, delete, retain, orphan}
use score_orchestrator.Api.Workload.{Workload}
use score_orchestrator.Workloads.{ApiError, Client}
use score_orchestrator.Workloads.Deletion.{
  get_deprovision_policy, is_delete, is_other_owner, without_owner, remove_owner_reference,
  delete_resource_claim, process_by, process_deprovision_policy, processed, process_claims,
}

-- The policy of the claim is Delete, or it has none.
abbrev pub IsToDelete : ResourceClaim → Type 0
IsToDelete claim =
    (claim.spec.deprovision_policy ≡ none) ⊎ (claim.spec.deprovision_policy ≡ some delete)

-- The policy of the claim is Retain or Orphan.
abbrev pub IsToKeep : ResourceClaim → Type 0
IsToKeep claim =
    (claim.spec.deprovision_policy ≡ some retain) ⊎ (claim.spec.deprovision_policy ≡ some orphan)

-- The claim without its references to the Workload: the other owners are those that it had, and all
-- the rest is as it was.
abbrev pub IsDetached : Workload → ResourceClaim → ResourceClaim → Type 0
IsDetached w claim detached =
    ((owner : OwnerReference)
      → In owner detached.owner_references
        ↔ (In owner claim.owner_references × ¬ ((owner.kind ≡ "Workload") × (owner.name ≡ w.name))))
    × (record detached {
      metadata = record detached.metadata { owner_references = claim.owner_references };
    }
        ≡ claim)

module _ {Store : Type 0} (client : Client Store) (w : Workload) where
  -- One claim, from a store to the next one: a claim to be deleted is deleted, unless it is being
  -- deleted already; one to be kept is stored without its references to the Workload.
  pub data Handled (s : Store) (claim : ResourceClaim) : Store → Type 0 where
    deletes :
        {t : Store}
        → IsToDelete claim
        → claim.deletion_timestamp ≡ none
        → client.delete_claim s claim ≡ (t, none)
        → Handled s claim t
    leaves :
        (since : ℕ) → IsToDelete claim → claim.deletion_timestamp ≡ some since → Handled s claim s
    detaches :
        {t : Store} (detached : ResourceClaim)
        → IsToKeep claim
        → IsDetached w claim detached
        → client.update_claim s detached ≡ (t, none)
        → Handled s claim t

  -- Each claim of the list, in its order.
  pub data Processed : Store → List ResourceClaim → Store → Type 0 where
    finished : {s : Store} → Processed s [] s
    next :
        {s t u : Store} {claim : ResourceClaim} {claims : List ResourceClaim}
        → Handled s claim t
        → Processed t claims u
        → Processed s (claim ∷ claims) u

is_other_owner_iff :
    (w : Workload) (owner : OwnerReference)
    → (is_other_owner w owner ≡ true) ↔ (¬ ((owner.kind ≡ "Workload") × (owner.name ≡ w.name)))
is_other_owner_iff w owner = ground (arith, eq_iff owner.kind "Workload", eq_iff owner.name w.name)

without_owner-IsDetached :
    (w : Workload) (claim : ResourceClaim) → IsDetached w claim (without_owner w claim)
unfolding without_owner
without_owner-IsDetached w claim = (
  λ owner.
      let kept = In-keep (is_other_owner w) owner claim.owner_references in
      let other = is_other_owner_iff w owner in
      ((λ h. ((kept.0 h).0, other.0 (kept.0 h).1)), λ (m, n). kept.1 (m, other.1 n)),
  refl,
)

abbrev effective : Option DeprovisionPolicy → DeprovisionPolicy
effective o = elim o [ none ↦ delete | some policy ↦ policy ]

-- The policy that is in force, and what it stands for.
abbrev IsInForce : ResourceClaim → DeprovisionPolicy → Type 0
IsInForce claim delete = IsToDelete claim
IsInForce claim retain = IsToKeep claim
IsInForce claim orphan = IsToKeep claim

get_deprovision_policy-IsInForce :
    (claim : ResourceClaim) (o : Option DeprovisionPolicy)
    → claim.spec.deprovision_policy ≡ o
    → (policy : DeprovisionPolicy) × (get_deprovision_policy claim ≡ policy)
      × IsInForce claim policy
unfolding get_deprovision_policy
get_deprovision_policy-IsInForce claim none e = (delete, ap effective e, inl e)
get_deprovision_policy-IsInForce claim (some delete) e = (delete, ap effective e, inr e)
get_deprovision_policy-IsInForce claim (some retain) e = (retain, ap effective e, inl e)
get_deprovision_policy-IsInForce claim (some orphan) e = (orphan, ap effective e, inr e)

-- A claim that is not to be deleted.
pub kept :
    (claim : ResourceClaim) → is_delete (get_deprovision_policy claim) ≡ false → IsToKeep claim
kept claim h =
    let (policy, same, force) =
      get_deprovision_policy-IsInForce claim claim.spec.deprovision_policy refl in
    by_policy policy force (ap is_delete (sym same) ∙ h)
  where
    by_policy :
        (policy : DeprovisionPolicy)
        → IsInForce claim policy
        → is_delete policy ≡ false
        → IsToKeep claim
    by_policy delete force q = cc
    by_policy retain force q = force
    by_policy orphan force q = force

module _ {Store : Type 0} (client : Client Store) (w : Workload) where
  delete-Handled :
      (s t : Store) (claim : ResourceClaim)
      → IsToDelete claim
      → delete_resource_claim client s claim ≡ (t, none)
      → Handled client w s claim t
  unfolding delete_resource_claim
  delete-Handled s t claim h e = elim (Option-cases claim.deletion_timestamp) [
    | inl alive ↦ deletes h alive (sym (ap tested (ap is_some alive)) ∙ e)
    | inr (since, deleted) ↦
        subst (Handled client w s claim) (ap first (sym (ap tested (ap is_some deleted)) ∙ e))
          (leaves since h deleted)
  ]
    where
      first : Store × Option ApiError → Store
      first r = r.0

      tested : Bool → Store × Option ApiError
      tested b = if b then (s, none) else client.delete_claim s claim

  process_by-Handled :
      (s t : Store) (claim : ResourceClaim) (policy : DeprovisionPolicy)
      → IsInForce claim policy
      → process_by client policy s w claim ≡ (t, none)
      → Handled client w s claim t
  unfolding process_by remove_owner_reference
  process_by-Handled s t claim delete h e = delete-Handled s t claim h e
  process_by-Handled s t claim retain h e =
      detaches (without_owner w claim) h (without_owner-IsDetached w claim) e
  process_by-Handled s t claim orphan h e =
      detaches (without_owner w claim) h (without_owner-IsDetached w claim) e

  processed-Handled :
      (s t : Store) (claim : ResourceClaim)
      → process_deprovision_policy client s w claim ≡ (t, none)
      → Handled client w s claim t
  unfolding process_deprovision_policy
  processed-Handled s t claim e =
      let (policy, same, h) =
        get_deprovision_policy-IsInForce claim claim.spec.deprovision_policy refl in
      process_by-Handled s t claim policy h (ap (λ q. process_by client q s w claim) (sym same) ∙ e)

  pub process_claims-Processed :
      (s : Store) (claims : List ResourceClaim)
      → (process_claims client s w claims).1 ≡ none
      → Processed client w s claims (process_claims client s w claims).0
  unfolding process_claims
  process_claims-Processed s [] h = finished
  process_claims-Processed s (claim ∷ claims) h =
      by_answer (λ (n : Store). process_claims-Processed n claims)
        (process_deprovision_policy client s w claim) refl h
    where
      by_answer :
          ((n : Store)
            → (process_claims client n w claims).1 ≡ none
            → Processed client w n claims (process_claims client n w claims).0)
          → (a : Store × Option ApiError) → process_deprovision_policy client s w claim ≡ a
          → (processed client (λ n. process_claims client n w claims) a).1 ≡ none
          → Processed client w s
              (claim ∷ claims)
              (processed client (λ n. process_claims client n w claims) a).0
      by_answer rest (t, none) e q = next (processed-Handled s t claim e) (rest t q)
      by_answer rest (t, some x) e q = cc
