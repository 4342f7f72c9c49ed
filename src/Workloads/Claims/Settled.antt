-- ===== src/Workloads/Claims/Settled.antt =====
-- The claims of a Workload after they were ensured, with an API server that keeps what it is given.
use score_orchestrator.Base.{
  String, ◌≡◌, refl, sym, ap, subst, ◌∙◌, ◌≢◌, true, Option, none, some, [], ◌∷◌, eq_refl, All,
  Bool-cases, inl, inr,
}
use score_orchestrator.Base.Dict.{Dict, HasDistinctKeys}
use score_orchestrator.Base.Text.{joined_cancel}
use score_orchestrator.Base.Result.{Result, ok, err}
use score_orchestrator.Api.Meta.{Raw}
use score_orchestrator.Api.Claim.{NamespacedName, ResourceClaim, ResourceClaimSpec}
use score_orchestrator.Api.Workload.{Workload, ResourceSpec}
use score_orchestrator.Workloads.{ApiError, is_not_found, Client}
use score_orchestrator.Workloads.Claims.{
  claim_at, claim_name, desired_spec, same_option, same_presence, resource_claim_spec_equal,
  new_claim, wrapped, create_failed, update_failed, ClaimError, create_claim, update_claim,
  after_get, upsert_resource_claim, ensure_from, ensure_claims,
}

-- The claim that is read there has a spec that passes for the desired one.
abbrev pub Has : Result ApiError ResourceClaim → ResourceClaimSpec → Type 0
Has (ok claim) desired = resource_claim_spec_equal claim.spec desired ≡ true
Has (err e) desired = ⊥

abbrev pub name_of : ResourceClaim → NamespacedName
name_of claim = record { name = claim.name; namespace = claim.namespace }

abbrev pub IsReadable : Result ApiError ResourceClaim → NamespacedName → Type 0
IsReadable (ok claim) name = name_of claim ≡ name
IsReadable (err e) name = is_not_found e.kind ≡ true

abbrev pub IsAbsent : Result ApiError ResourceClaim → Type 0
IsAbsent (ok claim) = ⊥
IsAbsent (err e) = Unit

abbrev pub IsPresent : Result ApiError ResourceClaim → Type 0
IsPresent (ok claim) = Unit
IsPresent (err e) = ⊥

abbrev pub HasSpec : Result ApiError ResourceClaim → ResourceClaimSpec → Type 0
HasSpec (ok claim) spec = claim.spec ≡ spec
HasSpec (err e) spec = ⊥

-- An API server that answers each read with the claim of that name or says that there is none,
-- accepts the creation of a claim whose name is free and the update of one that is there, has the
-- claim's spec afterwards, and leaves the claims of other names alone. Its other answers, and the
-- writes of others in between, are left out.
pub record IsAccepting {Store : Type 0} (client : Client Store) : Type 0 where
  pub reads :
      (store : Store) (name : NamespacedName) → IsReadable (client.get_claim store name) name
  pub creates :
      (store : Store) (claim : ResourceClaim)
      → IsAbsent (client.get_claim store (name_of claim))
      → (client.create_claim store claim).1 ≡ none
  pub updates :
      (store : Store) (claim : ResourceClaim)
      → IsPresent (client.get_claim store (name_of claim))
      → (client.update_claim store claim).1 ≡ none
  pub created :
      (store : Store) (claim : ResourceClaim)
      → (client.create_claim store claim).1 ≡ none
      → HasSpec (client.get_claim (client.create_claim store claim).0 (name_of claim)) claim.spec
  pub updated :
      (store : Store) (claim : ResourceClaim)
      → (client.update_claim store claim).1 ≡ none
      → HasSpec (client.get_claim (client.update_claim store claim).0 (name_of claim)) claim.spec
  pub created_apart :
      (store : Store) (claim : ResourceClaim) (name : NamespacedName)
      → name ≢ name_of claim
      → client.get_claim (client.create_claim store claim).0 name ≡ client.get_claim store name
  pub updated_apart :
      (store : Store) (claim : ResourceClaim) (name : NamespacedName)
      → name ≢ name_of claim
      → client.get_claim (client.update_claim store claim).0 name ≡ client.get_claim store name

same_option_refl : (a : Option String) → same_option a a ≡ true
unfolding same_option
same_option_refl none = refl
same_option_refl (some a) = eq_refl a

same_presence_refl : (a : Option Raw) → same_presence a a ≡ true
unfolding same_presence
same_presence_refl none = refl
same_presence_refl (some a) = refl

spec_equal_refl :
    (w : Workload) (key : String) (resource : ResourceSpec)
    → resource_claim_spec_equal (desired_spec w key resource) (desired_spec w key resource) ≡ true
unfolding resource_claim_spec_equal desired_spec
spec_equal_refl w key resource = rw (
  eq_refl w.name,
  eq_refl w.namespace,
  eq_refl key,
  eq_refl resource.type,
  same_option_refl resource.class,
  same_presence_refl resource.params,
)

HasSpec-Has :
    (w : Workload) (key : String) (resource : ResourceSpec) (answer : Result ApiError ResourceClaim)
    → HasSpec answer (desired_spec w key resource)
    → Has answer (desired_spec w key resource)
HasSpec-Has w key resource (ok claim) h = rw h (spec_equal_refl w key resource)
HasSpec-Has w key resource (err e) h = elim h [ ]

claim_at-injective : (w : Workload) (a b : String) → claim_at w a ≡ claim_at w b → a ≡ b
unfolding claim_at claim_name
claim_at-injective w a b e =
    joined_cancel "-" a b (joined_cancel w.name _ _ (ap (λ (n : NamespacedName). n.name) e))

module _ {Store : Type 0} (client : Client Store) (kind : String) (server : IsAccepting client)
    (w : Workload) where
  open server use {reads, creates, updates, created, updated, created_apart, updated_apart}

  -- What a write has to give for the resource to be upserted.
  abbrev Upserted : Store → String → ResourceSpec → Store × Option ClaimError → Type 0
  Upserted store key resource answer =
      (next : Store) × (answer ≡ (next, none))
      × Has (client.get_claim next (claim_at w key)) (desired_spec w key resource)
      × ((name : NamespacedName)
          → name ≢ claim_at w key
          → client.get_claim next name ≡ client.get_claim store name)

  create_claim_lem :
      (store : Store) (key : String) (resource : ResourceSpec)
      → IsAbsent (client.get_claim store (claim_at w key))
      → Upserted store key resource (create_claim client (ok kind) store w key resource)
  unfolding create_claim claim_at
  create_claim_lem store key resource free =
      let claim = new_claim kind w key resource in
      let accepted = creates store claim free in
      let answer = client.create_claim store claim in
      (
        answer.0,
        ap (λ e. (answer.0, wrapped create_failed e)) accepted,
        HasSpec-Has w key resource _ (created store claim accepted),
        λ name apart. created_apart store claim name apart,
      )

  update_claim_lem :
      (store : Store) (key : String) (resource : ResourceSpec) (claim : ResourceClaim)
      → client.get_claim store (claim_at w key) ≡ ok claim
      → Upserted store key resource
          (update_claim client (ok kind) store claim (desired_spec w key resource))
  unfolding update_claim
  update_claim_lem store key resource claim at =
      elim (Bool-cases (resource_claim_spec_equal claim.spec (desired_spec w key resource))) [
        | inl same ↦ (store, rw same, rw at same, λ name apart. refl)
        | inr other ↦
            let set = record claim { spec = desired_spec w key resource } in
            let named : name_of claim ≡ claim_at w key =
              subst (λ a. IsReadable a (claim_at w key)) at (reads store (claim_at w key)) in
            let present : IsPresent (client.get_claim store (name_of claim)) = rw (named, at) tt in
            let accepted = updates store set present in
            let answer = client.update_claim store set in
            (
              answer.0,
              rw other (ap (λ e. (answer.0, wrapped update_failed e)) accepted),
              HasSpec-Has w key resource _ (
                  subst (λ n. HasSpec (client.get_claim answer.0 n) (desired_spec w key resource))
                    named (updated store set accepted)),
              λ name apart. updated_apart store set name (λ e. apart (e ∙ named)),
            )
      ]

  upsert_lem :
      (store : Store) (key : String) (resource : ResourceSpec)
      → Upserted store key resource (upsert_resource_claim client (ok kind) store w key resource)
  unfolding upsert_resource_claim
  upsert_lem store key resource = by_answer (client.get_claim store (claim_at w key)) refl
    where
      by_answer :
          (a : Result ApiError ResourceClaim)
          → client.get_claim store (claim_at w key) ≡ a
          → Upserted store key resource (after_get client (ok kind) store w key resource a)
      by_answer (ok claim) at = update_claim_lem store key resource claim at
      by_answer (err e) at =
          let missing =
            subst (λ a. IsReadable a (claim_at w key)) at (reads store (claim_at w key)) in
          rw missing (create_claim_lem store key resource (rw at tt))

  -- The entries of the list have their claims.
  abbrev AllHave : Store → Dict ResourceSpec → Type 0
  AllHave store resources =
      All (λ e. Has (client.get_claim store (claim_at w e.0)) (desired_spec w e.0 e.1)) resources

  AllHave-apart :
      (store next : Store) (resources : Dict ResourceSpec)
      → All
          (λ e. client.get_claim next (claim_at w e.0) ≡ client.get_claim store (claim_at w e.0))
          resources
      → AllHave store resources
      → AllHave next resources
  AllHave-apart store next [] h a = tt
  AllHave-apart store next ((key, resource) ∷ others) (h, hs) (a, as') =
      (rw h a, AllHave-apart store next others hs as')

  names_apart :
      (key : String) (others : Dict ResourceSpec)
      → All (λ e. e.0 ≢ key) others
      → All (λ e. claim_at w key ≢ claim_at w e.0) others
  names_apart key [] d = tt
  names_apart key ((k, resource) ∷ others) (d, ds) =
      (λ e. d (sym (claim_at-injective w key k e)), names_apart key others ds)

  ensure_from_lem :
      (store : Store) (resources : Dict ResourceSpec)
      → HasDistinctKeys resources
      → (next : Store) × (ensure_from client (ok kind) store w resources ≡ (next, none))
        × AllHave next resources
        × ((name : NamespacedName)
            → All (λ e. name ≢ claim_at w e.0) resources
            → client.get_claim next name ≡ client.get_claim store name)
  unfolding ensure_from
  ensure_from_lem store [] d = (store, refl, tt, λ name a. refl)
  ensure_from_lem store ((key, resource) ∷ others) (d, ds) =
      let first = upsert_lem store key resource in
      let rest = ensure_from_lem first.0 others ds in
      let apart = names_apart key others d in
      (
        rest.0,
        rw (first.1, ensure_from) rest.1,
        (rw (rest.3 (claim_at w key) apart) first.2, rest.2),
        λ name (a, as'). rest.3 name as' ∙ first.3 name a,
      )

  -- Claims that are there are not written again.
  upsert_settled :
      (store : Store) (key : String) (resource : ResourceSpec)
      → Has (client.get_claim store (claim_at w key)) (desired_spec w key resource)
      → upsert_resource_claim client (ok kind) store w key resource ≡ (store, none)
  unfolding upsert_resource_claim
  upsert_settled store key resource h = by_answer (client.get_claim store (claim_at w key)) h
    where
      by_answer :
          (a : Result ApiError ResourceClaim)
          → Has a (desired_spec w key resource)
          → after_get client (ok kind) store w key resource a ≡ (store, none)
      by_answer (ok claim) same = rw (same, update_claim) refl
      by_answer (err e) h = elim h [ ]

  ensure_from_settled :
      (store : Store) (resources : Dict ResourceSpec)
      → AllHave store resources
      → ensure_from client (ok kind) store w resources ≡ (store, none)
  unfolding ensure_from
  ensure_from_settled store [] a = refl
  ensure_from_settled store ((key, resource) ∷ others) (a, as') =
      rw (upsert_settled store key resource a) (ensure_from_settled store others as')

  -- With a server that accepts its writes, the claims of a Workload are ensured without an error:
  -- afterwards each resource has a claim under the name of the Workload and its key that passes for
  -- the desired one, the claims of other names are what they were, and ensuring them again writes
  -- nothing.
  pub ensure_claims_lem :
      (store : Store)
      → HasDistinctKeys w.spec.resources
      → (next : Store) × (ensure_claims client (ok kind) store w ≡ (next, none))
        × All
            (λ e. Has (client.get_claim next (claim_at w e.0)) (desired_spec w e.0 e.1))
            w.spec.resources
        × ((name : NamespacedName)
            → All (λ e. name ≢ claim_at w e.0) w.spec.resources
            → client.get_claim next name ≡ client.get_claim store name)
        × (ensure_claims client (ok kind) next w ≡ (next, none))
  unfolding ensure_claims
  ensure_claims_lem store d =
      let ends = ensure_from_lem store w.spec.resources d in
      (ends.0, ends.1, ends.2, ends.3, ensure_from_settled ends.0 w.spec.resources ends.2)
