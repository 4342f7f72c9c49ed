-- ===== src/Workloads/Claims.antt =====
-- internal/controller/managers/claim_manager.go: the claims of a Workload, created, updated and
-- listed. internal/reconcile/claim.go has the same upsert with another owner reference.
pub mod Settled
use score_orchestrator.Base.{
  String, Bool, true, false, not, ◌&&◌, ◌||◌, Option, none, some, List, [], ◌∷◌, ◌==◌,
  if◌then◌else◌,
}
use score_orchestrator.Base.Dict.{Dict}
use score_orchestrator.Base.Text.{joined, codes, contains}
use score_orchestrator.Base.Result.{Result, ok, err}
use score_orchestrator.Api.Meta.{ObjectMeta, OwnerReference, Raw}
use score_orchestrator.Api.Claim.{
  NamespacedName, ResourceClaim, ResourceClaimSpec, ResourceClaimStatus, unset,
}
use score_orchestrator.Api.Workload.{Workload, ResourceSpec}
use score_orchestrator.Workloads.{ApiError, is_not_found, Listing, by_index, by_label, Client}

-- fmt.Sprintf("%s-%s", workload.Name, key)
unfoldable pub claim_name : Workload → String → String
claim_name w key = joined w.name (joined "-" key)

unfoldable pub claim_at : Workload → String → NamespacedName
unfolding claim_name
claim_at w key = record { name = claim_name w key; namespace = w.namespace }

-- The desired spec: no ID and no policy, and the optional fields of the resource where they are
-- present.
unfoldable pub desired_spec : Workload → String → ResourceSpec → ResourceClaimSpec
desired_spec w key resource = record {
  workload_ref = record { name = w.name; namespace = w.namespace };
  key = key;
  type = resource.type;
  class = resource.class;
  id = none;
  params = resource.params;
  deprovision_policy = none;
}

-- Two optional strings: both absent, or both present and equal.
unfoldable pub same_option : Option String → Option String → Bool
same_option none none = true
same_option (some a) (some b) = a == b
same_option none (some b) = false
same_option (some a) none = false

unfoldable pub same_presence : Option Raw → Option Raw → Bool
same_presence none none = true
same_presence (some a) (some b) = true
same_presence none (some b) = false
same_presence (some a) none = false

unfoldable pub resource_claim_spec_equal : ResourceClaimSpec → ResourceClaimSpec → Bool
unfolding same_option same_presence
resource_claim_spec_equal a b =
    (a.workload_ref.name == b.workload_ref.name)
    && (a.workload_ref.namespace == b.workload_ref.namespace)
    && (a.key == b.key)
    && (a.type == b.type)
    && same_option a.class b.class
    && same_option a.id b.id
    && same_presence a.params b.params

unfoldable pub owner_reference : String → Workload → OwnerReference
owner_reference kind w = record {
  kind = kind;
  name = w.name;
  uid = w.uid;
  controller = true;
  block_owner_deletion = false;
}

unfoldable pub new_claim : String → Workload → String → ResourceSpec → ResourceClaim
unfolding claim_name desired_spec owner_reference
new_claim kind w key resource = record {
  metadata = record {
    name = claim_name w key;
    namespace = w.namespace;
    uid = "";
    generation = 0;
    labels = ("score.dev/workload", w.name) ∷ ("score.dev/key", key) ∷ [];
    annotations = [];
    finalizers = [];
    owner_references = owner_reference kind w ∷ [];
    deletion_timestamp = none;
  };
  spec = desired_spec w key resource;
  status = record {
    phase = unset;
    reason = "";
    message = "";
    outputs = none;
    outputs_available = false;
    observed_generation = 0;
    last_transition_time = none;
  };
}

pub data ClaimError : Type 0 where
  get_failed : ApiError → ClaimError
  no_kind : String → ClaimError
  create_failed : ApiError → ClaimError
  update_failed : ApiError → ClaimError

unfoldable pub wrapped : (ApiError → ClaimError) → Option ApiError → Option ClaimError
wrapped wrap none = none
wrapped wrap (some e) = some (wrap e)

-- `kind_of` is apiutil.GVKForObject of a Workload in the manager's scheme, by its kind or its error.
module _ {Store : Type 0} (client : Client Store) (kind_of : Result String String) where
  unfoldable pub create_claim : Store → Workload → String → ResourceSpec → Store × Option ClaimError
  unfolding new_claim wrapped
  create_claim store w key resource = elim kind_of [
    | err e ↦ (store, some (no_kind e))
    | ok kind ↦
        let answer = client.create_claim store (new_claim kind w key resource) in
        (answer.0, wrapped create_failed answer.1)
  ]

  unfoldable pub update_claim :
      Store → ResourceClaim → ResourceClaimSpec → Store × Option ClaimError
  unfolding resource_claim_spec_equal wrapped
  update_claim store claim desired =
      let answer = client.update_claim store (record claim { spec = desired }) in
      if not (resource_claim_spec_equal claim.spec desired)
      then (answer.0, wrapped update_failed answer.1)
      else (store, none)

  -- What follows the read of the claim, by its answer.
  unfoldable pub after_get :
      Store
      → Workload
      → String
      → ResourceSpec
      → Result ApiError ResourceClaim
      → Store × Option ClaimError
  unfolding create_claim update_claim desired_spec
  after_get store w key resource (ok claim) = update_claim store claim (desired_spec w key resource)
  after_get store w key resource (err e) =
      if is_not_found e.kind
      then create_claim store w key resource
      else (store, some (get_failed e))

  unfoldable pub upsert_resource_claim :
      Store → Workload → String → ResourceSpec → Store × Option ClaimError
  unfolding after_get claim_at
  upsert_resource_claim store w key resource =
      after_get store w key resource (client.get_claim store (claim_at w key))

  -- The rest of the loop, unless the resource before failed.
  unfoldable pub continued :
      (Store → Store × Option (String × ClaimError))
      → String
      → Store × Option ClaimError
      → Store × Option (String × ClaimError)
  continued rest key (store, none) = rest store
  continued rest key (store, some e) = (store, some (key, e))

  -- The loop over the resources, which ends at the first error.
  unfoldable pub ensure_from :
      Store → Workload → Dict ResourceSpec → Store × Option (String × ClaimError)
  unfolding continued upsert_resource_claim
  ensure_from store w [] = (store, none)
  ensure_from store w ((key, resource) ∷ others) =
      continued (λ next. ensure_from next w others) key (upsert_resource_claim store w key resource)

  unfoldable pub ensure_claims : Store → Workload → Store × Option (String × ClaimError)
  unfolding ensure_from
  ensure_claims store w = ensure_from store w w.spec.resources

-- fmt.Sprintf("%s/%s", workload.Namespace, workload.Name)
unfoldable pub index_key : Workload → String
index_key w = joined w.namespace (joined "/" w.name)

-- The texts of the errors of a client without the index.
unfoldable pub lacks_index : String → Bool
lacks_index text =
    (text == "field label not supported: resourceclaim.workloadRef")
    || contains (codes text)
        (codes "no index with name resourceclaim.workloadRef has been registered")

module _ {Store : Type 0} (client : Client Store) where
  unfoldable pub get_resource_claims_without_index :
      Store → Workload → Result ApiError (List ResourceClaim)
  get_resource_claims_without_index store w =
      client.list_claims store (by_label (record { name = w.name; namespace = w.namespace }))

  unfoldable pub listed_claims :
      Store → Workload → Result ApiError (List ResourceClaim) → Result ApiError (List ResourceClaim)
  unfolding get_resource_claims_without_index lacks_index
  listed_claims store w (ok claims) = ok claims
  listed_claims store w (err e) =
      if lacks_index e.text then get_resource_claims_without_index store w else err e

  unfoldable pub get_claims : Store → Workload → Result ApiError (List ResourceClaim)
  unfolding listed_claims index_key
  get_claims store w = listed_claims store w (client.list_claims store (by_index (index_key w)))

-- The text of the error of EnsureClaims; `quoted` is the verb %q of fmt.
module _ (quoted : String → String) (w : Workload) (key : String) where
  cause_text : ClaimError → String
  unfolding claim_name
  cause_text (get_failed e) =
      joined "failed to get ResourceClaim " (joined (claim_name w key) (joined ": " e.text))
  cause_text (no_kind e) = joined "failed to get GVK for workload: " e
  cause_text (create_failed e) = joined "failed to create ResourceClaim: " e.text
  cause_text (update_failed e) = joined "failed to update ResourceClaim: " e.text

  unfoldable pub claim_error_text : ClaimError → String
  unfolding cause_text
  claim_error_text e =
      joined "failed to upsert ResourceClaim for key "
        (joined (quoted key) (joined ": " (cause_text e)))
