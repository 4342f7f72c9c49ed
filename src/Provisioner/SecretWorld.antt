-- ===== src/Provisioner/SecretWorld.antt =====
-- A store with at most one claim and one Secret, for the tests.
use score_orchestrator.Base.{
  Bool, true, false, ◌&&◌, ◌==◌, eq_iff, ◌≡◌, Option, none, some, [], arith, if◌then◌else◌,
}
use score_orchestrator.Base.Result.{Result, ok, err}
use score_orchestrator.Api.Meta.{OwnerReference}
use score_orchestrator.Api.Claim.{NamespacedName, ResourceClaim, unset}
use score_orchestrator.Workloads
use score_orchestrator.Workloads.{is_not_found}
use score_orchestrator.Provisioner.Secrets.{Secret, SecretClient, key_of}

abbrev pub World : Type 0
World = Option ResourceClaim × Option Secret

abbrev pub key : NamespacedName
key = record { name = "web-db"; namespace = "shop" }

abbrev pub same_key : NamespacedName → NamespacedName → Bool
same_key a b = (a.name == b.name) && (a.namespace == b.namespace)

pub same_key_iff : (a b : NamespacedName) → (same_key a b ≡ true) → a ≡ b
same_key_iff a b h =
    let n : a.name ≡ b.name =
      ground (arith, eq_iff a.name b.name, eq_iff a.namespace b.namespace) in
    let ns : a.namespace ≡ b.namespace =
      ground (arith, eq_iff a.name b.name, eq_iff a.namespace b.namespace) in
    λ i. record { name = n i; namespace = ns i }

-- The Secret that there is.
abbrev pub missing : Workloads.ApiError
missing = record { kind = Workloads.not_found; text = "not found" }

abbrev pub find_secret : Option Secret → NamespacedName → Result Workloads.ApiError Secret
find_secret none name = err missing
find_secret (some x) name = if same_key (key_of x) name then ok x else err missing

abbrev pub remove : Option Secret → NamespacedName → Option Secret × Option Workloads.ApiError
remove none name = (none, some missing)
remove (some x) name = if same_key (key_of x) name then (none, none) else (some x, some missing)

abbrev pub owner : ResourceClaim → OwnerReference
owner c = record {
  kind = "ResourceClaim";
  name = c.name;
  uid = c.uid;
  controller = true;
  block_owner_deletion = true;
}

abbrev pub secrets : SecretClient World
secrets = record {
  get_secret = λ w name. find_secret w.1 name;
  create_secret = λ w x. ((w.0, some x), none);
  delete_secret = λ w name. ((w.0, (remove w.1 name).0), (remove w.1 name).1);
  owner = λ c. ok (owner c);
  random_text = λ length. ok "c2VjcmV0LXRleHQtb2YtcmFuZG9tLWJ5dGVz";
}

pub not_found_ne :
    {e : Workloads.ApiError} {y : Secret}
    → ¬ ◌≡◌ {A = Result Workloads.ApiError Secret} (err e) (ok y)
not_found_ne q = absurd cc

abbrev pub claim : ResourceClaim
claim = record {
  metadata = record {
    name = "web-db";
    namespace = "shop";
    uid = "u1";
    generation = 1;
    labels = [];
    annotations = [];
    finalizers = [];
    owner_references = [];
    deletion_timestamp = none;
  };
  spec = record {
    workload_ref = record { name = "web"; namespace = "shop" };
    key = "db";
    type = "redis";
    class = none;
    id = none;
    params = none;
    deprovision_policy = none;
  };
  status = record {
    phase = unset;
    reason = "";
    message = "";
    outputs = none;
    outputs_available = false;
    observed_generation = 0;
    last_transition_time = none;
  };
}
