-- ===== src/Provisioner/Converges/Secrets.antt =====
-- A new claim of the types redis and secret (internal/provisioner/strategy) is bound to its Secret.
use score_orchestrator.Base.{ℕ, String, true, ◌≡◌, ◌⊎◌, Option, none, some}
use score_orchestrator.Base.Text.{joined}
use score_orchestrator.Base.Result.{Result, ok, err}
use score_orchestrator.Api.Meta.{OwnerReference}
use score_orchestrator.Api.Claim.{NamespacedName, ResourceClaim, ResourceClaimOutputs}
use score_orchestrator.Workloads.{ApiError, is_not_found}
use score_orchestrator.Provisioner.Strategy.{Strategy}
use score_orchestrator.Provisioner.Reconcile.{Client}
use score_orchestrator.Provisioner.Secrets.{Secret, SecretClient, secret_outputs}

-- An API server that answers each read of a Secret, with one or with none, and takes each new one
-- without a change of the claim; SetControllerReference and rand.Read do not fail.
pub record TakesSecrets {Store : Type 0} (client : Client Store) (secrets : SecretClient Store)
    : Type 0 where
  pub answers :
      (s : Store) (name : NamespacedName)
      → ((x : Secret) × (secrets.get_secret s name ≡ ok x))
        ⊎ ((e : ApiError) × (secrets.get_secret s name ≡ err e) × (is_not_found e.kind ≡ true))
  pub takes : (s : Store) (x : Secret) → (secrets.create_secret s x).1 ≡ none
  pub create-get :
      (s : Store) (x : Secret) → client.get (secrets.create_secret s x).0 ≡ client.get s
  pub owned : (c : ResourceClaim) → (o : OwnerReference) × (secrets.owner c ≡ ok o)
  pub random : (length : ℕ) → (text : String) × (secrets.random_text length ≡ ok text)

-- The name of the Secret that a claim is given.
abbrev pub IsSecretOf : ResourceClaim → String → Type 0
IsSecretOf c name =
    ((c.spec.type ≡ "redis") × (name ≡ joined c.name "-redis-secret"))
    ⊎ ((c.spec.type ≡ "secret") × (name ≡ joined c.name "-secret"))

module _ {Store : Type 0} (client : Client Store) (secrets : SecretClient Store)
    (server : TakesSecrets client secrets) where
  -- Outputs with the Secret of a name, and the claim left alone.
  abbrev Gives : Store → String → Store × Result String (Option ResourceClaimOutputs) → Type 0
  Gives s name a = (a.1 ≡ ok (some (secret_outputs name))) × (client.get a.0 ≡ client.get s)
