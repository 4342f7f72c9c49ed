-- ===== src/Provisioner/Secrets.antt =====
-- internal/provisioner/strategy/redis/redis_strategy.go and secret/secret_strategy.go: the strategies
-- that provide a Secret. The API server for Secrets, SetControllerReference and crypto/rand with
-- base64 are parameters.
use score_orchestrator.Base.{ℕ, zero, suc, String, Option, none, some, List, [], ◌∷◌, if◌then◌else◌}
use score_orchestrator.Base.Dict.{Dict}
use score_orchestrator.Base.Text.{joined}
use score_orchestrator.Base.Result.{Result, ok, err}
use score_orchestrator.Api.Meta.{OwnerReference}
use score_orchestrator.Api.Claim.{
  NamespacedName, ResourceClaim, ResourceClaimOutputs, ClaimPhase, claiming, bound,
}
use score_orchestrator.Provisioner.Strategy.{Strategy, Selector, register_strategy}
use score_orchestrator.Workloads.{ApiError, is_not_found}

-- corev1.Secret, by what the strategies set.
pub record Secret : Type 0 where
  pub name : String
  pub namespace : String
  pub labels : Dict String
  pub owner_references : List OwnerReference
  pub contents : Dict String

abbrev pub key_of : Secret → NamespacedName
key_of s = record { name = s.name; namespace = s.namespace }

-- client.Client at Secrets; SetControllerReference; and the base64 text of so many random bytes, or
-- the error of rand.Read.
pub record SecretClient (Store : Type 0) : Type 0 where
  pub get_secret : Store → NamespacedName → Result ApiError Secret
  pub create_secret : Store → Secret → Store × Option ApiError
  pub delete_secret : Store → NamespacedName → Store × Option ApiError
  pub owner : ResourceClaim → Result String OwnerReference
  pub random_text : ℕ → Result String String

-- s[:n], and s where it is shorter.
unfoldable pub cut : ℕ → String → String
cut zero s = ""
cut (suc n) String.[] = ""
cut (suc n) (String.◌∷◌ c s) = String.◌∷◌ c (cut n s)

abbrev pub secret_key : String → ResourceClaim → NamespacedName
secret_key suffix claim = record { name = joined claim.name suffix; namespace = claim.namespace }

abbrev pub secret_of : String → String → Dict String → ResourceClaim → Secret
secret_of suffix type contents claim = record {
  name = joined claim.name suffix;
  namespace = claim.namespace;
  labels = ("score.dev/resource-claim", claim.name) ∷ ("score.dev/resource-type", type) ∷ [];
  owner_references = [];
  contents = contents;
}

abbrev pub secret_outputs : String → ResourceClaimOutputs
secret_outputs name = record {
  secret_ref = some (record { name = name });
  config_map_ref = none;
  uri = none;
  image = none;
  cert = none;
}

abbrev pub redis_uri : String → String → String → String
redis_uri password host port =
    joined "redis://:" (joined password (joined "@" (joined host (joined ":" port))))

abbrev pub redis_secret : String → ResourceClaim → Secret
redis_secret password claim =
    let host = joined claim.name "-redis-service" in
    secret_of "-redis-secret" "redis"
      (("password", password)
        ∷ ("host", host)
        ∷ ("port", "6379")
        ∷ ("uri", redis_uri password host "6379")
        ∷ [])
      claim

abbrev pub token_secret : String → ResourceClaim → Secret
token_secret token claim =
    secret_of "-secret" "secret" (("username", "user") ∷ ("token", token) ∷ []) claim

module _ {Store : Type 0} (secrets : SecretClient Store) where
  abbrev pub Provided : Type 0
  Provided = Store × Result String (Option ResourceClaimOutputs)

  unfoldable pub generate_random_password : ℕ → Result String String
  generate_random_password length = elim (secrets.random_text length) [
    | err e ↦ err e
    | ok text ↦ ok (cut length text)
  ]

  -- The only length that is asked for is 32.
  unfoldable pub generate_random_token : ℕ → String
  generate_random_token length = elim (secrets.random_text length) [
    | err e ↦ "fallback-token-32"
    | ok text ↦ cut length text
  ]

  unfoldable pub after_create : Secret → Store × Option ApiError → Provided
  after_create secret (store, some e) = (store, err (joined "failed to create secret: " e.text))
  after_create secret (store, none) = (store, ok (some (secret_outputs secret.name)))

  -- What follows the check for a Secret of that name, by its answer.
  unfoldable pub after_check : Store → Secret → Result ApiError Secret → Provided
  after_check store secret (ok there) = (store, ok (some (secret_outputs secret.name)))
  after_check store secret (err e) =
      if is_not_found e.kind
      then after_create secret (secrets.create_secret store secret)
      else (store, err (joined "failed to check existing secret: " e.text))

  unfoldable pub after_owner : Store → Secret → Result String OwnerReference → Provided
  after_owner store secret (err e) = (store, err (joined "failed to set owner reference: " e))
  after_owner store secret (ok reference) =
      after_check store (record secret { owner_references = reference ∷ [] })
        (secrets.get_secret store (key_of secret))

  unfoldable pub provide_redis : Store → ResourceClaim → Result String String → Provided
  provide_redis store claim (err e) = (store, err (joined "failed to generate password: " e))
  provide_redis store claim (ok password) =
      after_owner store (redis_secret password claim) (secrets.owner claim)

  unfoldable pub after_delete : String → Store × Option ApiError → Store × Option String
  after_delete message (store, none) = (store, none)
  after_delete message (store, some e) =
      if is_not_found e.kind then (store, none) else (store, some (joined message e.text))

  -- A status check of which the error is not that there is no Secret ends with that error.
  unfoldable pub secret_status :
      String → String → Result ApiError Secret → Result String (ClaimPhase × String × String)
  secret_status creating available (ok secret) = ok (bound, "Succeeded", available)
  secret_status creating available (err e) =
      if is_not_found e.kind then ok (claiming, "SecretCreating", creating) else err e.text

  unfoldable pub redis_strategy : Strategy Store
  redis_strategy = record {
    type = "redis";
    provision = λ store claim. provide_redis store claim (generate_random_password 16);
    deprovision = λ store claim.
        after_delete "failed to delete redis secret: "
          (secrets.delete_secret store (secret_key "-redis-secret" claim));
    get_status = λ store claim.
        secret_status "Redis secret is being created" "Redis credentials are available"
          (secrets.get_secret store (secret_key "-redis-secret" claim));
  }

  unfoldable pub secret_strategy : Strategy Store
  secret_strategy = record {
    type = "secret";
    provision = λ store claim.
        after_owner store (token_secret (generate_random_token 32) claim) (secrets.owner claim);
    deprovision = λ store claim.
        after_delete "failed to delete secret: "
          (secrets.delete_secret store (secret_key "-secret" claim));
    get_status = λ store claim.
        secret_status "Secret is being created" "Secret is available"
          (secrets.get_secret store (secret_key "-secret" claim));
  }

  -- A selector with these two strategies.
  abbrev pub secret_selector : Selector Store
  secret_selector =
      register_strategy secret_strategy
        (register_strategy redis_strategy (record { strategies = []; configs = [] }))
