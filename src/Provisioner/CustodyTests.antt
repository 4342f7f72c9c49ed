-- ===== src/Provisioner/CustodyTests.antt =====
-- The strategies for redis and secret at a claim that is deleted with its Secret.
use score_orchestrator.Base.{
  Bool, ◌&&◌, ◌==◌, ◌≡◌, refl, Option, none, some, [], ◌∷◌, if◌then◌else◌,
}
use score_orchestrator.Base.Dict.{lookup, insert}
use score_orchestrator.Base.Result.{Result, ok, err}
use score_orchestrator.Api.Claim.{ResourceClaim, bound}
use score_orchestrator.Provisioner.Lifecycle
use score_orchestrator.Provisioner.Lifecycle.{resource_claim_finalizer, has_finalizer}
use score_orchestrator.Provisioner.Strategy.{get_strategy, register_strategy}
use score_orchestrator.Provisioner.Reconcile.{ApiError, not_found, refused, Client, reconcile}
use score_orchestrator.Provisioner.Secrets
use score_orchestrator.Provisioner.Secrets.{
  Secret, SecretClient, secret_of, secret_outputs, secret_selector, redis_strategy, secret_strategy,
}
use score_orchestrator.Provisioner.SecretWorld.{World, secrets, claim}

-- The server of the claim of the key.
abbrev is_own : ResourceClaim → Bool
is_own c = (c.name == "web-db") && (c.namespace == "shop")

abbrev read : Option ResourceClaim → Result ApiError ResourceClaim
read none = err not_found
read (some c) = if is_own c then ok c else err not_found

abbrev put :
    Option ResourceClaim
    → Option Secret
    → ResourceClaim
    → Result ApiError ResourceClaim
    → World × Result ApiError ResourceClaim
put o x c (err e) = ((o, x), err e)
put o x c (ok b) =
    if is_own c
    then ((some (record c { status = b.status }), x), ok (record c { status = b.status }))
    else ((o, x), err (refused "name"))

abbrev put_status :
    Option ResourceClaim
    → Option Secret
    → ResourceClaim
    → Result ApiError ResourceClaim
    → World × Result ApiError ResourceClaim
put_status o x c (err e) = ((o, x), err e)
put_status o x c (ok b) =
    ((some (record b { status = c.status }), x), ok (record b { status = c.status }))

abbrev server : Client World
server = record {
  get = λ w. read w.0;
  update = λ w c. put w.0 w.1 c (read w.0);
  update_status = λ w c. put_status w.0 w.1 c (read w.0);
}

answered : World × Result ApiError ResourceClaim → ResourceClaim → ResourceClaim
answered (w, ok c) d = c
answered (w, err e) d = d

-- The claim when it is bound and then deleted, with its Secret.
abbrev deleted_claim : ResourceClaim
deleted_claim = record claim {
  metadata = record claim.metadata {
    finalizers = resource_claim_finalizer ∷ [];
    deletion_timestamp = some 3;
  };
  status = record claim.status { phase = bound };
}

abbrev its_secret : Secret
its_secret = secret_of "-redis-secret" "redis" [] claim

abbrev held : World
held = (some deleted_claim, some its_secret)

-- The round deletes the Secret, and then takes off the finalizer.
round_deletes : (reconcile 5 server (secret_selector secrets) held).store ≡ (
  some (record deleted_claim { metadata = record deleted_claim.metadata { finalizers = [] } }),
  none,
)
unfolding reconcile has_finalizer Lifecycle.remove_finalizer Lifecycle.should_reconcile get_strategy
    register_strategy lookup insert redis_strategy secret_strategy Secrets.after_delete
round_deletes = refl
