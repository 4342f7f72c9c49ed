-- ===== src/Provisioner/Custody/Creates.antt =====
-- What the strategies of internal/provisioner/strategy/redis and secret do to the Secrets.
use score_orchestrator.Base.{
  String, true, ◌≡◌, refl, sym, ◌∙◌, ap, subst, ◌⊎◌, inl, inr, Option, none, some, [], ◌∷◌, ◌==◌,
  eq_iff, Bool-cases, if◌then◌else◌,
}
use mathlib.Core.Bool.{false≢true}
use score_orchestrator.Base.Dict.{lookup}
use score_orchestrator.Base.Text.{joined}
use score_orchestrator.Base.Result.{Result, ok, err}
use score_orchestrator.Api.Meta.{OwnerReference}
use score_orchestrator.Api.Claim.{NamespacedName, ResourceClaim}
use score_orchestrator.Workloads.{ApiError, is_not_found}
use score_orchestrator.Provisioner.Strategy.{
  Strategy, get_strategy, get_strategy-register_strategy, register_strategy,
}
use score_orchestrator.Provisioner.Reconcile.{Client}
use score_orchestrator.Provisioner.Secrets.{
  Secret, SecretClient, key_of, secret_key, redis_secret, token_secret, generate_random_password,
  generate_random_token, after_create, after_check, after_owner, provide_redis, after_delete,
  redis_strategy, secret_strategy, secret_selector,
}

some_ne : {x : String} → ¬ ◌≡◌ {A = Option String} (some x) none
some_ne e = absurd cc

pub redis_ne : ◌≡◌ {A = String} "redis" "secret" → ⊥
redis_ne e = false≢true ((eq_iff "redis" "secret").1 e)

pub suffix_ne : ◌≡◌ {A = String} "-redis-secret" "-secret" → ⊥
suffix_ne e = false≢true ((eq_iff "-redis-secret" "-secret").1 e)

module _ {Store : Type 0} (secrets : SecretClient Store) where
  -- There is a Secret of the name.
  abbrev pub Stored : Store → NamespacedName → Type 0
  Stored s name = (x : Secret) × (secrets.get_secret s name ≡ ok x)

  abbrev pub named : String → NamespacedName → NamespacedName
  named suffix key = record { name = joined key.name suffix; namespace = key.namespace }

  -- What a claim of the key may hold: the Secret that Redis credentials are in, for the type redis,
  -- and that of a token, for the type secret.
  abbrev pub HoldsSecret : NamespacedName → Store → String → Type 0
  HoldsSecret key s type =
      ((type ≡ "redis") × Stored s (named "-redis-secret" key))
      ⊎ ((type ≡ "secret") × Stored s (named "-secret" key))

  -- The API server: a creation adds no Secret but the one that it is given, a deletion adds none, and
  -- leaves none of its name if it succeeds or finds none; neither changes the claim, and the claim
  -- that is stored has the key's name.
  pub record KeepsSecrets (client : Client Store) (key : NamespacedName) : Type 0 where
    pub has_key :
        (s : Store) (c : ResourceClaim)
        → client.get s ≡ ok c
        → (c.name ≡ key.name) × (c.namespace ≡ key.namespace)
    pub create-get :
        (s : Store) (x : Secret) → client.get (secrets.create_secret s x).0 ≡ client.get s
    pub create-adds :
        (s : Store) (x : Secret) (name : NamespacedName)
        → Stored (secrets.create_secret s x).0 name
        → Stored s name ⊎ (key_of x ≡ name)
    pub delete-get :
        (s : Store) (name : NamespacedName)
        → client.get (secrets.delete_secret s name).0 ≡ client.get s
    pub delete-keeps :
        (s : Store) (name other : NamespacedName)
        → Stored (secrets.delete_secret s name).0 other
        → Stored s other
    pub delete-frees :
        (s : Store) (name : NamespacedName)
        → (secrets.delete_secret s name).1 ≡ none
        → ¬ Stored (secrets.delete_secret s name).0 name
    pub delete-not_found :
        (s : Store) (name : NamespacedName) (e : ApiError)
        → (secrets.delete_secret s name).1 ≡ some e
        → is_not_found e.kind ≡ true
        → ¬ Stored (secrets.delete_secret s name).0 name

  -- Provision leaves the store as it was, or with what one creation of a Secret of the name left.
  abbrev pub CreatesOnly : Store → NamespacedName → Store → Type 0
  CreatesOnly s name t =
      (t ≡ s) ⊎ ((x : Secret) × (key_of x ≡ name) × (t ≡ (secrets.create_secret s x).0))

  after_create-store :
      (x : Secret) (a : Store × Option ApiError) → (after_create secrets x a).0 ≡ a.0
  unfolding after_create
  after_create-store x (s, none) = refl
  after_create-store x (s, some e) = refl

  check-CreatesOnly :
      (s : Store) (x : Secret) (a : Result ApiError Secret)
      → CreatesOnly s (key_of x) (after_check secrets s x a).0
  unfolding after_check
  check-CreatesOnly s x (ok there) = inl refl
  check-CreatesOnly s x (err e) = elim (Bool-cases (is_not_found e.kind)) [
    | inl h ↦ rw h (inr (x, refl, after_create-store x (secrets.create_secret s x)))
    | inr h ↦ rw h (inl refl)
  ]

  owner-CreatesOnly :
      (s : Store) (x : Secret) (o : Result String OwnerReference)
      → CreatesOnly s (key_of x) (after_owner secrets s x o).0
  unfolding after_owner
  owner-CreatesOnly s x (err e) = inl refl
  owner-CreatesOnly s x (ok o) = check-CreatesOnly s (record x { owner_references = o ∷ [] }) _

  redis-CreatesOnly :
      (s : Store) (c : ResourceClaim) (p : Result String String)
      → CreatesOnly s (secret_key "-redis-secret" c) (provide_redis secrets s c p).0
  unfolding provide_redis
  redis-CreatesOnly s c (err e) = inl refl
  redis-CreatesOnly s c (ok password) = owner-CreatesOnly s (redis_secret password c) _

  pub after_delete-store :
      (m : String) (a : Store × Option ApiError) → (after_delete secrets m a).0 ≡ a.0
  unfolding after_delete
  after_delete-store m (s, none) = refl
  after_delete-store m (s, some e) = elim (Bool-cases (is_not_found e.kind)) [
    | inl h ↦ rw h refl
    | inr h ↦ rw h refl
  ]

  pub after_delete-clean :
      (m : String) (a : Store × Option ApiError)
      → (after_delete secrets m a).1 ≡ none
      → (a.1 ≡ none) ⊎ ((e : ApiError) × (a.1 ≡ some e) × (is_not_found e.kind ≡ true))
  unfolding after_delete
  after_delete-clean m (s, none) h = inl refl
  after_delete-clean m (s, some e) h = elim (Bool-cases (is_not_found e.kind)) [
    | inl q ↦ inr (e, refl, q)
    | inr q ↦ absurd (some_ne (rw q at h))
  ]

  -- A strategy that provides the Secret with a suffix, and deletes it.
  abbrev pub IsFor : String → Strategy Store → Type 0
  IsFor suffix p =
      ((s : Store) (c : ResourceClaim) → CreatesOnly s (secret_key suffix c) (p.provision s c).0)
      × ((m : String) × ((s : Store) (c : ResourceClaim)
            → p.deprovision s c
              ≡ after_delete secrets m (secrets.delete_secret s (secret_key suffix c))))

  redis_strategy-IsFor : IsFor "-redis-secret" (redis_strategy secrets)
  unfolding redis_strategy
  redis_strategy-IsFor = (
    λ s c. redis-CreatesOnly s c (generate_random_password secrets 16),
    ("failed to delete redis secret: ", λ s c. refl),
  )

  secret_strategy-IsFor : IsFor "-secret" (secret_strategy secrets)
  unfolding secret_strategy
  secret_strategy-IsFor = (
    λ s c. owner-CreatesOnly s (token_secret (generate_random_token secrets 32) c) _,
    ("failed to delete secret: ", λ s c. refl),
  )

  pub selected :
      (type : String)
      → get_strategy type (secret_selector secrets) ≡ (
          if "secret" == type
          then some (secret_strategy secrets)
          else if "redis" == type
          then some (redis_strategy secrets)
          else none)
  unfolding redis_strategy secret_strategy get_strategy lookup
  selected type =
      let first =
        register_strategy (redis_strategy secrets) (record { strategies = []; configs = [] }) in
      get_strategy-register_strategy type (secret_strategy secrets) first
      ∙ ap (λ o. if "secret" == type then some (secret_strategy secrets) else o)
          (get_strategy-register_strategy type (redis_strategy secrets)
            (record { strategies = []; configs = [] }))

  -- The strategy of a type is the one that is registered for it.
  pub found_strategy :
      (type : String) (p : Strategy Store)
      → get_strategy type (secret_selector secrets) ≡ some p
      → ((type ≡ "redis") × IsFor "-redis-secret" p) ⊎ ((type ≡ "secret") × IsFor "-secret" p)
  found_strategy type p e = elim (Bool-cases ("secret" == type)) [
    | inl h ↦
        let same = some_same (rw h at (sym (selected type) ∙ e)) in
        inr (sym ((eq_iff "secret" type).0 h), subst (IsFor "-secret") same secret_strategy-IsFor)
    | inr h ↦ elim (Bool-cases ("redis" == type)) [
      | inl q ↦
          let same = some_same (rw (h, q) at (sym (selected type) ∙ e)) in
          inl (
            sym ((eq_iff "redis" type).0 q),
            subst (IsFor "-redis-secret") same redis_strategy-IsFor,
          )
      | inr q ↦ absurd (none_ne (rw (h, q) at (sym (selected type) ∙ e)))
    ]
  ]
    where
      some_same :
          {x y : Strategy Store} → ◌≡◌ {A = Option (Strategy Store)} (some x) (some y) → x ≡ y
      some_same q = cc

      none_ne : {x : Strategy Store} → ¬ ◌≡◌ {A = Option (Strategy Store)} none (some x)
      none_ne q = absurd cc
