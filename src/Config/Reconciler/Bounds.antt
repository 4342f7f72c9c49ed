-- ===== src/Config/Reconciler/Bounds.antt =====
-- The bounds that the settings of internal/config/reconciler_config.go keep in the loader of
-- reconciler_loader.go.
use score_orchestrator.Base.{
  ◌≡◌, refl, inl, inr, ◌↔◌, Bool, false, String, List, [], ◌∷◌, Bool-cases, subst, sym,
}
use score_orchestrator.Base.Int.{pos, ltb_ℤ}
use score_orchestrator.Base.Result.{Result, ok, err}
use score_orchestrator.Api.Config.{OrchestratorConfig}
use score_orchestrator.Config.Reconciler.{
  ReconcilerConfig, ReconcilerConfigLoader, LoaderError, config_not_found, other_error, ConfigEvent,
  added, modified, deleted, error, Yaml, at_most_zero, or_default, seconds,
  default_reconciler_config, validate, get_cached_config, cached, extract_reconciler_config,
  config_struct, load_config, handle_event,
}

-- What the loader is asked: to load, with what the ConfigMap's loader answers, or to take an event.
pub data Call : Type 0 where
  load : Result LoaderError OrchestratorConfig → Call
  event : ConfigEvent → Call

-- A value corrected by a test passes it, if the default does; one that passes is kept.
or_default-good {ℓ} :
    {A : Type ℓ} (bad : A → Bool) (value default_value : A)
    → bad default_value ≡ false
    → bad (or_default bad value default_value) ≡ false
or_default-good bad value default_value good = elim (Bool-cases (bad value)) [
  | inl wrong ↦ rw wrong good
  | inr right ↦ rw right right
]

or_default-kept {ℓ} :
    {A : Type ℓ} (bad : A → Bool) (value default_value : A)
    → bad value ≡ false
    → or_default bad value default_value ≡ value
or_default-kept bad value default_value right = rw right refl

module _ {Float : Type 0} (two : Float) (at_most_one : Float → Bool) where
  -- Every delay and timeout is positive, no retry count is negative, and the multiplier is not at
  -- most 1.
  abbrev pub IsInBounds : ReconcilerConfig Float → Type 0
  IsInBounds c =
      (at_most_zero c.retry.default_requeue_delay ≡ false)
      × (at_most_zero c.retry.conflict_requeue_delay ≡ false)
      × (ltb_ℤ c.retry.max_retries (pos 0) ≡ false)
      × (at_most_one c.retry.backoff_multiplier ≡ false)
      × (at_most_zero c.timeouts.claim_timeout ≡ false)
      × (at_most_zero c.timeouts.plan_timeout ≡ false)
      × (at_most_zero c.timeouts.status_timeout ≡ false)
      × (at_most_zero c.timeouts.deletion_timeout ≡ false)

  default-IsInBounds :
      at_most_one two ≡ false → IsInBounds (default_reconciler_config two at_most_one)
  default-IsInBounds good = (refl, refl, refl, good, refl, refl, refl, refl)

  validate-IsInBounds :
      at_most_one two ≡ false
      → (c : ReconcilerConfig Float) → IsInBounds (validate two at_most_one c)
  unfolding validate
  validate-IsInBounds good c = (
    or_default-good at_most_zero c.retry.default_requeue_delay (seconds 30) refl,
    or_default-good at_most_zero c.retry.conflict_requeue_delay (seconds 1) refl,
    or_default-good (λ n. ltb_ℤ n (pos 0)) c.retry.max_retries (pos 3) refl,
    or_default-good at_most_one c.retry.backoff_multiplier two good,
    or_default-good at_most_zero c.timeouts.claim_timeout (seconds 300) refl,
    or_default-good at_most_zero c.timeouts.plan_timeout (seconds 180) refl,
    or_default-good at_most_zero c.timeouts.status_timeout (seconds 30) refl,
    or_default-good at_most_zero c.timeouts.deletion_timeout (seconds 600) refl,
  )

  -- Validate changes no configuration that is in bounds.
  validate-kept : (c : ReconcilerConfig Float) → IsInBounds c → validate two at_most_one c ≡ c
  unfolding validate
  validate-kept c (d, r, n, m, t, p, s, e) =
      let kept = or_default-kept at_most_zero in
      λ i. record c {
        retry = record {
          default_requeue_delay = kept c.retry.default_requeue_delay (seconds 30) d i;
          conflict_requeue_delay = kept c.retry.conflict_requeue_delay (seconds 1) r i;
          max_retries = or_default-kept (λ k. ltb_ℤ k (pos 0)) c.retry.max_retries (pos 3) n i;
          backoff_multiplier = or_default-kept at_most_one c.retry.backoff_multiplier two m i;
        };
        timeouts = record {
          claim_timeout = kept c.timeouts.claim_timeout (seconds 300) t i;
          plan_timeout = kept c.timeouts.plan_timeout (seconds 180) p i;
          status_timeout = kept c.timeouts.status_timeout (seconds 30) s i;
          deletion_timeout = kept c.timeouts.deletion_timeout (seconds 600) e i;
        };
      }

  -- Where 2.0 is more than 1.0, Validate leaves exactly the configurations in bounds as they are.
  validate_iff :
      at_most_one two ≡ false
      → (c : ReconcilerConfig Float) → IsInBounds c ↔ (validate two at_most_one c ≡ c)
  validate_iff good c =
      (validate-kept c, λ fixed. subst IsInBounds fixed (validate-IsInBounds good c))

  module _ {Section : Type 0} (yaml : Yaml Section Float) where
    -- What a call leaves behind, and what it reports.
    abbrev pub step :
        ReconcilerConfigLoader Float
        → Call
        → ReconcilerConfigLoader Float × Result String (ReconcilerConfig Float)
    step loader (load answer) = load_config two at_most_one yaml loader answer
    step loader (event e) = handle_event two at_most_one yaml loader e

    -- A reported configuration is in bounds and is the cached one; with an error the loader stays
    -- as it was.
    abbrev pub IsCached :
        ReconcilerConfigLoader Float
        → ReconcilerConfigLoader Float × Result String (ReconcilerConfig Float)
        → Type 0
    IsCached before (after, ok c) = IsInBounds c × (get_cached_config two at_most_one after ≡ c)
    IsCached before (after, err e) = after ≡ before

    -- A load that finds no configuration reports the default one, and caches nothing.
    abbrev pub IsServed :
        ReconcilerConfigLoader Float
        → Call
        → ReconcilerConfigLoader Float × Result String (ReconcilerConfig Float)
        → Type 0
    IsServed before (load (err config_not_found)) (after, result) =
        (after ≡ before) × (result ≡ ok (default_reconciler_config two at_most_one))
    IsServed before (load (err (other_error e))) outcome = IsCached before outcome
    IsServed before (load (ok config)) outcome = IsCached before outcome
    IsServed before (event e) outcome = IsCached before outcome

    -- Each call of a sequence is served, and the cached configuration is in bounds after each.
    abbrev pub Serves : ReconcilerConfigLoader Float → List Call → Type 0
    Serves loader [] = IsInBounds (get_cached_config two at_most_one loader)
    Serves loader (call ∷ calls) =
        IsInBounds (get_cached_config two at_most_one loader)
        × IsServed loader call (step loader call)
        × Serves (step loader call).0 calls

    module _ (good : at_most_one two ≡ false) where
      cached-IsCached :
          (context : String) (loader : ReconcilerConfigLoader Float)
          (extracted : Result String (ReconcilerConfig Float))
          → IsCached loader (cached two at_most_one yaml context loader extracted)
      unfolding cached
      cached-IsCached context loader (err e) = refl
      cached-IsCached context loader (ok c) = (validate-IsInBounds good c, refl)

      step-IsServed :
          (loader : ReconcilerConfigLoader Float) (call : Call)
          → IsServed loader call (step loader call)
      unfolding load_config handle_event
      step-IsServed loader (load (err config_not_found)) = (refl, refl)
      step-IsServed loader (load (err (other_error e))) = refl
      step-IsServed loader (load (ok config)) =
          cached-IsCached "failed to extract reconciler config: " loader
            (extract_reconciler_config two at_most_one yaml (config_struct config))
      step-IsServed loader (event (error e)) = refl
      step-IsServed loader (event deleted) = (default-IsInBounds good, refl)
      step-IsServed loader (event (added config)) =
          cached-IsCached "failed to extract reconciler config from updated config: " loader
            (extract_reconciler_config two at_most_one yaml (config_struct config))
      step-IsServed loader (event (modified config)) =
          cached-IsCached "failed to extract reconciler config from updated config: " loader
            (extract_reconciler_config two at_most_one yaml (config_struct config))

      cached-IsInBounds :
          (before : ReconcilerConfigLoader Float)
          (outcome : ReconcilerConfigLoader Float × Result String (ReconcilerConfig Float))
          → IsInBounds (get_cached_config two at_most_one before)
          → IsCached before outcome
          → IsInBounds (get_cached_config two at_most_one outcome.0)
      cached-IsInBounds before (after, ok c) h (b, e) = subst IsInBounds (sym e) b
      cached-IsInBounds before (after, err e) h kept =
          subst (λ l. IsInBounds (get_cached_config two at_most_one l)) (sym kept) h

      served-IsInBounds :
          (before : ReconcilerConfigLoader Float) (call : Call)
          (outcome : ReconcilerConfigLoader Float × Result String (ReconcilerConfig Float))
          → IsInBounds (get_cached_config two at_most_one before)
          → IsServed before call outcome
          → IsInBounds (get_cached_config two at_most_one outcome.0)
      served-IsInBounds before (load (err config_not_found)) (after, r) h (kept, e) =
          subst (λ l. IsInBounds (get_cached_config two at_most_one l)) (sym kept) h
      served-IsInBounds before (load (err (other_error t))) o h s = cached-IsInBounds before o h s
      served-IsInBounds before (load (ok config)) o h s = cached-IsInBounds before o h s
      served-IsInBounds before (event e) o h s = cached-IsInBounds before o h s

      -- Where 2.0 is more than 1.0 and the cached configuration is in bounds, then in any sequence
      -- of loads and watched events: the cached configuration stays in bounds (each delay and
      -- timeout is positive, the retries are not negative, the multiplier is not at most 1); a load
      -- that finds no ConfigMap reports the default configuration and leaves the loader as it was;
      -- of every other call, a configuration that it reports is in bounds and is the cached one
      -- after it, and with an error it leaves the loader as it was.
      pub handle_event-Serves :
          (loader : ReconcilerConfigLoader Float) (calls : List Call)
          → IsInBounds (get_cached_config two at_most_one loader)
          → Serves loader calls
      handle_event-Serves loader [] h = h
      handle_event-Serves loader (call ∷ calls) h =
          let served = step-IsServed loader call in
          (
            h,
            served,
            handle_event-Serves (step loader call).0 calls
                (served-IsInBounds loader call (step loader call) h served),
          )
