-- ===== src/Exposure/Mirrored.antt =====
-- What the mirror of internal/controller/exposure_mirror_controller.go makes of a Workload.
use score_orchestrator.Base.{
  ℕ, ◌≤◌, String, true, false, not, ◌&&◌, ◌==◌, eq_iff, ◌≡◌, refl, ap, ◌∙◌, ◌⊎◌, inl, inr, Option,
  none, some, arith, Bool-cases, ltb,
}
use score_orchestrator.Base.Result.{ok}
use score_orchestrator.Api.Claim.{NamespacedName}
use score_orchestrator.Api.Workload.{Workload}
use score_orchestrator.Conditions.Laws.{shown}
use score_orchestrator.Exposure.Conditions.{
  last_of, or_before, or_false, find-mirror_each, mirror_each-kept,
}
use score_orchestrator.Exposure.Endpoint.{Shows, new_endpoint-Shows}
use score_orchestrator.Status.Normalize.{normalize_conditions}
use score_orchestrator.Exposure.{
  WorkloadExposure, find_condition, mirror_conditions, same_endpoint, new_endpoint, mirror_endpoint,
  mirror, ExposureClient, Mirroring, workload_key, unwritten, after_patch, mirror_to,
  after_workload, after_exposure, reconcile_exposure,
}

same_endpoint_lem : (a b : Option String) → same_endpoint a b ≡ true → a ≡ b
same_endpoint_lem none none h = refl
same_endpoint_lem (some a) (some b) h = ap some ((eq_iff a b).0 h)
same_endpoint_lem none (some b) h = cc
same_endpoint_lem (some a) none h = cc

module _ (parse_url : String → Option (String × String)) (w : Workload)
    (exposure : WorkloadExposure) where
  mirror_endpoint-endpoint : (mirror_endpoint parse_url w exposure).0 ≡ record w {
    status = record w.status { endpoint = new_endpoint parse_url exposure.status.exposures };
  }
  unfolding mirror_endpoint
  mirror_endpoint-endpoint =
      elim (Bool-cases
        (same_endpoint w.status.endpoint (new_endpoint parse_url exposure.status.exposures))) [
          | inl h ↦ rw h (λ i. record w {
            status = record w.status {
              endpoint =
                  same_endpoint_lem w.status.endpoint
                    (new_endpoint parse_url exposure.status.exposures) h i;
            };
          })
          | inr h ↦ rw h refl
        ]

  mirror_endpoint-kept :
      (mirror_endpoint parse_url w exposure).1 ≡ false
      → (mirror_endpoint parse_url w exposure).0 ≡ w
  unfolding mirror_endpoint
  mirror_endpoint-kept h = ground arith

  -- The workload that the mirror makes: the endpoint is that of the first exposure, if its URL is
  -- valid; each condition type says what the last normalized condition of it says, or what it said
  -- before; and all the rest is as it was.
  abbrev pub IsMirrored : Workload → Type 0
  IsMirrored new =
      Shows parse_url exposure.status.exposures new.status.endpoint
      × ((t : String)
          → shown (find_condition new.status.conditions t)
            ≡ shown (
                or_before (last_of t (normalize_conditions exposure.status.conditions))
                  (find_condition w.status.conditions t)))
      × (record new {
        status = record new.status {
          endpoint = w.status.endpoint;
          conditions = w.status.conditions;
        };
      }
          ≡ w)

  mirror-IsMirrored : (now : ℕ) → IsMirrored (mirror parse_url now w exposure).0
  unfolding mirror mirror_conditions
  mirror-IsMirrored now = rw mirror_endpoint-endpoint (
    new_endpoint-Shows parse_url exposure.status.exposures,
    find-mirror_each now (normalize_conditions exposure.status.conditions) w.status.conditions,
    refl,
  )

  mirror-kept :
      (now : ℕ)
      → (mirror parse_url now w exposure).1 ≡ false
      → (mirror parse_url now w exposure).0 ≡ w
  unfolding mirror mirror_conditions
  mirror-kept now h =
      let first = (mirror_endpoint parse_url w exposure).0 in
      let news = normalize_conditions exposure.status.conditions in
      let (here, later) = or_false (mirror_endpoint parse_url w exposure).1 _ h in
      (λ i. record first {
        status = record first.status {
          conditions = mirror_each-kept now news first.status.conditions later i;
        };
      })
      ∙ mirror_endpoint-kept here

module _ {Store : Type 0} (client : ExposureClient Store)
    (parse_url : String → Option (String × String)) where
  -- The store that a round leaves: the patch of the workload by a mirrored one, or nothing new where
  -- the workload is mirrored already.
  abbrev pub Mirrors : Store → WorkloadExposure → Workload → Mirroring Store → Type 0
  Mirrors store exposure w outcome =
      (new : Workload) × IsMirrored parse_url w exposure new
      × ((outcome ≡ after_patch (client.patch_status store w new))
          ⊎ ((new ≡ w) × (outcome ≡ unwritten store none)))

  after_tests :
      (now : ℕ) (store : Store) (exposure : WorkloadExposure) (w : Workload)
      → (exposure.spec.workload_ref.uid ≡ "") ⊎ (w.metadata.uid ≡ exposure.spec.workload_ref.uid)
      → w.metadata.generation ≤ exposure.spec.observed_workload_generation
      → Mirrors store exposure w (mirror_to client parse_url now store exposure w)
  unfolding mirror_to
  after_tests now store exposure w same current =
      let here : (not (exposure.spec.workload_ref.uid == "")
            && not (w.metadata.uid == exposure.spec.workload_ref.uid))
          ≡ false =
        ground (
          arith,
          same,
          eq_iff exposure.spec.workload_ref.uid "",
          eq_iff w.metadata.uid exposure.spec.workload_ref.uid,
        ) in
      let old : ltb exposure.spec.observed_workload_generation w.metadata.generation ≡ false =
        ground (arith, current) in
      rw (here, old)
        (
          (mirror parse_url now w exposure).0,
          mirror-IsMirrored parse_url w exposure now,
          elim (Bool-cases (mirror parse_url now w exposure).1) [
            | inl h ↦ rw h (inl refl)
            | inr h ↦ rw h (inr (mirror-kept parse_url w exposure now h, refl))
          ],
        )

  -- Where the exposure and the workload that it refers to are read, the uid of the reference is empty
  -- or that of the workload, and the exposure was computed for the workload's generation or a later
  -- one, there is a workload whose endpoint is the URL of the first exposure, if it is an http or
  -- https URL with a host, and none otherwise; in which each condition type says what the last
  -- normalized condition of it says, or what it said before; and that is in all else the workload
  -- that was read. Reconcile ends with the patch of the status by it, with its event or error; or it
  -- is the workload that was read, and Reconcile ends with no write, no event and no error.
  pub reconcile_exposure-Mirrors :
      (now : ℕ) (store : Store) (request : NamespacedName) (exposure : WorkloadExposure)
      (w : Workload)
      → client.get_exposure store request ≡ ok exposure
      → client.get_workload store (workload_key exposure) ≡ ok w
      → (exposure.spec.workload_ref.uid ≡ "") ⊎ (w.metadata.uid ≡ exposure.spec.workload_ref.uid)
      → w.metadata.generation ≤ exposure.spec.observed_workload_generation
      → Mirrors store exposure w (reconcile_exposure client parse_url now store request)
  unfolding reconcile_exposure after_exposure after_workload
  reconcile_exposure-Mirrors now store request exposure w got found same current =
      rw (got, found) (after_tests now store exposure w same current)
