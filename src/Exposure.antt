-- ===== src/Exposure.antt =====
-- internal/controller/exposure_mirror_controller.go and the types of
-- api/v1b1/workloadexposure_types.go. `now` is the clock, and `parse_url` is url.Parse of net/url: the
-- scheme and the host, or none for its error. A time of 0 is the zero time.
pub mod Conditions
pub mod Endpoint
pub mod Mirrored
mod Tests
use score_orchestrator.Base.{
  ℕ, String, Bool, true, false, not, ◌&&◌, ◌||◌, ◌==◌, Option, none, some, List, [], ◌∷◌, ltb, eqb,
  is_empty, if◌then◌else◌,
}
use score_orchestrator.Base.Result.{Result, ok, err}
use score_orchestrator.Base.Text.{joined}
use score_orchestrator.Api.Meta.{Condition, ObjectMeta}
use score_orchestrator.Api.Claim.{NamespacedName}
use score_orchestrator.Api.Workload.{Workload}
use score_orchestrator.Conditions.{same_status}
use score_orchestrator.Status.Normalize.{normalize_conditions}
use score_orchestrator.Provisioner.Phases.{Event, normal, event}
use score_orchestrator.Workloads.{ApiError, is_not_found}

pub record WorkloadExposureWorkloadRef : Type 0 where
  pub name : String
  pub namespace : Option String
  pub uid : String

pub record WorkloadExposureSpec : Type 0 where
  pub workload_ref : WorkloadExposureWorkloadRef
  pub observed_workload_generation : ℕ
  pub runtime_class : String

pub record ExposureEntry : Type 0 where
  pub name : String
  pub url : String
  pub type : String
  pub ready : Bool
  pub scope : String
  pub scheme_hint : String
  pub reachable : Option Bool

pub record WorkloadExposureStatus : Type 0 where
  pub exposures : List ExposureEntry
  pub conditions : List Condition

pub record WorkloadExposure : Type 0 where
  pub metadata : ObjectMeta
  pub spec : WorkloadExposureSpec
  pub status : WorkloadExposureStatus

unfoldable pub find_condition : List Condition → String → Option Condition
find_condition [] type = none
find_condition (c ∷ cs) type = if c.type == type then some c else find_condition cs type

-- The condition that is there, with what the new one says.
abbrev pub updated_condition : ℕ → Condition → Condition → Condition
updated_condition now new c = record c {
  status = new.status;
  reason = new.reason;
  message = new.message;
  time = if same_status c.status new.status then c.time else now;
}

abbrev pub with_time : ℕ → Condition → Condition
with_time now new = record new { time = if eqb new.time 0 then now else new.time }

unfoldable pub set_status_condition : ℕ → Condition → List Condition → List Condition
set_status_condition now new [] = with_time now new ∷ []
set_status_condition now new (c ∷ cs) =
    if c.type == new.type
    then updated_condition now new c ∷ cs
    else c ∷ set_status_condition now new cs

-- Whether a condition would change anything.
unfoldable pub changes : Option Condition → Condition → Bool
changes none new = true
changes (some c) new =
    not (same_status c.status new.status)
    || not (c.reason == new.reason)
    || not (c.message == new.message)

-- One round of the loop of mirrorConditions.
unfoldable pub mirror_condition : ℕ → Condition → List Condition → List Condition × Bool
mirror_condition now new cs =
    if changes (find_condition cs new.type) new
    then (set_status_condition now new cs, true)
    else (cs, false)

-- The loop, and whether any round updated a condition.
unfoldable pub mirror_each : ℕ → List Condition → List Condition → List Condition × Bool
mirror_each now [] cs = (cs, false)
mirror_each now (new ∷ news) cs =
    let (next, here) = mirror_condition now new cs in
    let (last, later) = mirror_each now news next in (last, here || later)

unfoldable pub mirror_conditions : ℕ → Workload → WorkloadExposure → Workload × Bool
mirror_conditions now w exposure =
    let (conditions, updated) =
      mirror_each now (normalize_conditions exposure.status.conditions) w.status.conditions in
    (record w { status = record w.status { conditions = conditions } }, updated)

abbrev pub same_endpoint : Option String → Option String → Bool
same_endpoint none none = true
same_endpoint (some a) (some b) = a == b
same_endpoint none (some b) = false
same_endpoint (some a) none = false

module _ (parse_url : String → Option (String × String)) where
  unfoldable pub is_valid_url : String → Bool
  is_valid_url raw = if raw == "" then false else elim (parse_url raw) [
    | none ↦ false
    | some (scheme, host) ↦ (scheme == "http" || scheme == "https") && not (host == "")
  ]

  -- The endpoint of the first exposure, if its URL is valid.
  unfoldable pub new_endpoint : List ExposureEntry → Option String
  new_endpoint [] = none
  new_endpoint (top ∷ others) = if is_valid_url top.url then some top.url else none

  unfoldable pub mirror_endpoint : Workload → WorkloadExposure → Workload × Bool
  mirror_endpoint w exposure =
      let endpoint = new_endpoint exposure.status.exposures in
      if same_endpoint w.status.endpoint endpoint
      then (w, false)
      else (record w { status = record w.status { endpoint = endpoint } }, true)

  -- Both mirrors, and whether one of them changed the workload.
  unfoldable pub mirror : ℕ → Workload → WorkloadExposure → Workload × Bool
  mirror now w exposure =
      let (first, updated) = mirror_endpoint w exposure in
      let (second, conditions_updated) = mirror_conditions now first exposure in
      (second, updated || conditions_updated)

-- client.Client, at the calls of the mirror. A patch of the status is given the workload that was
-- read and the one to store, and gives back the one that the server answers with.
pub record ExposureClient (Store : Type 0) : Type 0 where
  pub get_exposure : Store → NamespacedName → Result ApiError WorkloadExposure
  pub get_workload : Store → NamespacedName → Result ApiError Workload
  pub patch_status : Store → Workload → Workload → Store × Result ApiError Workload

pub record Mirroring (Store : Type 0) : Type 0 where
  pub store : Store
  pub events : List Event
  pub failure : Option ApiError

-- client.IgnoreNotFound
abbrev pub ignore_not_found : ApiError → Option ApiError
ignore_not_found e = if is_not_found e.kind then none else some e

abbrev pub workload_key : WorkloadExposure → NamespacedName
workload_key exposure = record {
  name = exposure.spec.workload_ref.name;
  namespace = elim exposure.spec.workload_ref.namespace [
    | none ↦ exposure.metadata.namespace
    | some namespace ↦ namespace
  ];
}

abbrev pub mirrored_event : Option String → List Event
mirrored_event (some endpoint) =
    event normal "EndpointMirrored" (joined "Mirrored endpoint from WorkloadExposure: " endpoint)
mirrored_event none =
    event normal "EndpointCleared" "Cleared endpoint due to WorkloadExposure changes"

module _ {Store : Type 0} where
  abbrev pub unwritten : Store → Option ApiError → Mirroring Store
  unwritten store failure = record { store = store; events = []; failure = failure }

  -- Behind the patch of the workload, into which its answer is decoded.
  abbrev pub after_patch : Store × Result ApiError Workload → Mirroring Store
  after_patch (store, err e) = unwritten store (some e)
  after_patch (store, ok w) = record {
    store = store;
    events = mirrored_event w.status.endpoint;
    failure = none;
  }

module _ {Store : Type 0} (client : ExposureClient Store)
    (parse_url : String → Option (String × String)) where
  -- Behind the read of the workload.
  unfoldable pub mirror_to : ℕ → Store → WorkloadExposure → Workload → Mirroring Store
  mirror_to now store exposure w =
      if not (exposure.spec.workload_ref.uid == "")
        && not (w.metadata.uid == exposure.spec.workload_ref.uid)
      then unwritten store none
      else if ltb exposure.spec.observed_workload_generation w.metadata.generation
      then unwritten store none
      else let (new, updated) = mirror parse_url now w exposure in
        if updated then after_patch (client.patch_status store w new) else unwritten store none

  unfoldable pub after_workload :
      ℕ → Store → WorkloadExposure → Result ApiError Workload → Mirroring Store
  after_workload now store exposure (err e) = unwritten store (ignore_not_found e)
  after_workload now store exposure (ok w) = mirror_to now store exposure w

  unfoldable pub after_exposure : ℕ → Store → Result ApiError WorkloadExposure → Mirroring Store
  after_exposure now store (err e) = unwritten store (ignore_not_found e)
  after_exposure now store (ok exposure) =
      after_workload now store exposure (client.get_workload store (workload_key exposure))

  -- Reconcile
  unfoldable pub reconcile_exposure : ℕ → Store → NamespacedName → Mirroring Store
  reconcile_exposure now store request =
      after_exposure now store (client.get_exposure store request)
