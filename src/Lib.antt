-- ===== src/Lib.antt =====
-- The core of the Score Orchestrator, a Kubernetes controller manager: a Workload asks for resources
-- by ResourceClaims, which a provisioner serves, and for a runtime by a WorkloadPlan, whose backend is
-- selected from an OrchestratorConfig. Each part keeps its state in the status of the API objects.
--
-- The parts and the code that they model:
--   * Api/: the types of api/v1b1 (Workload, Claim, Plan and Config; Meta has what is used of the
--     Kubernetes metadata and the JSON of a RawExtension). Enumerations are those that the CRDs admit.
--   * Conditions: internal/conditions/conditions.go. SetCondition, ApplyConditionUpdates and
--     ComputeReadyCondition are set_condition, apply_condition_updates and compute_ready_condition.
--     Laws is about the list as a map by type, Ready about the Ready condition.
--   * Status: internal/status/aggregate.go and internal/controller/managers/status_manager.go. Aggregate
--     is about the claims, Final about the Ready condition from conditions and plan, Normalize models
--     internal/status/normalize.go.
--   * Config: internal/config/validation.go. Validate is validate, which gives the list of errors;
--     Constraints has the errors and the checks of templates and constraints. Fresh and Checked
--     say what the selection may rely on. Reconciler is internal/config/reconciler_config.go and
--     reconciler_loader.go, and Reconciler/Bounds is about the settings that it serves.
--   * Selection: internal/selection/selector.go. Pipeline is SelectBackend with selectProfile and
--     filterBackends; Features and Quantity are the two tests of a backend; Ranking is the order of the
--     candidates and sort.Slice.
--   * Provisioner: internal/controller/provisioner_lifecycle.go and provisioner_controller.go with
--     internal/provisioner/. Lifecycle is the lifecycle manager, Outputs the output manager, Strategy the
--     interface of strategies and their selector, Secrets the strategies for redis and secret, Phases the
--     handlers of the phases, Reconcile the entry point, Supported the types that are served. Consistent,
--     Custody and Converges are about all of these.
--   * Projection: internal/projection/placeholder.go (Placeholder), and from internal/reconcile values.go
--     (Merge is mergeMaps, Values composeValues and what it reads) and resolver.go (Resolver).
--   * Workloads: the reconciliation of a Workload. Claims is internal/controller/managers/claim_manager.go;
--     Plans is plan_manager.go there and internal/reconcile/plan.go, Plans/Errors the texts of their
--     errors; Phases is internal/controller/phases/interface.go and internal/reconcile/finalizer.go;
--     Deletion is internal/controller/phases/deletion.go; Pipeline has the other phases and
--     internal/controller/reconciler/pipeline.go: execute is Execute, run_phases the loop over phases.
--   * Exposure: internal/controller/exposure_mirror_controller.go, whose Reconcile is reconcile_exposure,
--     and api/v1b1/workloadexposure_types.go. Conditions, Endpoint and Mirrored are about what it writes.
--   * Base: what the parts share: lists on native numbers, association lists for Go maps, texts as code
--     points, orders, results.
--
-- The parts interact by values: Provisioner writes the claims' status that Status aggregates into the
-- conditions of the workload, and Conditions combines those; Workloads runs Selection, Projection and
-- Status over a store. Where the code mutates an object through a
-- pointer, the definition takes the object and gives the new one back. The clock is an argument. Debug
-- output and logging are left out; events are values.
--
-- Parameters, for code that is not in the repository:
--   * SemVer (github.com/Masterminds/semver): parsing, and a comparison that is a total preorder.
--   * LabelMatcher (k8s.io/apimachinery): the match of a label selector, or its error.
--   * IsDNS1123Label (k8s.io/apimachinery): the error of a label, if it is not valid.
--   * Client: the API server for one claim, over a store of any type. ServesClaims states what an
--     update stores and that a failed one changes nothing; TakesUpdates, that updates succeed.
--   * SecretClient: the API server for Secrets, SetControllerReference, and crypto/rand with base64.
--     KeepsSecrets states what a creation and a deletion do to the Secrets that there are, TakesSecrets
--     that none of these calls fails. Nobody else writes the claim during a round of Reconcile.
--   * Client of Workloads: the API server for claims, plans and the Workload, over a store of any type.
--     IsAccepting states that it answers reads and takes writes, and keeps what it is given.
--   * Environment: the clock, %q of fmt, the loader of the configuration, and SetControllerReference.
--     GVKForObject, the read of a Secret and base64 of encoding/json are arguments too.
--   * ExposureClient: the three calls of the exposure mirror to the API server, over a store of any type,
--     and url.Parse of net/url.
--   * The float64 of the backoff multiplier, by 2.0 and the test against 1.0, and Yaml
--     (gopkg.in/yaml.v3): the decoding of a section and its overlay on a configuration.
--
-- Bounds: an int64 is its bit pattern below 2 ^ 64, with sums and products modulo 2 ^ 64; %d prints with
-- twenty digits of fuel, enough below 10 ^ 20 and so for any int64. sort.Slice is the insertion sort that
-- the library runs for up to twelve elements. Generations, times and delays are natural numbers.
--
-- A Go map is an association list with one entry to a key, and its order stands for that of one run.
-- The regular expressions are matchers over the text: in each there is one way to match from a place.
--
-- Not modelled: the ConfigMap's loading and cache, the registrar of exposures, endpoints, the
-- strategy for postgres, the Kubernetes runtime, UpsertResourceClaims and combineLabels (which nothing calls), the
-- watches and the start-up of the manager.
pub mod Base
pub mod Api
pub mod Conditions
pub mod Config
pub mod Status
pub mod Selection
pub mod Provisioner
pub mod Projection
pub mod Workloads
pub mod Exposure
