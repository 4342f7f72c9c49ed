-- ===== src/Status/Normalize.antt =====
-- internal/status/normalize.go: the conditions of a runtime in the vocabulary of the workload. The two
-- maps are association lists; no key stands in one of them twice.
pub mod Vocabulary
use score_orchestrator.Base.{String, Option, none, some, List, [], ◌∷◌, ◌==◌, if◌then◌else◌}
use score_orchestrator.Base.Dict.{Dict, lookup}
use score_orchestrator.Api.Meta.{Condition}

abbrev pub reason_map : Dict String
reason_map =
    ("Ready", "Succeeded")
    ∷ ("Available", "Succeeded")
    ∷ ("Deployed", "Succeeded")
    ∷ ("Active", "Succeeded")
    ∷ ("Healthy", "Succeeded")
    ∷ ("Running", "Succeeded")
    ∷ ("InvalidSpec", "SpecInvalid")
    ∷ ("ValidationError", "SpecInvalid")
    ∷ ("SchemaViolation", "SpecInvalid")
    ∷ ("InvalidConfiguration", "SpecInvalid")
    ∷ ("PolicyViolation", "PolicyViolation")
    ∷ ("SecurityViolation", "PolicyViolation")
    ∷ ("ComplianceFailure", "PolicyViolation")
    ∷ ("AdmissionDenied", "PolicyViolation")
    ∷ ("Pending", "BindingPending")
    ∷ ("Waiting", "BindingPending")
    ∷ ("Provisioning", "BindingPending")
    ∷ ("BindingFailed", "BindingFailed")
    ∷ ("ProvisioningFailed", "BindingFailed")
    ∷ ("ResourceUnavailable", "BindingFailed")
    ∷ ("ProjectionError", "ProjectionError")
    ∷ ("TransformationError", "ProjectionError")
    ∷ ("MappingError", "ProjectionError")
    ∷ ("Selecting", "RuntimeSelecting")
    ∷ ("RuntimeProvisioning", "RuntimeProvisioning")
    ∷ ("Degraded", "RuntimeDegraded")
    ∷ ("Unavailable", "RuntimeDegraded")
    ∷ ("Failed", "RuntimeDegraded")
    ∷ ("QuotaExceeded", "QuotaExceeded")
    ∷ ("ResourceQuotaExceeded", "QuotaExceeded")
    ∷ ("LimitExceeded", "QuotaExceeded")
    ∷ ("PermissionDenied", "PermissionDenied")
    ∷ ("Forbidden", "PermissionDenied")
    ∷ ("Unauthorized", "PermissionDenied")
    ∷ ("AccessDenied", "PermissionDenied")
    ∷ ("NetworkUnavailable", "NetworkUnavailable")
    ∷ ("NetworkError", "NetworkUnavailable")
    ∷ ("ConnectivityError", "NetworkUnavailable")
    ∷ ("DNSError", "NetworkUnavailable")
    ∷ []

abbrev pub type_map : Dict String
type_map =
    ("Ready", "Ready")
    ∷ ("ClaimsReady", "ClaimsReady")
    ∷ ("RuntimeReady", "RuntimeReady")
    ∷ ("InputsValid", "InputsValid")
    ∷ ("Available", "RuntimeReady")
    ∷ ("Deployed", "RuntimeReady")
    ∷ ("Active", "RuntimeReady")
    ∷ ("Healthy", "RuntimeReady")
    ∷ ("Running", "RuntimeReady")
    ∷ ("Progressing", "RuntimeReady")
    ∷ ("Valid", "InputsValid")
    ∷ ("Validated", "InputsValid")
    ∷ ("SpecValid", "InputsValid")
    ∷ ("Bound", "ClaimsReady")
    ∷ ("Provisioned", "ClaimsReady")
    ∷ ("ResourceReady", "ClaimsReady")
    ∷ []

-- The mapped name, or the empty string.
abbrev pub or_empty : Option String → String
or_empty none = ""
or_empty (some name) = name

unfoldable pub normalize_reason : String → String
normalize_reason reason = or_empty (lookup reason reason_map)

unfoldable pub normalize_condition_type : String → String
normalize_condition_type type = or_empty (lookup type type_map)

-- The message passes through as it is.
abbrev pub sanitize_message : String → String
sanitize_message message = message

-- nil if the condition is filtered out.
unfoldable pub normalize_condition : Condition → Option Condition
normalize_condition c =
    if normalize_reason c.reason == ""
    then none
    else if normalize_condition_type c.type == ""
    then none
    else some (record c {
      type = normalize_condition_type c.type;
      reason = normalize_reason c.reason;
      message = sanitize_message c.message;
    })

abbrev pub kept_before : Option Condition → List Condition → List Condition
kept_before none rest = rest
kept_before (some c) rest = c ∷ rest

unfoldable pub normalize_conditions : List Condition → List Condition
normalize_conditions [] = []
normalize_conditions (c ∷ cs) = kept_before (normalize_condition c) (normalize_conditions cs)
